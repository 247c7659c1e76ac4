-- ===== src/Lease/Registry/Listing.antt =====
-- What List returns: the leased faults in a namespace, in the order in which they were applied.
use simian_agent.Prelude.{
  In, In-keep, In-keep_of, In-sort_by, InOrder, sort_by-InOrder, ℕ, String, inl, inr, Bool, true,
  false, some, List, arith, string_Eq, Bool-cases, [], ◌<◌, ◌≡◌, ◌↔◌, ◌∷◌, ◌==◌, nat_Eq,
}
use simian_agent.Prelude.Assoc.{lookup, values, IsMap, lookup_of_Absent}
use simian_agent.Simian.Types.{ActiveFault}
use simian_agent.Simian.Targets.{targets_namespace}
use simian_agent.Lease.Registry.Keyed.{Keyed, OwnKeys}
use simian_agent.Lease.Registry.{Registry, get, list, expired, is_expired, applied_before}

pub lookup_of_In :
    (af : ActiveFault) (m : List (String × ActiveFault))
    → IsMap m
    → OwnKeys m
    → In af (values m)
    → lookup af.fault_uid m ≡ some af
unfolding lookup
lookup_of_In af [] h o i = absurd i
lookup_of_In af ((j, w) ∷ m) h o (inl e) = ground (arith, string_Eq.beq_iff j af.fault_uid)
lookup_of_In af ((j, w) ∷ m) h o (inr i) =
    let ih = lookup_of_In af m h.1 o.1 i in
    ground (arith, lookup_of_Absent j m h.0, string_Eq.beq_iff j af.fault_uid)

pub In-of_lookup :
    (k : String) (af : ActiveFault) (m : List (String × ActiveFault))
    → lookup k m ≡ some af
    → In af (values m)
unfolding lookup
In-of_lookup k af [] e = cc
In-of_lookup k af ((j, w) ∷ m) e = elim (Bool-cases (j == k)) [
  | inl t ↦ inl (ground arith)
  | inr f ↦ inr (In-of_lookup k af m (rw f at e))
]

-- A fault is in List(ns) exactly when the registry holds it and it targets the namespace (any of
-- its targets counts, and an empty ns matches every fault).
pub list_exact :
    (r : Registry) (ns : String) (af : ActiveFault)
    → Keyed r
    → In af (list r ns)
      ↔ ((get r af.fault_uid ≡ some af) × (targets_namespace af.manifest ns ≡ true))
unfolding list get
list_exact r ns af h = (
  λ i.
      let (held, hit) = In-keep here af (values r.items) ((In-sort_by applied_before af _).0 i) in
      (lookup_of_In af r.items h.is_map h.own_keys held, hit),
  λ (found, hit).
      (In-sort_by applied_before af _).1
        (In-keep_of here af (values r.items) (In-of_lookup af.fault_uid af r.items found) hit),
)
  where
    here : ActiveFault → Bool
    here x = targets_namespace x.manifest ns

applied_before-total : (x y : ActiveFault) → applied_before x y ≡ false → applied_before y x ≡ true
applied_before-total x y h = ground arith

pub list-InOrder : (r : Registry) (ns : String) → InOrder applied_before (list r ns)
unfolding list
list-InOrder r ns = sort_by-InOrder applied_before applied_before-total _

-- The reaper's reading of the registry: exactly the held faults whose deadline is set and past.
pub expired_exact :
    (r : Registry) (now : ℕ) (af : ActiveFault)
    → Keyed r
    → In af (expired r now)
      ↔ ((get r af.fault_uid ≡ some af) × (0 < af.deadline) × (af.deadline < now))
unfolding expired get
expired_exact r now af h = (
  λ i.
      let (held, due) = In-keep (is_expired now) af (values r.items) i in
      (lookup_of_In af r.items h.is_map h.own_keys held, ground arith, ground arith),
  λ (found, set, past).
      In-keep_of (is_expired now) af (values r.items) (In-of_lookup af.fault_uid af r.items found)
        (ground arith),
)
