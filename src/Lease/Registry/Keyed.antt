-- ===== src/Lease/Registry/Keyed.antt =====
-- The registry's invariant: a fault is held under its own identifier, once.
use simian_agent.Prelude.{
  ℕ, String, refl, sym, inl, inr, some, List, arith, string_Eq, Option-cases, [], ◌≡◌, ◌∷◌,
}
use simian_agent.Prelude.Assoc.{lookup, insert, delete, IsMap, insert-IsMap, delete-IsMap}
use simian_agent.Simian.Types.{FaultManifest, ActiveFault}
use simian_agent.Lease.Registry.{
  Registry, new_registry, register, adopt, forget, heartbeat, heartbeat_at, leased_as,
}

abbrev pub OwnKeys : List (String × ActiveFault) → Type 0
OwnKeys [] = Unit
OwnKeys ((k, af) ∷ m) = (k ≡ af.fault_uid) × OwnKeys m

pub record Keyed (r : Registry) : Type 0 where
  pub is_map : IsMap r.items
  pub own_keys : OwnKeys r.items

pub insert-OwnKeys :
    (k : String) (af : ActiveFault) (m : List (String × ActiveFault))
    → k ≡ af.fault_uid
    → OwnKeys m
    → OwnKeys (insert k af m)
unfolding insert
insert-OwnKeys k af [] e h = (e, tt)
insert-OwnKeys k af ((j, w) ∷ m) e h = ground (arith, insert-OwnKeys k af m)

pub delete-OwnKeys :
    (k : String) (m : List (String × ActiveFault)) → OwnKeys m → OwnKeys (delete k m)
unfolding delete
delete-OwnKeys k [] h = tt
delete-OwnKeys k ((j, w) ∷ m) h = ground (arith, delete-OwnKeys k m)

pub lookup-own_key :
    (k : String) (af : ActiveFault) (m : List (String × ActiveFault))
    → OwnKeys m
    → lookup k m ≡ some af
    → af.fault_uid ≡ k
unfolding lookup
lookup-own_key k af [] h e = cc
lookup-own_key k af ((j, w) ∷ m) h e = ground (arith, string_Eq.beq_iff j k, lookup-own_key k af m)

pub new_registry-Keyed : (holder : String) → Keyed (new_registry holder)
unfolding new_registry
new_registry-Keyed holder = record { is_map = tt; own_keys = tt }

pub register-Keyed :
    (r : Registry) (now : ℕ) (uid engine_uid : String) (m : FaultManifest) (deadline : ℕ)
    → Keyed r
    → Keyed (register r now uid engine_uid m deadline).0
unfolding register
register-Keyed r now uid engine_uid m deadline h =
    let af = leased_as r now uid engine_uid m deadline in
    record {
      is_map = insert-IsMap uid af r.items h.is_map;
      own_keys = insert-OwnKeys uid af r.items refl h.own_keys;
    }

pub adopt-Keyed : (r : Registry) (now : ℕ) (af : ActiveFault) → Keyed r → Keyed (adopt r now af)
unfolding adopt
adopt-Keyed r now af h = record {
  is_map = insert-IsMap af.fault_uid _ r.items h.is_map;
  own_keys = insert-OwnKeys af.fault_uid _ r.items refl h.own_keys;
}

pub forget-Keyed : (r s : Registry) (uid : String) → forget r uid ≡ some s → Keyed r → Keyed s
unfolding forget
forget-Keyed r s uid e h = ground (arith, delete-IsMap uid r.items, delete-OwnKeys uid r.items)

pub heartbeat-Keyed :
    (r : Registry) (now : ℕ) (uid : String) → Keyed r → Keyed (heartbeat r now uid)
unfolding heartbeat
heartbeat-Keyed r now uid h = elim (Option-cases (lookup uid r.items)) [
  | inl missing ↦ rw (missing, heartbeat_at) h
  | inr (af, found) ↦
      rw (found, heartbeat_at)
        (record {
          is_map = insert-IsMap uid _ r.items h.is_map;
          own_keys =
              insert-OwnKeys uid _ r.items (sym (lookup-own_key uid af r.items h.own_keys found))
                h.own_keys;
        })
]
