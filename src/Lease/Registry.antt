-- ===== src/Lease/Registry.antt =====
-- pkg/lease/registry.go, the in-memory map of leased faults. The clock's reading is an argument.
pub mod Keyed
pub mod Listing
pub mod Sizes
use simian_agent.Prelude.{
  keep, sort_by, ℕ, String, Bool, not, Option, none, some, List, ltb, leb, [], ◌&&◌, ◌==◌, nat_Eq,
  string_Eq,
}
use simian_agent.Prelude.Assoc.{lookup, insert, delete, values}
use simian_agent.Simian.Types.{FaultManifest, ActiveFault}
use simian_agent.Simian.Targets.{targets_namespace}

pub record Registry : Type 0 where
  pub holder : String
  pub items : List (String × ActiveFault)

unfoldable pub new_registry : String → Registry
new_registry holder_id = record { holder = holder_id; items = [] }

abbrev pub leased_as : Registry → ℕ → String → String → FaultManifest → ℕ → ActiveFault
leased_as r now fault_uid engine_uid m deadline = record {
  fault_uid = fault_uid;
  engine_uid = engine_uid;
  manifest = m;
  applied_at = now;
  deadline = deadline;
  holder = r.holder;
  last_beat = now;
}

unfoldable pub register :
    Registry → ℕ → String → String → FaultManifest → ℕ → Registry × ActiveFault
register r now fault_uid engine_uid m deadline =
    let af = leased_as r now fault_uid engine_uid m deadline in
    (record r { items = insert fault_uid af r.items }, af)

-- The fault keeps its applied time and its deadline; the holder changes.
unfoldable pub adopt : Registry → ℕ → ActiveFault → Registry
adopt r now af = record r {
  items = insert af.fault_uid (record af { holder = r.holder; last_beat = now }) r.items;
}

unfoldable pub get : Registry → String → Option ActiveFault
get r fault_uid = lookup fault_uid r.items

-- `none` is ErrNotFound.
unfoldable pub forget : Registry → String → Option Registry
forget r fault_uid = elim (lookup fault_uid r.items) [
  | none ↦ none
  | some af ↦ some (record r { items = delete fault_uid r.items })
]

abbrev pub applied_before : ActiveFault → ActiveFault → Bool
applied_before a b = leb a.applied_at b.applied_at

unfoldable pub list : Registry → String → List ActiveFault
list r ns = sort_by applied_before (keep (λ af. targets_namespace af.manifest ns) (values r.items))

heartbeat_at : String → Option ActiveFault → Registry → ℕ → Registry
heartbeat_at fault_uid none r now = r
heartbeat_at fault_uid (some af) r now = record r {
  items = insert fault_uid (record af { last_beat = now }) r.items;
}

unfoldable pub heartbeat : Registry → ℕ → String → Registry
unfolding heartbeat_at
heartbeat r now fault_uid = heartbeat_at fault_uid (lookup fault_uid r.items) r now

-- A deadline has passed only if it is set, and the clock is after it.
abbrev pub is_expired : ℕ → ActiveFault → Bool
is_expired now af = not (af.deadline == 0) && ltb af.deadline now

unfoldable pub expired : Registry → ℕ → List ActiveFault
expired r now = keep (is_expired now) (values r.items)
