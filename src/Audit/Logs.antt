-- ===== src/Audit/Logs.antt =====
-- pkg/audit/cycles.go, pkg/audit/faultlog.go: the recent records that a running controller keeps. The
-- two logs differ in the records they take and in what they fold them to.
pub mod Latest
use simian_agent.Prelude.{
  reverse, length, drop, sort_by, ℤ, pos, negsuc, ℕ, zero, suc, String, Bool, false, not, Option,
  none, some, List, ltb, leb, [], ◌-◌, ◌||◌, ◌∷◌, ◌++◌, ◌==◌, if◌then◌else◌, nat_Eq, string_Eq,
}
use simian_agent.Executor.Scope.{get_field}
use simian_agent.Executor.History.{newest}
use simian_agent.Audit.Cycles.{cycles, CycleRow, is_cycle_event}
use simian_agent.Audit.Faults.{faults, FaultRow}
use simian_agent.Catalog.Tiers.{any_item}
use simian_agent.Audit.Records.{Reading, Record, text_value}
use simian_agent.Simian.Types.{obj, Value, AuditEvent, Fields}

pub record Log : Type 0 where
  pub records : List Record
  pub max : ℕ

-- A limit of 0 or less is the default.
abbrev pub limit_or : ℕ → ℤ → ℕ
limit_or default (negsuc n) = default
limit_or default (pos zero) = default
limit_or default (pos (suc n)) = suc n

unfoldable pub new_cycle_log : ℤ → Log
new_cycle_log max = record { records = []; max = limit_or 5000 max }

unfoldable pub new_fault_log : ℤ → Log
new_fault_log max = record { records = []; max = limit_or 20000 max }

-- The oldest records past the limit go.
pub trimmed : ℕ → List Record → List Record
trimmed max rs = if ltb max (length rs) then drop (length rs - max) rs else rs

pub append_record : Log → Record → Log
unfolding trimmed
append_record l r = record l { records = trimmed l.max (l.records ++ r ∷ []) }

unfoldable pub is_cycle_record : Record → Bool
unfolding is_cycle_event
is_cycle_record r = is_cycle_event r.event

unfoldable pub is_fault_record : Record → Bool
is_fault_record r = not (r.fault_uid == "")

-- CycleLog.Add and FaultLog.Add.
unfoldable pub add_cycle_record : Log → Record → Log
unfolding append_record is_cycle_record
add_cycle_record l r = if not (is_cycle_record r) then l else append_record l r

unfoldable pub add_fault_record : Log → Record → Log
unfolding append_record is_fault_record
add_fault_record l r = if not (is_fault_record r) then l else append_record l r

-- The record of an event that is emitted at `now`; `payload` is its payload after a round trip
-- through JSON.
unfoldable pub emitted : ℕ → String → Fields → AuditEvent → Record
emitted now scenario_id payload e = record {
  ts = now;
  event = e.event;
  fault_uid = e.fault_uid;
  plan_id = e.plan_id;
  scenario_id = scenario_id;
  mode = e.mode;
  reason = e.reason;
  payload = payload;
}

unfoldable pub emit_cycle : Log → ℕ → String → Fields → AuditEvent → Log
unfolding add_cycle_record emitted is_cycle_event
emit_cycle l now scenario_id payload e =
    if not (is_cycle_event e.event)
    then l
    else add_cycle_record l (emitted now scenario_id payload e)

unfoldable pub emit_fault : Log → ℕ → String → Fields → AuditEvent → Log
unfolding add_fault_record emitted
emit_fault l now scenario_id payload e =
    if e.fault_uid == "" then l else add_fault_record l (emitted now scenario_id payload e)

abbrev pub by_time : Record → Record → Bool
by_time a b = leb a.ts b.ts

unfoldable pub recent_cycles : Reading → Log → String → ℕ → List CycleRow
unfolding sort_by newest
recent_cycles rd l ns limit =
    newest (λ c. ns == "" || c.ns == ns) limit 0 (reverse (cycles rd (sort_by by_time l.records)))

pub is_same_text : String → Option String → Bool
is_same_text t none = false
is_same_text t (some s) = s == t

-- `m["namespace"] == namespace`.
unfoldable pub names_namespace : String → Value → Bool
unfolding text_value get_field is_same_text
names_namespace ns (obj m) = is_same_text ns (text_value (get_field "namespace" m))
names_namespace ns _ = false

unfoldable pub row_targets : FaultRow → String → Bool
unfolding any_item names_namespace
row_targets r ns = any_item (names_namespace ns) r.described.targets

abbrev newest_rows : String → ℕ → Option (List FaultRow) → Option (List FaultRow)
newest_rows ns limit none = none
newest_rows ns limit (some rows) =
    some (newest (λ r. ns == "" || row_targets r ns) limit 0 (reverse rows))

-- `none` is a nil pointer dereferenced.
unfoldable pub recent_faults : Reading → Log → String → ℕ → Option (List FaultRow)
unfolding sort_by newest row_targets
recent_faults rd l ns limit = newest_rows ns limit (faults rd (sort_by by_time l.records))
