-- ===== src/Audit/Records.antt =====
-- pkg/audit/audit.go, pkg/audit/file.go: the names of the events and the record of one. Packages
-- time and encoding/json are behind `Reading`: the times and durations that texts stand for, and the
-- targets that a JSON list decodes to.
use simian_agent.Prelude.{ℤ, ℕ, String, Bool, Option, none, some, List, [], ◌∷◌}
use simian_agent.Executor.Scope.{get_field}
use simian_agent.Simian.Types.{
  num, nil, cons, bool, arr, obj, str, cons, TargetRef, Value, Items, Fields,
}

abbrev pub event_executor_received : String
event_executor_received = "executor.received"

abbrev pub event_executor_rejected : String
event_executor_rejected = "executor.rejected"

abbrev pub event_driver_applied : String
event_driver_applied = "driver.applied"

abbrev pub event_driver_failed : String
event_driver_failed = "driver.failed"

abbrev pub event_plan_generated : String
event_plan_generated = "plan.generated"

abbrev pub event_cycle_started : String
event_cycle_started = "cycle.started"

abbrev pub event_cycle_skipped : String
event_cycle_skipped = "cycle.skipped"

abbrev pub event_cycle_completed : String
event_cycle_completed = "cycle.completed"

abbrev pub event_health_gate_failed : String
event_health_gate_failed = "cycle.health_gate_failed"

abbrev pub event_llm_unavailable : String
event_llm_unavailable = "cycle.llm_unavailable"

abbrev pub event_step_skipped : String
event_step_skipped = "cycle.step_skipped"

abbrev pub event_fault_efficacy : String
event_fault_efficacy = "fault.efficacy"

abbrev pub event_fault_injected : String
event_fault_injected = "fault.injected"

abbrev pub event_fault_recovered : String
event_fault_recovered = "fault.recovered"

abbrev pub event_lease_expired : String
event_lease_expired = "lease.expired"

abbrev pub event_lease_adopted : String
event_lease_adopted = "lease.adopted"

abbrev pub event_lease_cleared : String
event_lease_cleared = "lease.cleared"

-- A nil payload is an empty one: every reading of it is the same.
pub record Record : Type 0 where
  pub ts : ℕ
  pub event : String
  pub fault_uid : String
  pub plan_id : String
  pub scenario_id : String
  pub mode : String
  pub reason : String
  pub payload : Fields

-- `time.Parse(time.RFC3339, s)` if it succeeds, the first result of `time.ParseDuration`, the targets
-- that a list has after json.Marshal and json.Unmarshal, if these succeed, and `int(o)` of the
-- float64 that a JSON number is read as.
pub record Reading : Type 0 where
  pub parse_time : String → Option ℕ
  pub parse_duration : String → ℤ
  pub read_targets : Items → Option (List TargetRef)
  pub read_int : String → ℤ

-- `v, ok := p[k].(string)` and the like.
unfoldable pub text_value : Option Value → Option String
text_value (some (str s)) = some s
text_value _ = none

unfoldable pub bool_value : Option Value → Option Bool
bool_value (some (bool b)) = some b
bool_value _ = none

unfoldable pub list_value : Option Value → Option Items
list_value (some (arr xs)) = some xs
list_value _ = none

unfoldable pub map_value : Option Value → Option Fields
map_value (some (obj fs)) = some fs
map_value _ = none

-- A new value if there is one.
abbrev pub value_or {ℓ} : {A : Type ℓ} → Option A → A → A
value_or none old = old
value_or (some new) old = new

-- `s, _ := p[k].(string)`.
unfoldable pub text_at : Fields → String → String
unfolding text_value get_field
text_at p k = value_or (text_value (get_field k p)) ""

-- The texts in a list; what is no text is passed over.
unfoldable pub texts_of : Items → List String
texts_of nil = []
texts_of (cons (str s) r) = s ∷ texts_of r
texts_of (cons _ r) = texts_of r

-- `o, ok := v.(float64)`, as the text of the number.
unfoldable pub number_value : Option Value → Option String
number_value (some (num s)) = some s
number_value _ = none
