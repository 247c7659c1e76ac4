-- ===== src/Loop/Turn.antt =====
-- pkg/loop/loop.go, RunOnce: one namespace's turn. What the wait for a slot, the health gate, the
-- catalog and the generator answer is a record. The text of an error is left out of its event.
pub mod Gating
use simian_agent.Loop.Cycle.{Budget, Run, Executing, execute_plan}
use simian_agent.Prelude.{
  String, Bool, true, false, Option, none, some, List, [], ◌∷◌, ◌++◌, if◌then◌else◌,
}
use simian_agent.Loop.Health.{HealthError}
use simian_agent.Simian.Types.{PlanStep, FaultManifest, AuditEvent, AttackPlan}

-- The generator's answer: a plan, no plan that passed validation, a shutdown in the middle of the
-- call, or any other failure.
pub data Generated : Type 0 where
  plan_made : AttackPlan → Generated
  no_valid_plan shut_down llm_failed : Generated

-- `health` is the gate's error, if there is a gate and it has one.
pub record TurnAnswers : Type 0 where
  pub has_slot : Bool
  pub health : Option HealthError
  pub has_catalog : Bool
  pub generated : Generated

abbrev pub cycle_event : String → String → String → AuditEvent
cycle_event name plan_id reason = record {
  event = name;
  fault_uid = "";
  plan_id = plan_id;
  mode = "autonomous";
  reason = reason;
}

-- `plan = none` is the empty plan of a turn that was skipped.
pub record Turned (W : Type 0) : Type 0 where
  pub run : Run W
  pub plan : Option AttackPlan
  pub is_failed : Bool

unfoldable pub emits : {W : Type 0} → Run W → List AuditEvent → Run W
emits r evs = record r { events = r.events ++ evs }

unfoldable pub skips : {W : Type 0} → Run W → List AuditEvent → Turned W
unfolding emits
skips r evs = record { run = emits r evs; plan = none; is_failed = false }

unfoldable pub skip_event : String → AuditEvent
skip_event reason = cycle_event "cycle.skipped" "" reason

module _ {W : Type 0} (ex : Executing W) (step_key : FaultManifest → String)
    (pick : List PlanStep → List PlanStep) (b : Budget) where
  unfoldable pub after_plan : Run W → AttackPlan → Turned W
  unfolding emits execute_plan
  after_plan r plan =
      let started = emits r (cycle_event "plan.generated" plan.plan_id "" ∷ []) in
      let done = execute_plan ex step_key pick plan b started in
      record {
        run = emits done (cycle_event "cycle.completed" plan.plan_id "" ∷ []);
        plan = some plan;
        is_failed = false;
      }

  unfoldable pub after_generate : Run W → Generated → Turned W
  unfolding skips skip_event after_plan
  after_generate r (plan_made plan) = after_plan r plan
  after_generate r no_valid_plan = skips r (skip_event "no-valid-plan" ∷ [])
  after_generate r shut_down = skips r (skip_event "interrupted" ∷ [])
  after_generate r llm_failed =
      skips r (cycle_event "cycle.llm_unavailable" "" "" ∷ skip_event "llm-unavailable" ∷ [])

  unfoldable pub after_health : Run W → TurnAnswers → Option HealthError → Turned W
  unfolding skips skip_event after_generate
  after_health r a (some e) =
      skips r (cycle_event "cycle.health_gate_failed" "" "" ∷ skip_event "health-gate" ∷ [])
  after_health r a none =
      if a.has_catalog
      then after_generate r a.generated
      else record { run = r; plan = none; is_failed = true }

  unfoldable pub run_once : Run W → TurnAnswers → Turned W
  unfolding emits skips skip_event after_health
  run_once r a =
      let started = emits (record r { applied = [] }) (cycle_event "cycle.started" "" "" ∷ []) in
      if a.has_slot
      then after_health started a a.health
      else skips started (skip_event "budget-full" ∷ [])
