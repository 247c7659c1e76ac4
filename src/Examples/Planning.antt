-- ===== src/Examples/Planning.antt =====
-- A plan of two steps, its layers, and the cycle that runs it (pkg/planner, pkg/loop).
use simian_agent.Loop.Cycle.{
  submitted, times_of, max_cycle_of, run_step, execute_plan, Run, Budget, Executing, applied_as,
}
use simian_agent.Loop.Cycle.Capping.{execute_plan_capped, execute_plan-Kept, Kept}
use simian_agent.Prelude.{
  length, All, ℕ, suc, String, refl, true, none, List, map, arith, string_Eq, [], ◌+◌, ◌≤◌, ◌<◌,
  ◌≡◌, ◌≢◌, ◌⊎◌, ◌∷◌, ◌==◌, nat_Eq,
}
use simian_agent.Loop.Turn.{plan_made, run_once, TurnAnswers}
use simian_agent.Loop.Turn.Gating.{run_once_gated, Ran, Idle}
use simian_agent.Loop.Cycle.Walking.{Within}
use simian_agent.Loop.Cycle.Timing.{run_step-Timely, Timely}
use simian_agent.Simian.Text.{text}
use simian_agent.Planner.Dag.Validity.{
  validate_step_dag_exact, plan_layers_ends, IsDag, plan_layers-Right,
}
use simian_agent.Loop.Cycle.Refusing.{run_step_exact, Ascending}
use simian_agent.Examples.Data.{pod_kill, chain}
use simian_agent.Planner.Dag.{out_of_fuel, deps_of, peel, plan_layers, validate_step_dag}
use simian_agent.Loop.Cycle.Refusing.{counted}
use simian_agent.Planner.Dag.Ranks.{Right}
use simian_agent.Simian.Types.{FaultManifest, PlanStep, AttackPlan}

valid_test : validate_step_dag chain ≡ none
unfolding validate_step_dag plan_layers peel
valid_test = refl

validate_step_dag_exact_example :
    (validate_step_dag chain ≡ none → IsDag chain) × (IsDag chain → validate_step_dag chain ≡ none)
validate_step_dag_exact_example = validate_step_dag_exact chain

plan_layers_ends_example : plan_layers chain ≢ out_of_fuel
plan_layers_ends_example = plan_layers_ends chain

plan_layers-Right_example : Right (deps_of chain []) [] (plan_layers chain)
plan_layers-Right_example = plan_layers-Right chain

abbrev plan : AttackPlan
plan = record { plan_id = "p-1"; hypothesis = "shop survives a pod kill"; steps = chain }

-- The state is the number of calls; the clock stands still.
abbrev executing : Executing ℕ
executing = record { apply = λ w m. (suc w, applied_as "f-1"); clock = λ w. 7200000000000 }

abbrev kind_key : FaultManifest → String
kind_key m = m.resource_kind

abbrev as_launched : List PlanStep → List PlanStep
as_launched l = l

abbrev budget : Budget
budget = record {
  max_faults_per_cycle = 1;
  max_concurrent_faults = 1;
  max_severity_per_cycle = "node";
}

abbrev fresh : Run ℕ
fresh = record { world = 0; refusals = []; applied = []; events = [] }

abbrev at_tier : PlanStep → PlanStep
at_tier s = record s { manifest = record s.manifest { blast_radius_tier = "namespace" } }

abbrev tiered : AttackPlan
tiered = record plan { steps = map at_tier chain }

execute_plan_capped_example :
    (execute_plan executing kind_key as_launched tiered budget fresh).world
    ≤ 0 + max_cycle_of budget tiered
execute_plan_capped_example =
    execute_plan_capped executing kind_key tiered budget as_launched (λ w. w) fresh
      (λ w m. omega arith) (λ l. omega arith)

-- The state is the manifests that Apply was called on.
abbrev recording : Executing (List FaultManifest)
recording = record { apply = λ w m. (m ∷ w, applied_as "f-1"); clock = λ w. 7200000000000 }

abbrev IsFitting : FaultManifest → Type 0
IsFitting m = Within budget m × (m.plan_id ≡ tiered.plan_id) × (m.source ≡ "autonomous")

abbrev unrecorded : Run (List FaultManifest)
unrecorded = record { world = []; refusals = []; applied = []; events = [] }

recording_lem : Kept recording kind_key tiered budget (All IsFitting)
unfolding Kept
recording_lem w m within p q all = ((within, p, q), all)

execute_plan-Kept_example :
    All IsFitting (execute_plan recording kind_key as_launched tiered budget unrecorded).world
execute_plan-Kept_example =
    execute_plan-Kept recording kind_key tiered budget as_launched (All IsFitting) unrecorded
      recording_lem (λ l s i. i) tt

-- The cycle calls Apply once.
recorded_test :
    length (execute_plan recording kind_key as_launched tiered budget unrecorded).world ≡ 1
unfolding execute_plan plan_layers peel
recorded_test = refl

abbrev first_step : PlanStep
first_step = record { order = 1; manifest = pod_kill; depends_on = []; duration_rationale = "" }

-- Three refusals inside the last hour.
abbrev refused_thrice : Run ℕ
refused_thrice = record fresh {
  refusals = ("PodChaos", 1 ∷ 7100000000000 ∷ 7100000000001 ∷ 7100000000002 ∷ []) ∷ [];
}

three_ascend : Ascending (times_of refused_thrice.refusals (kind_key (submitted plan first_step)))
unfolding times_of submitted
three_ascend = (
  (omega arith, (omega arith, (omega arith, tt))),
  ((omega arith, (omega arith, tt)), ((omega arith, tt), (tt, tt))),
)

kind_is_named : kind_key (submitted plan first_step) ≢ ""
unfolding submitted
kind_is_named e =
    let p : (text "PodChaos" == "") ≡ true = (string_Eq.beq_iff "PodChaos" "").1 e in cc

run_step_exact_example :
    (3 ≤ counted executing kind_key plan refused_thrice first_step
      → ((run_step executing kind_key plan refused_thrice first_step).world ≡ 0)
        × ((run_step executing kind_key plan refused_thrice first_step).applied ≡ []))
    × (counted executing kind_key plan refused_thrice first_step < 3
        → (run_step executing kind_key plan refused_thrice first_step).world ≡ 1)
run_step_exact_example =
    run_step_exact executing kind_key plan refused_thrice first_step kind_is_named three_ascend

fresh-Timely : Timely 7200000000000 []
unfolding Timely times_of
fresh-Timely k = (tt, tt)

run_step-Timely_example :
    Timely
      (executing.clock (run_step executing kind_key plan fresh first_step).world)
      (run_step executing kind_key plan fresh first_step).refusals
run_step-Timely_example =
    run_step-Timely executing kind_key plan fresh first_step (λ w m. omega arith) fresh-Timely

abbrev all_clear : TurnAnswers
all_clear = record {
  has_slot = true;
  health = none;
  has_catalog = true;
  generated = plan_made plan;
}

run_once_gated_example :
    Idle executing kind_key as_launched budget 0
      (run_once executing kind_key as_launched budget fresh all_clear)
    ⊎ Ran executing kind_key as_launched budget fresh all_clear
        (run_once executing kind_key as_launched budget fresh all_clear)
run_once_gated_example = run_once_gated executing kind_key as_launched budget fresh all_clear
