-- ===== src/Loop/Cycle.antt =====
-- pkg/loop/loop.go: which steps of a plan a cycle submits (executePlan), the severity cap, and the
-- steps that the executor keeps refusing. The walk over a layer reads nothing that the layer's
-- goroutines do, so it comes first here; then they run one after another, in the order `pick`. The
-- executor, its state and the clock are parameters, and so is the JSON text that stepKey makes of a
-- manifest.
pub mod Refusing
pub mod Timing
pub mod Restored
pub mod Walking
pub mod Capping
use simian_agent.Prelude.{
  reverse, length, pos, ℕ, suc, String, Bool, true, not, Option, none, some, List, ltb, leb, [],
  ◌-◌, ◌&&◌, ◌||◌, ◌∷◌, ◌++◌, ◌==◌, if◌then◌else◌, nat_Eq, string_Eq,
}
use simian_agent.Planner.Dag.{layers, plan_layers, Layering}
use simian_agent.Simian.Types.{
  RejectionReason, reason_text, tier_external, tier_node, tier_namespace, AttackPlan, PlanStep,
  ExecutorError, AuditEvent, BlastRadiusTier, FaultManifest,
}
use simian_agent.Executor.History.{RefusedFault, refusal_worth_remembering}
use simian_agent.Prelude.Assoc.{delete, insert, lookup}

-- A cap of 0 is off; "" is no severity cap.
pub record Budget : Type 0 where
  pub max_faults_per_cycle : ℕ
  pub max_concurrent_faults : ℕ
  pub max_severity_per_cycle : BlastRadiusTier

unfoldable pub tier_ordinal : BlastRadiusTier → Option ℕ
tier_ordinal t =
    if t == tier_namespace
    then some 1
    else if t == tier_node
    then some 2
    else if t == tier_external
    then some 3
    else none

-- Two tiers that are known are compared; anything else exceeds.
pub exceeds : Option ℕ → Option ℕ → Bool
exceeds (some h) (some m) = ltb m h
exceeds _ _ = true

unfoldable pub tier_exceeds : BlastRadiusTier → BlastRadiusTier → Bool
unfolding tier_ordinal exceeds
tier_exceeds have max = exceeds (tier_ordinal have) (tier_ordinal max)

unfoldable pub is_over_severity : Budget → FaultManifest → Bool
unfolding tier_exceeds
is_over_severity b m =
    not (b.max_severity_per_cycle == "")
    && tier_exceeds m.blast_radius_tier b.max_severity_per_cycle

abbrev pub zero_manifest : FaultManifest
zero_manifest = record {
  uid = "";
  source = "";
  engine = "";
  api_version = "";
  resource_kind = "";
  spec = none;
  targets = [];
  duration = pos 0;
  blast_radius_tier = "";
  probes = [];
  rationale = "";
  plan_id = "";
  annotations = [];
}

-- stepsByOrder: the last step of an order, and Go's zero value for an order that no step has.
pub step_at : List PlanStep → ℕ → PlanStep → PlanStep
step_at [] order last = last
step_at (s ∷ ss) order last = step_at ss order (if s.order == order then s else last)

abbrev pub zero_step : PlanStep
zero_step = record { order = 0; manifest = zero_manifest; depends_on = []; duration_rationale = "" }

abbrev pub step_skipped : AttackPlan → String → AuditEvent
step_skipped plan reason = record {
  event = "cycle.step_skipped";
  fault_uid = "";
  plan_id = plan.plan_id;
  mode = "autonomous";
  reason = reason;
}

-- What the walk over a layer has decided so far.
pub record Walk : Type 0 where
  pub scheduled : ℕ
  pub launched : List PlanStep
  pub events : List AuditEvent

unfoldable pub walk_one : AttackPlan → Budget → ℕ → Walk → ℕ → Walk
unfolding is_over_severity step_at
walk_one plan b max_cycle w order =
    let step = step_at plan.steps order zero_step in
    if is_over_severity b step.manifest
    then record w { events = w.events ++ step_skipped plan "severity-cap" ∷ [] }
    else if leb max_cycle w.scheduled
    then record w { events = w.events ++ step_skipped plan "cycle-budget-exhausted" ∷ [] }
    else record w { scheduled = suc w.scheduled; launched = w.launched ++ step ∷ [] }

unfoldable pub walk_layer : AttackPlan → Budget → ℕ → Walk → List ℕ → Walk
unfolding walk_one
walk_layer plan b max_cycle w [] = w
walk_layer plan b max_cycle w (o ∷ os) =
    walk_layer plan b max_cycle (walk_one plan b max_cycle w o) os

unfoldable pub max_cycle_of : Budget → AttackPlan → ℕ
max_cycle_of b plan =
    if b.max_faults_per_cycle == 0 then length plan.steps else b.max_faults_per_cycle

abbrev pub repeated_refusal_limit : ℕ
repeated_refusal_limit = 3

-- time.Hour.
abbrev pub repeated_refusal_window : ℕ
repeated_refusal_window = 3600000000000

unfoldable pub drop_before : ℕ → List ℕ → List ℕ
drop_before cutoff [] = []
drop_before cutoff (t ∷ ts) =
    let rest = drop_before cutoff ts in if ltb t cutoff then rest else t ∷ ts

unfoldable pub times_of : List (String × List ℕ) → String → List ℕ
unfolding lookup
times_of refusals key = elim (lookup key refusals) [ none ↦ [] | some ts ↦ ts ]

-- The count, and the map without what is too old.
unfoldable pub recent_refusals : List (String × List ℕ) → ℕ → String → ℕ × List (String × List ℕ)
unfolding drop_before times_of insert delete
recent_refusals refusals now key =
    let kept = drop_before (now - repeated_refusal_window) (times_of refusals key) in
    if key == ""
    then (0, refusals)
    else if length kept == 0
    then (0, delete key refusals)
    else (length kept, insert key kept refusals)

-- `none` is a step that ran.
unfoldable pub note_outcome :
    List (String × List ℕ) → ℕ → String → Option ExecutorError → List (String × List ℕ)
unfolding times_of refusal_worth_remembering insert delete
note_outcome refusals now key none = if key == "" then refusals else delete key refusals
note_outcome refusals now key (some e) =
    if key == ""
    then refusals
    else if not (refusal_worth_remembering (some e))
    then refusals
    else insert key (times_of refusals key ++ now ∷ []) refusals

-- seedRefusals, over the refusals from the oldest on.
unfoldable pub seed_one :
    (FaultManifest → String) → List (String × List ℕ) → RefusedFault → List (String × List ℕ)
unfolding times_of reason_text insert
seed_one step_key refusals rf =
    let key = step_key rf.manifest in
    if key == "" || rf.reason == reason_text RejectionReason.budget_exceeded
    then refusals
    else insert key (times_of refusals key ++ rf.refused_at ∷ []) refusals

unfoldable pub seed_all :
    (FaultManifest → String) → List (String × List ℕ) → List RefusedFault → List (String × List ℕ)
unfolding seed_one
seed_all step_key refusals [] = refusals
seed_all step_key refusals (rf ∷ rfs) = seed_all step_key (seed_one step_key refusals rf) rfs

-- `refused` is what the history lists, newest first.
unfoldable pub seed_refusals :
    (FaultManifest → String) → List (String × List ℕ) → List RefusedFault → List (String × List ℕ)
unfolding seed_all
seed_refusals step_key refusals refused = seed_all step_key refusals (reverse refused)

pub data Applied : Type 0 where
  applied_as : String → Applied
  rejected : ExecutorError → Applied

-- The executor as the loop sees it: its state, Apply, and the clock.
pub record Executing (W : Type 0) : Type 0 where
  pub apply : W → FaultManifest → W × Applied
  pub clock : W → ℕ

pub record Run (W : Type 0) : Type 0 where
  pub world : W
  pub refusals : List (String × List ℕ)
  pub applied : List String
  pub events : List AuditEvent

unfoldable pub submitted : AttackPlan → PlanStep → FaultManifest
submitted plan s = record s.manifest { plan_id = plan.plan_id; source = "autonomous" }

module _ {W : Type 0} (ex : Executing W) (step_key : FaultManifest → String) where
  unfoldable pub after_apply : AttackPlan → Run W → String → W × Applied → Run W
  unfolding note_outcome
  after_apply plan r key (w, applied_as uid) = record r {
    world = w;
    refusals = note_outcome r.refusals (ex.clock w) key none;
    applied = r.applied ++ uid ∷ [];
  }
  after_apply plan r key (w, rejected e) = record r {
    world = w;
    refusals = note_outcome r.refusals (ex.clock w) key (some e);
    events = r.events ++ step_skipped plan "executor-rejected" ∷ [];
  }

  -- One goroutine.
  unfoldable pub run_step : AttackPlan → Run W → PlanStep → Run W
  unfolding submitted recent_refusals after_apply
  run_step plan r s =
      let m = submitted plan s in
      let key = step_key m in
      let (n, refusals) = recent_refusals r.refusals (ex.clock r.world) key in
      if leb repeated_refusal_limit n
      then record r {
        refusals = refusals;
        events = r.events ++ step_skipped plan "repeated-refusal" ∷ [];
      }
      else after_apply plan (record r { refusals = refusals }) key (ex.apply r.world m)

  unfoldable pub run_steps : AttackPlan → Run W → List PlanStep → Run W
  unfolding run_step
  run_steps plan r [] = r
  run_steps plan r (s ∷ ss) = run_steps plan (run_step plan r s) ss

  module _ (pick : List PlanStep → List PlanStep) where
    unfoldable pub run_layer : AttackPlan → Budget → ℕ → ℕ → Run W → List ℕ → ℕ × Run W
    unfolding walk_layer run_steps
    run_layer plan b max_cycle scheduled r layer =
        let w =
          walk_layer plan b max_cycle (record { scheduled = scheduled; launched = []; events = [] })
            layer in
        (w.scheduled, run_steps plan (record r { events = r.events ++ w.events }) (pick w.launched))

    unfoldable pub run_layers : AttackPlan → Budget → ℕ → ℕ → Run W → List (List ℕ) → Run W
    unfolding run_layer
    run_layers plan b max_cycle scheduled r [] = r
    run_layers plan b max_cycle scheduled r (layer ∷ rest) =
        let (n, r1) = run_layer plan b max_cycle scheduled r layer in
        let after = run_layers plan b max_cycle n r1 rest in
        if leb max_cycle scheduled then r else after

    unfoldable pub run_layering : AttackPlan → Budget → Run W → Layering → Run W
    unfolding run_layers max_cycle_of
    run_layering plan b r (layers ls) = run_layers plan b (max_cycle_of b plan) 0 r ls
    run_layering plan b r _ = record r {
      events =
          r.events
          ++ record {
            event = "cycle.skipped";
            fault_uid = "";
            plan_id = plan.plan_id;
            mode = "autonomous";
            reason = "plan-layering-failed";
          }
            ∷ [];
    }

    unfoldable pub execute_plan : AttackPlan → Budget → Run W → Run W
    unfolding run_layering
    execute_plan plan b r = run_layering plan b r (plan_layers plan.steps)
