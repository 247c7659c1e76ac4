-- ===== src/Planner/Generate.antt =====
-- pkg/planner/generate.go: drafting a plan. The prompt is made of the input, which is fixed here, and
-- of the errors so far, so the model of a language is a function of these; `none` is a failed call.
-- Package encoding/json and the source of identifiers are parameters: a text that decodes to no plan
-- is `none`.
pub mod Plans
pub mod Sound
pub mod Retries
use simian_agent.Prelude.{
  length, ℤ, pos, pos_part, ltb_ℤ, ℕ, zero, suc, String, Bool, true, false, not, Option, none, some,
  List, map, [], ◌+◌, ◌&&◌, ◌∷◌, ◌++◌, ◌==◌, if◌then◌else◌, nat_Eq, string_Eq,
}
use simian_agent.Planner.Replies.{raw_of, Reply}
use simian_agent.Simian.Text.{trim_space, append_text}
use simian_agent.Planner.Topology.{check_step_compat, Topology}
use simian_agent.Audit.Records.{Reading}
use simian_agent.Simian.Types.{AttackPlan, Fields, TargetRef, PlanStep}
use simian_agent.Prelude.Results.{Result, ok, err}
use simian_agent.Planner.Dag.{validate_step_dag, DagError}

-- 2 * time.Minute.
abbrev pub two_minutes : ℤ
two_minutes = pos 120000000000

pub data StepError : Type 0 where
  duration_over_ceiling engine_required kind_required api_version_required target_required
        spec_required duration_rationale_required incompatible :
      StepError

pub data PlanError : Type 0 where
  empty_response decode_failed steps_required hypothesis_required : PlanError
  step_error : ℕ → StepError → PlanError
  dag_error : DagError → PlanError

pub data GenerateError : Type 0 where
  namespace_required catalog_empty call_failed : GenerateError
  no_valid_plan : PlanError → GenerateError

-- `ceiling` is Budget.MaxFaultDuration, and `entries` the number of catalog entries.
pub record GenerateInput : Type 0 where
  pub ns : String
  pub topology : Option Topology
  pub entries : ℕ
  pub ceiling : ℤ

abbrev pub is_positive : ℤ → Bool
is_positive d = ltb_ℤ (pos 0) d

-- The ceiling is off when it is not positive.
unfoldable pub is_over : ℤ → ℤ → Bool
is_over ceiling d = is_positive ceiling && ltb_ℤ ceiling d

unfoldable pub default_duration : ℤ → ℤ
unfolding is_over
default_duration ceiling = if is_over ceiling two_minutes then ceiling else two_minutes

unfoldable pub in_namespace : String → TargetRef → TargetRef
in_namespace ns t = if t.ns == "" then record t { ns = ns } else t

unfoldable pub normalize : GenerateInput → ℕ → PlanStep → PlanStep
unfolding in_namespace default_duration
normalize input i s = record s {
  order = if s.order == 0 then i + 1 else s.order;
  manifest = record s.manifest {
    source = "autonomous";
    targets = map (in_namespace input.ns) s.manifest.targets;
    duration =
        if is_positive s.manifest.duration
        then s.manifest.duration
        else default_duration input.ceiling;
  };
}

unfoldable pub has_fields : Option Fields → Bool
has_fields none = false
has_fields (some fs) = true

abbrev pub and_rest : PlanStep → Result PlanError (List PlanStep) → Result PlanError (List PlanStep)
and_rest s (ok ss) = ok (s ∷ ss)
and_rest s (err e) = err e

pub with_plan_id : String → PlanStep → PlanStep
with_plan_id id s = record s { manifest = record s.manifest { plan_id = id } }

-- `minted` is what ulid.Make().String() answers.
unfoldable pub stamp : String → AttackPlan → List PlanStep → AttackPlan
unfolding with_plan_id append_text
stamp minted plan steps =
    let id = if plan.plan_id == "" then append_text "plan-" minted else plan.plan_id in
    record plan { plan_id = id; steps = map (with_plan_id id) steps }

pub after_dag : String → AttackPlan → List PlanStep → Option DagError → Result PlanError AttackPlan
unfolding stamp
after_dag minted plan steps none = ok (stamp minted plan steps)
after_dag minted plan steps (some e) = err (dag_error e)

pub after_steps :
    String → AttackPlan → Result PlanError (List PlanStep) → Result PlanError AttackPlan
unfolding after_dag
after_steps minted plan (err e) = err e
after_steps minted plan (ok steps) = after_dag minted plan steps (validate_step_dag steps)

module _ (rd : Reading) where
  unfoldable pub check_step : GenerateInput → PlanStep → Option StepError
  check_step input s =
      if is_over input.ceiling s.manifest.duration
      then some duration_over_ceiling
      else if s.manifest.engine == ""
      then some engine_required
      else if s.manifest.resource_kind == ""
      then some kind_required
      else if s.manifest.api_version == ""
      then some api_version_required
      else if length s.manifest.targets == 0
      then some target_required
      else if not (has_fields s.manifest.spec)
      then some spec_required
      else if trim_space s.duration_rationale == ""
      then some duration_rationale_required
      else if not (check_step_compat rd s.manifest input.topology)
      then some incompatible
      else none

  -- The loop over the steps, from index `i`.
  unfoldable pub parse_steps : GenerateInput → ℕ → List PlanStep → Result PlanError (List PlanStep)
  parse_steps input i [] = ok []
  parse_steps input i (s ∷ ss) =
      let rest = and_rest (normalize input i s) (parse_steps input (i + 1) ss) in
      elim (check_step input (normalize input i s)) [
        | none ↦ rest
        | some e ↦ err (step_error (normalize input i s).order e)
      ]

  pub after_decode : GenerateInput → String → Option AttackPlan → Result PlanError AttackPlan
  unfolding after_steps parse_steps
  after_decode input minted none = err decode_failed
  after_decode input minted (some plan) =
      if length plan.steps == 0
      then err steps_required
      else if plan.hypothesis == ""
      then err hypothesis_required
      else after_steps minted plan (parse_steps input 0 plan.steps)

  module _ (decode : String → Option AttackPlan) where
    unfoldable pub parse_attack_plan : GenerateInput → String → String → Result PlanError AttackPlan
    unfolding after_decode
    parse_attack_plan input minted raw =
        if raw == "" then err empty_response else after_decode input minted (decode raw)

    -- `complete errors` is the model's answer after those errors; each attempt mints its own
    -- identifier. `left` attempts follow this one.
    module _ (complete : List PlanError → Option Reply) (mint : ℕ → String)
        (input : GenerateInput) where
      unfoldable pub attempt : List PlanError → Option (Result PlanError AttackPlan)
      unfolding parse_attack_plan raw_of
      attempt errors = elim (complete errors) [
        | none ↦ none
        | some reply ↦ some (parse_attack_plan input (mint (length errors)) (raw_of reply))
      ]

      unfoldable pub attempts : ℕ → List PlanError → Result GenerateError AttackPlan
      attempts zero errors = elim (attempt errors) [
        | none ↦ err call_failed
        | some (ok plan) ↦ ok plan
        | some (err e) ↦ err (no_valid_plan e)
      ]
      attempts (suc left) errors = elim (attempt errors) [
        | none ↦ err call_failed
        | some (ok plan) ↦ ok plan
        | some (err e) ↦ attempts left (errors ++ e ∷ [])
      ]

      -- A number of retries below 0 is 0.
      unfoldable pub generate : ℤ → Result GenerateError AttackPlan
      generate max_retries =
          if input.ns == ""
          then err namespace_required
          else if input.entries == 0
          then err catalog_empty
          else attempts (pos_part max_retries) []
