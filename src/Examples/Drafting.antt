-- ===== src/Examples/Drafting.antt =====
-- A plan and a fault that a model of a language drafts (pkg/planner), and the checks of what a fault
-- would meet in a container (pkg/executor/compat.go).
use simian_agent.Prelude.{
  length, pos, ℕ, String, refl, inl, Bool, true, false, Option, none, some, List, arith, [], ◌≡◌,
  ◌↔◌, ◌⊎◌, ◌∷◌, ◌==◌, if◌then◌else◌, nat_Eq, string_Eq,
}
use simian_agent.Planner.Dag.{peel, plan_layers, validate_step_dag}
use simian_agent.Planner.Topology.{check_step_compat}
use simian_agent.Executor.Safety.{error_at}
use simian_agent.Executor.Paths.Matching.{chaos_path_matches_exact, Globs}
use simian_agent.Planner.Generate.Retries.{generate-Ends, Ends}
use simian_agent.Simian.Text.{append_text, trim_space, text}
use simian_agent.Examples.Data.{pod_kill}
use simian_agent.Planner.Replies.{raw_of, Reply}
use simian_agent.Executor.Compat.Fitting.{check_target_compat-IsCompatible, IsCompatible}
use simian_agent.Executor.Paths.{chaos_path_matches}
use simian_agent.Audit.Records.{Reading}
use simian_agent.Prelude.Results.{err, ok, Result}
use simian_agent.Planner.Translate.Submitting.{translate-IsSubmittable, IsSubmittable}
use simian_agent.Planner.Generate.{
  has_fields, in_namespace, default_duration, is_over, parse_attack_plan, check_step, normalize,
  parse_steps, attempt, two_minutes, attempts, GenerateError, PlanError, GenerateInput, generate,
}
use simian_agent.Planner.Translate.{
  parse_manifest, translate_attempts, Draft, DraftError, translate,
}
use simian_agent.Simian.Types.{
  RejectionReason, ExecutorStage, TargetRef, FaultManifest, AttackPlan, end, field, str, num,
}
use simian_agent.Executor.Compat.{
  probe_port, check_http_chaos_probes, Container, check_target_compat, pods_for, TargetPods, Probe,
  numbered,
}

abbrev reading : Reading
reading = record {
  parse_time = λ s. none;
  parse_duration = λ s. pos 60;
  read_targets = λ xs. none;
  read_int = λ s. if s == "8080" then pos 8080 else pos 1;
}

globs_test : chaos_path_matches "/api/*/items" "/api/v1/x/items" ≡ true
unfolding chaos_path_matches
globs_test = refl

no_match_test : chaos_path_matches "/api/*" "/healthz" ≡ false
unfolding chaos_path_matches
no_match_test = refl

chaos_path_matches_exact_example :
    (chaos_path_matches "/a*" "/a/b" ≡ true) ↔ ((text "/a*" ≡ "") ⊎ Globs "/a*" "/a/b")
chaos_path_matches_exact_example = chaos_path_matches_exact "/a*" "/a/b"

abbrev health : Probe
health = record {
  http_get = some (record { port = numbered (pos 8080); path = "/healthz" });
  grpc = none;
}

abbrev frontend : Container
frontend = record {
  name = "frontend";
  ports = [];
  liveness = some health;
  readiness = none;
  startup = none;
  read_only = none;
  mounts = [];
}

abbrev the_pods : TargetPods
the_pods ns labels = some ((frontend ∷ []) ∷ [])

abbrev labelled : TargetRef
labelled = record { ns = "shop"; kind = ""; name = ""; labels = ("app", "frontend") ∷ [] }

abbrev abort_at : String → FaultManifest
abort_at path = record pod_kill {
  resource_kind = "HTTPChaos";
  spec = some (field "path" (str path) (field "port" (num "8080") end));
  targets = labelled ∷ [];
}

refused_test :
    check_target_compat reading (some the_pods) (abort_at "/health*")
    ≡ some (error_at ExecutorStage.precheck RejectionReason.target_incompatible)
unfolding check_target_compat check_http_chaos_probes chaos_path_matches probe_port
refused_test = refl

accepted : check_target_compat reading (some the_pods) (abort_at "/api*") ≡ none
unfolding check_target_compat check_http_chaos_probes chaos_path_matches probe_port
accepted = refl

check_target_compat-IsCompatible_example : IsCompatible reading (abort_at "/api*") frontend
unfolding pods_for
check_target_compat-IsCompatible_example =
    check_target_compat-IsCompatible reading the_pods (abort_at "/api*") refl accepted labelled
      (frontend ∷ []) frontend (inl refl) (inl refl) (inl refl)

abbrev drafted : AttackPlan
drafted = record {
  plan_id = "";
  hypothesis = "shop survives a pod kill";
  steps =
      record {
        order = 0;
        manifest = record pod_kill { api_version = "chaos-mesh.org/v1alpha1" };
        depends_on = [];
        duration_rationale = "two restarts";
      }
      ∷ [];
}

abbrev input : GenerateInput
input = record { ns = "shop"; topology = none; entries = 1; ceiling = pos 300000000000 }

-- The first answer is no plan, and the second is one.
abbrev replies : List PlanError → Option Reply
replies errors =
    some (record { structured = if length errors == 0 then "nonsense" else "plan"; free_text = "" })

abbrev decode_plan : String → Option AttackPlan
decode_plan raw = if raw == "plan" then some drafted else none

abbrev mint : ℕ → String
mint n = "01"

abbrev made : Result GenerateError AttackPlan
made = generate reading decode_plan replies mint input (pos 1)

is_made : Result GenerateError AttackPlan → Bool
is_made (ok plan) = plan.plan_id == "plan-01"
is_made (err e) = false

made_test : is_made made ≡ true
unfolding is_made generate attempts attempt parse_steps normalize check_step parse_attack_plan
    raw_of check_step_compat is_over default_duration in_namespace trim_space validate_step_dag
    plan_layers peel append_text has_fields
made_test = refl

generate-Ends_example :
    (told : List PlanError) × Ends reading input decode_plan replies mint 1 made told
generate-Ends_example =
    generate-Ends reading input decode_plan replies mint (pos 1) (λ e. absurd (cc))
      (λ e. absurd (omega arith))

abbrev draft : Draft
draft = record {
  engine = "chaos-mesh";
  api_version = "chaos-mesh.org/v1alpha1";
  resource_kind = "";
  kind = "PodChaos";
  spec = some end;
  targets = labelled ∷ [];
  duration = "";
  blast_radius_tier = "";
  rationale = "";
}

abbrev handed_on : FaultManifest
handed_on = record {
  uid = "";
  source = "directed";
  engine = "chaos-mesh";
  api_version = "chaos-mesh.org/v1alpha1";
  resource_kind = "PodChaos";
  spec = some end;
  targets = labelled ∷ [];
  duration = two_minutes;
  blast_radius_tier = "";
  probes = [];
  rationale = "";
  plan_id = "";
  annotations = [];
}

abbrev answers : List DraftError → Option Reply
answers errors = some (record { structured = "draft"; free_text = "" })

translated :
    translate (λ s. none) (λ raw. some draft) (pos 0) answers "kill a pod" 1 (pos 1) ≡ ok handed_on
unfolding translate translate_attempts parse_manifest raw_of
translated = refl

translate-IsSubmittable_example : IsSubmittable handed_on
translate-IsSubmittable_example =
    translate-IsSubmittable (λ s. none) (λ raw. some draft) (pos 0) answers "kill a pod" 1 (pos 1)
      translated
