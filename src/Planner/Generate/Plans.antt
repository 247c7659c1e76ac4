-- ===== src/Planner/Generate/Plans.antt =====
-- What a plan that pkg/planner/generate.go accepts is like.
use simian_agent.Prelude.{
  length, In, All, In-map_inv, leb_ℤ, String, refl, ap, Bool, true, false, not, Option, none, some,
  List, map, [], ◌≡◌, ◌≢◌, ◌∷◌, ◌==◌, if◌then◌else◌, nat_Eq, string_Eq,
}
use simian_agent.Simian.Text.{trim_space}
use simian_agent.Planner.Topology.{check_step_compat}
use simian_agent.Planner.Dag.{orders_of}
use simian_agent.Planner.Dag.Validity.{IsDag}
use simian_agent.Audit.Records.{Reading}
use text.Mathlib.TextEquality.{eq_iff}
use simian_agent.Simian.Types.{AttackPlan, PlanStep, Fields, TargetRef}
use simian_agent.Planner.Generate.{is_positive, GenerateInput, has_fields, with_plan_id}

-- A step that can be submitted.
pub record IsSoundStep (rd : Reading) (input : GenerateInput) (id : String) (s : PlanStep)
    : Type 0 where
  pub ordered : s.order ≢ 0
  pub autonomous : s.manifest.source ≡ "autonomous"
  pub of_plan : s.manifest.plan_id ≡ id
  pub lasts : is_positive s.manifest.duration ≡ true
  pub within : is_positive input.ceiling ≡ true → leb_ℤ s.manifest.duration input.ceiling ≡ true
  pub engine : s.manifest.engine ≢ ""
  pub kind : s.manifest.resource_kind ≢ ""
  pub api_version : s.manifest.api_version ≢ ""
  pub has_target : s.manifest.targets ≢ []
  pub placed : input.ns ≢ "" → (t : TargetRef) → In t s.manifest.targets → t.ns ≢ ""
  pub spec : s.manifest.spec ≢ none
  pub explained : trim_space s.duration_rationale ≢ ""
  pub compatible : check_step_compat rd s.manifest input.topology ≡ true

pub record IsSoundPlan (rd : Reading) (input : GenerateInput) (plan : AttackPlan) : Type 0 where
  pub named : plan.plan_id ≢ ""
  pub hypothesis : plan.hypothesis ≢ ""
  pub dag : IsDag plan.steps
  pub steps : All (IsSoundStep rd input plan.plan_id) plan.steps

pub orders_of-with_plan_id :
    (id : String) (ss : List PlanStep) → orders_of (map (with_plan_id id) ss) ≡ orders_of ss
unfolding with_plan_id
orders_of-with_plan_id id [] = refl
orders_of-with_plan_id id (s ∷ ss) = ap (◌∷◌ s.order) (orders_of-with_plan_id id ss)

pub IsDag-with_plan_id :
    (id : String) (ss : List PlanStep) → IsDag ss → IsDag (map (with_plan_id id) ss)
unfolding with_plan_id
IsDag-with_plan_id id ss d = record {
  nonempty = λ e. d.nonempty (map_nil ss e);
  distinct = rw (orders_of-with_plan_id id ss) d.distinct;
  known = λ s n i c.
      let (u, j, e) = In-map_inv (with_plan_id id) s ss i in
      rw (orders_of-with_plan_id id ss) (d.known u n j (rw e at c));
  rank = d.rank;
  falls = λ s n i c.
      let (u, j, e) = In-map_inv (with_plan_id id) s ss i in rw e (d.falls u n j (rw e at c));
}
  where
    map_nil : (ss : List PlanStep) → map (with_plan_id id) ss ≡ [] → ss ≡ []
    map_nil [] e = refl
    map_nil (s ∷ ss) e = cc

pub passed :
    {A : Type 0} (b : Bool) (e : A) (rest : Option A)
    → (if b then some e else rest) ≡ none
    → (b ≡ false) × (rest ≡ none)
passed true e rest h = absurd (cc)
passed false e rest h = (refl, h)

pub not_blank : (s : String) → (s == "") ≡ false → s ≢ ""
not_blank s f e = let t = (eq_iff s "").1 e in absurd (cc)

pub is_true : (b : Bool) → not b ≡ false → b ≡ true
is_true true h = refl
is_true false h = absurd (cc)

pub some_target : (ts : List TargetRef) → (length ts == 0) ≡ false → ts ≢ []
some_target [] f e = cc
some_target (t ∷ ts) f e = cc

pub has_spec_fields : (o : Option Fields) → not (has_fields o) ≡ false → o ≢ none
unfolding has_fields
has_spec_fields none f e = cc
has_spec_fields (some fs) f e = cc
