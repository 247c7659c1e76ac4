-- ===== src/Loop/Turn/Gating.antt =====
-- The gates of a turn of pkg/loop/loop.go, and its use of the executor.
use simian_agent.Loop.Cycle.{Budget, Run, Executing, execute_plan}
use simian_agent.Loop.Turn.{
  cycle_event, HealthError, Generated, emits, after_plan, AttackPlan, skips, run_once,
  after_generate, after_health, TurnAnswers, Turned, PlanStep, FaultManifest, plan_made,
  no_valid_plan, shut_down, llm_failed,
}
use simian_agent.Prelude.{
  subst, String, refl, sym, inl, inr, true, Option, none, some, List, Bool-cases, [], ◌≡◌, ◌⊎◌, ◌∷◌,
}

module _ {W : Type 0} (ex : Executing W) (step_key : FaultManifest → String)
    (pick : List PlanStep → List PlanStep) (b : Budget) where
  -- Nothing was submitted, and no plan is returned.
  abbrev pub Idle : W → Turned W → Type 0
  Idle w t = (t.run.world ≡ w) × (t.run.applied ≡ []) × (t.plan ≡ none)

  -- The plan was made behind every gate, and what it did to the executor is executePlan's.
  pub record Ran (r : Run W) (a : TurnAnswers) (t : Turned W) : Type 0 where
    pub slot : a.has_slot ≡ true
    pub healthy : a.health ≡ none
    pub catalog : a.has_catalog ≡ true
    pub made : AttackPlan
    pub generated : a.generated ≡ plan_made made
    pub start : Run W
    pub same_world : start.world ≡ r.world
    pub fresh : start.applied ≡ []
    pub world : t.run.world ≡ (execute_plan ex step_key pick made b start).world
    pub applied : t.run.applied ≡ (execute_plan ex step_key pick made b start).applied

  generate_cases :
      (r : Run W) (a : TurnAnswers) (s : Run W) (g : Generated)
      → a.has_slot ≡ true
      → a.health ≡ none
      → a.has_catalog ≡ true
      → a.generated ≡ g
      → s.world ≡ r.world
      → s.applied ≡ []
      → Idle r.world (after_generate ex step_key pick b s g)
        ⊎ Ran r a (after_generate ex step_key pick b s g)
  unfolding after_generate after_plan skips emits
  generate_cases r a s (plan_made plan) x y z e w f = inr (record {
    slot = x;
    healthy = y;
    catalog = z;
    made = plan;
    generated = e;
    start = emits s (cycle_event "plan.generated" plan.plan_id "" ∷ []);
    same_world = w;
    fresh = f;
    world = refl;
    applied = refl;
  })
  generate_cases r a s no_valid_plan x y z e w f = inl (w, f, refl)
  generate_cases r a s shut_down x y z e w f = inl (w, f, refl)
  generate_cases r a s llm_failed x y z e w f = inl (w, f, refl)

  health_cases :
      (r : Run W) (a : TurnAnswers) (s : Run W) (h : Option HealthError)
      → a.has_slot ≡ true
      → a.health ≡ h
      → s.world ≡ r.world
      → s.applied ≡ []
      → Idle r.world (after_health ex step_key pick b s a h)
        ⊎ Ran r a (after_health ex step_key pick b s a h)
  unfolding after_health skips emits
  health_cases r a s (some e) x y w f = inl (w, f, refl)
  health_cases r a s none x y w f = elim (Bool-cases a.has_catalog) [
    | inl there ↦
        let same : after_health ex step_key pick b s a none
            ≡ after_generate ex step_key pick b s a.generated =
          rw there refl in
        subst (λ t. Idle r.world t ⊎ Ran r a t) (sym same)
          (generate_cases r a s a.generated x y there refl w f)
    | inr missing ↦ inl (rw missing (w, f, refl))
  ]

  -- A turn either submits nothing and returns no plan, or a slot was free, the health gate passed,
  -- the catalog was read and the generator made a plan, and the turn did to the executor what
  -- executePlan does with that plan.
  pub run_once_gated :
      (r : Run W) (a : TurnAnswers)
      → Idle r.world (run_once ex step_key pick b r a) ⊎ Ran r a (run_once ex step_key pick b r a)
  unfolding run_once skips emits
  run_once_gated r a = elim (Bool-cases a.has_slot) [
    | inl free ↦
        let started = emits (record r { applied = [] }) (cycle_event "cycle.started" "" "" ∷ []) in
        let same : run_once ex step_key pick b r a
            ≡ after_health ex step_key pick b started a a.health =
          rw free refl in
        subst (λ t. Idle r.world t ⊎ Ran r a t) (sym same)
          (health_cases r a started a.health free refl refl refl)
    | inr full ↦ inl (rw full (refl, refl, refl))
  ]
