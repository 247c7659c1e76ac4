-- ===== src/Planner/Generate/Sound.antt =====
-- The plans that pkg/planner/generate.go lets through.
use simian_agent.Prelude.{
  subst, length, In, All, In-map_inv, ℤ, leb_ℤ, ℕ, String, refl, sym, inl, inr, true, false, not,
  none, some, List, map, arith, Option-cases, [], ◌+◌, ◌≡◌, ◌∙◌, ◌≢◌, ◌∷◌, ◌==◌, nat_Eq, string_Eq,
}
use simian_agent.Planner.Generate.Plans.{
  passed, is_true, has_spec_fields, some_target, not_blank, IsSoundStep,
}
use simian_agent.Simian.Targets.{target_namespaces}
use simian_agent.Prelude.Results.{Result, err, ok}
use simian_agent.Simian.Text.{trim_space}
use simian_agent.Catalog.Outage.{check_outage_manifest}
use simian_agent.Planner.Topology.{check_step_compat}
use simian_agent.Audit.Records.{Reading}
use text.Mathlib.TextEquality.{eq_iff}
use simian_agent.Simian.Types.{FaultManifest, PlanStep, TargetRef}
use simian_agent.Planner.Generate.{
  step_error, PlanError, StepError, and_rest, in_namespace, normalize, check_step, default_duration,
  parse_steps, is_over, is_positive, GenerateInput, has_fields, with_plan_id,
}

module _ (rd : Reading) (input : GenerateInput) where
  check_step-fields :
      (s : PlanStep)
      → check_step rd input s ≡ none
      → (is_over input.ceiling s.manifest.duration ≡ false)
        × (s.manifest.engine ≢ "")
        × (s.manifest.resource_kind ≢ "")
        × (s.manifest.api_version ≢ "")
        × (s.manifest.targets ≢ [])
        × (s.manifest.spec ≢ none)
        × (trim_space s.duration_rationale ≢ "")
        × (check_step_compat rd s.manifest input.topology ≡ true)
  unfolding check_step
  check_step-fields s h =
      let m = s.manifest in
      let (over, h1) = passed (is_over input.ceiling m.duration) _ _ h in
      let (engine, h2) = passed (m.engine == "") _ _ h1 in
      let (kind, h3) = passed (m.resource_kind == "") _ _ h2 in
      let (api, h4) = passed (m.api_version == "") _ _ h3 in
      let (targets, h5) = passed (length m.targets == 0) _ _ h4 in
      let (spec, h6) = passed (not (has_fields m.spec)) _ _ h5 in
      let (why, h7) = passed (trim_space s.duration_rationale == "") _ _ h6 in
      let (fits, h8) = passed (not (check_step_compat rd m input.topology)) _ _ h7 in
      (
        over,
        not_blank m.engine engine,
        not_blank m.resource_kind kind,
        not_blank m.api_version api,
        some_target m.targets targets,
        has_spec_fields m.spec spec,
        not_blank (trim_space s.duration_rationale) why,
        is_true (check_step_compat rd m input.topology) fits,
      )

  default_duration_positive : is_positive (default_duration input.ceiling) ≡ true
  unfolding default_duration is_over
  default_duration_positive = ground arith

  normalize-fields :
      (i : ℕ) (s : PlanStep)
      → let n = normalize input i s in
        (n.order ≢ 0)
        × (n.manifest.source ≡ "autonomous")
        × (is_positive n.manifest.duration ≡ true)
        × (input.ns ≢ "" → (t : TargetRef) → In t n.manifest.targets → t.ns ≢ "")
  unfolding normalize
  normalize-fields i s =
      (ground arith, refl, ground (arith, default_duration_positive), λ named t i. placed named t i)
    where
      kept : input.ns ≢ "" → (u : TargetRef) → (in_namespace input.ns u).ns ≢ ""
      kept named u = unfold in_namespace in ground (arith, named, eq_iff u.ns "")

      placed :
          input.ns ≢ ""
          → (t : TargetRef) → In t (map (in_namespace input.ns) s.manifest.targets)
          → t.ns ≢ ""
      placed named t j =
          let (u, k, e) = In-map_inv (in_namespace input.ns) t s.manifest.targets j in
          rw e (kept named u)

  -- The identifier of the plan plays no part in the check.
  compat-with_plan_id :
      (id : String) (m : FaultManifest)
      → check_step_compat rd (record m { plan_id = id }) input.topology
        ≡ check_step_compat rd m input.topology
  unfolding check_step_compat check_outage_manifest target_namespaces
  compat-with_plan_id id m = refl

  within_ceiling :
      (d : ℤ)
      → is_over input.ceiling d ≡ false
      → is_positive input.ceiling ≡ true
      → leb_ℤ d input.ceiling ≡ true
  unfolding is_over
  within_ceiling d f p = ground (arith, f, p)

  checked-IsSoundStep :
      (id : String) (i : ℕ) (s : PlanStep)
      → check_step rd input (normalize input i s) ≡ none
      → IsSoundStep rd input id (with_plan_id id (normalize input i s))
  unfolding with_plan_id
  checked-IsSoundStep id i s h =
      let (ordered, source, lasts, placed) = normalize-fields i s in
      let (over, engine, kind, api, targets, spec, why, fits) =
        check_step-fields (normalize input i s) h in
      record {
        ordered = ordered;
        autonomous = source;
        of_plan = refl;
        lasts = lasts;
        within = within_ceiling (normalize input i s).manifest.duration over;
        engine = engine;
        kind = kind;
        api_version = api;
        has_target = targets;
        placed = placed;
        spec = spec;
        explained = why;
        compatible = compat-with_plan_id id (normalize input i s).manifest ∙ fits;
      }

  parse_steps_fine :
      (i : ℕ) (s : PlanStep) (ss : List PlanStep)
      → check_step rd input (normalize input i s) ≡ none
      → parse_steps rd input i (s ∷ ss)
        ≡ and_rest (normalize input i s) (parse_steps rd input (i + 1) ss)
  unfolding parse_steps
  parse_steps_fine i s ss e = rw (e, parse_steps) refl

  parse_steps_bad :
      (i : ℕ) (s : PlanStep) (ss : List PlanStep) (e : StepError)
      → check_step rd input (normalize input i s) ≡ some e
      → parse_steps rd input i (s ∷ ss) ≡ err (step_error (normalize input i s).order e)
  unfolding parse_steps
  parse_steps_bad i s ss e bad = rw (bad, parse_steps) refl

  pub parse_steps-All :
      (id : String) (i : ℕ) (ss steps : List PlanStep)
      → parse_steps rd input i ss ≡ ok steps
      → All (IsSoundStep rd input id) (map (with_plan_id id) steps)
  parse_steps-All id i [] steps h =
      unfold parse_steps in
      let e : [] ≡ steps = cc in
      subst (λ x. All (IsSoundStep rd input id) (map (with_plan_id id) x)) e tt
  parse_steps-All id i (s ∷ ss) steps h =
      elim (Option-cases (check_step rd input (normalize input i s))) [
        | inl fine ↦
            rest (parse_steps rd input (i + 1) ss) (parse_steps-All id (i + 1) ss)
              (sym (parse_steps_fine i s ss fine) ∙ h) fine
        | inr (e, bad) ↦ absurd (cc (parse_steps_bad i s ss e bad, h))
      ]
    where
      rest :
          (r : Result PlanError (List PlanStep))
          → ((steps : List PlanStep)
              → r ≡ ok steps
              → All (IsSoundStep rd input id) (map (with_plan_id id) steps))
          → and_rest (normalize input i s) r ≡ ok steps
          → check_step rd input (normalize input i s) ≡ none
          → All (IsSoundStep rd input id) (map (with_plan_id id) steps)
      rest (err e) ih q fine = absurd (cc)
      rest (ok more) ih q fine =
          let e : normalize input i s ∷ more ≡ steps = cc in
          subst (λ x. All (IsSoundStep rd input id) (map (with_plan_id id) x)) e
            (checked-IsSoundStep id i s fine, ih more refl)
