-- ===== src/Planner/Generate/Retries.antt =====
-- The plans that Generate of pkg/planner/generate.go ends with, and the errors that it ends with.
use simian_agent.Planner.Generate.{call_failed}
use simian_agent.Prelude.{
  subst, length, All, length-append, ℤ, pos_part, ℕ, zero, suc, String, refl, inl, inr, Bool, true,
  false, Option, none, some, List, map, arith, Bool-cases, Option-cases, [], ◌+◌, ◌≤◌, ◌≡◌, ◌≢◌,
  ◌∷◌, ◌++◌, ◌==◌, if◌then◌else◌, nat_Eq, string_Eq,
}
use text.Mathlib.TextEquality.{eq_iff}
use simian_agent.Planner.Dag.Validity.{IsDag, validate_step_dag_exact}
use simian_agent.Planner.Dag.{validate_step_dag, DagError}
use simian_agent.Planner.Replies.{raw_of, Reply}
use simian_agent.Simian.Types.{PlanStep, AttackPlan}
use simian_agent.Planner.Generate.Sound.{parse_steps-All}
use simian_agent.Planner.Generate.Plans.{IsDag-with_plan_id, IsSoundStep, IsSoundPlan, not_blank}
use simian_agent.Planner.Generate.{
  no_valid_plan, generate, GenerateError, attempts, with_plan_id, attempt, parse_steps, PlanError,
  parse_attack_plan, stamp, after_dag, after_steps, after_decode, GenerateInput,
}
use simian_agent.Prelude.Results.{ok, err, Result}
use simian_agent.Simian.Text.{append_text}
use simian_agent.Audit.Records.{Reading}

pub past :
    {E A : Type 0} (b : Bool) (e : E) (r : Result E A) {a : A}
    → (if b then err e else r) ≡ ok a
    → (b ≡ false) × (r ≡ ok a)
past true e r h = absurd (cc)
past false e r h = (refl, h)

stamped_named : (id minted : String) → (if id == "" then append_text "plan-" minted else id) ≢ ""
unfolding append_text
stamped_named id minted e = elim (Bool-cases (id == "")) [
  | inl t ↦ absurd (cc (rw t at e))
  | inr f ↦ not_blank id f (rw f at e)
]

module _ (rd : Reading) (input : GenerateInput) where
  stamp-IsSoundPlan :
      (minted : String) (plan : AttackPlan) (steps : List PlanStep)
      → plan.hypothesis ≢ ""
      → ((id : String) → All (IsSoundStep rd input id) (map (with_plan_id id) steps))
      → IsDag steps
      → IsSoundPlan rd input (stamp minted plan steps)
  unfolding stamp append_text
  stamp-IsSoundPlan minted plan steps h all d = record {
    named = stamped_named plan.plan_id minted;
    hypothesis = h;
    dag = IsDag-with_plan_id _ steps d;
    steps = all _;
  }

  after_dag-IsSoundPlan :
      (minted : String) (plan : AttackPlan) (steps : List PlanStep) (o : Option DagError)
      → validate_step_dag steps ≡ o
      → plan.hypothesis ≢ ""
      → ((id : String) → All (IsSoundStep rd input id) (map (with_plan_id id) steps))
      → {result : AttackPlan} → after_dag minted plan steps o ≡ ok result
      → IsSoundPlan rd input result
  unfolding after_dag
  after_dag-IsSoundPlan minted plan steps none v h all {result} q =
      let e : stamp minted plan steps ≡ result = cc in
      subst (IsSoundPlan rd input) e
        (stamp-IsSoundPlan minted plan steps h all ((validate_step_dag_exact steps).0 v))
  after_dag-IsSoundPlan minted plan steps (some e) v h all q = absurd (cc)

  after_steps-IsSoundPlan :
      (minted : String) (plan : AttackPlan) (r : Result PlanError (List PlanStep))
      → plan.hypothesis ≢ ""
      → ((id : String) (steps : List PlanStep)
          → r ≡ ok steps
          → All (IsSoundStep rd input id) (map (with_plan_id id) steps))
      → {result : AttackPlan} → after_steps minted plan r ≡ ok result
      → IsSoundPlan rd input result
  unfolding after_steps
  after_steps-IsSoundPlan minted plan (err e) h all q = absurd (cc)
  after_steps-IsSoundPlan minted plan (ok steps) h all q =
      after_dag-IsSoundPlan minted plan steps (validate_step_dag steps) refl h
        (λ id. all id steps refl) q

  after_decode-IsSoundPlan :
      (minted : String) (o : Option AttackPlan) {result : AttackPlan}
      → after_decode rd input minted o ≡ ok result
      → IsSoundPlan rd input result
  unfolding after_decode
  after_decode-IsSoundPlan minted none q = absurd (cc)
  after_decode-IsSoundPlan minted (some plan) q =
      let (some_steps, q1) = past (length plan.steps == 0) _ _ q in
      let (some_words, q2) = past (plan.hypothesis == "") _ _ q1 in
      after_steps-IsSoundPlan minted plan (parse_steps rd input 0 plan.steps)
        (not_blank plan.hypothesis some_words)
        (λ id steps e. parse_steps-All rd input id 0 plan.steps steps e) q2

  module _ (decode : String → Option AttackPlan) where
    parse_attack_plan-IsSoundPlan :
        (minted raw : String) {result : AttackPlan}
        → parse_attack_plan rd decode input minted raw ≡ ok result
        → IsSoundPlan rd input result
    unfolding parse_attack_plan
    parse_attack_plan-IsSoundPlan minted raw q =
        after_decode-IsSoundPlan minted (decode raw) (past (raw == "") _ _ q).1

    module _ (complete : List PlanError → Option Reply) (mint : ℕ → String) where
      -- The answer of one attempt, as a plan or as the error to go on with.
      abbrev pub answer : List PlanError → Option (Result PlanError AttackPlan)
      answer errors = attempt rd decode complete mint input errors

      attempt-IsSoundPlan :
          (errors : List PlanError) (plan : AttackPlan)
          → answer errors ≡ some (ok plan)
          → IsSoundPlan rd input plan
      unfolding attempt
      attempt-IsSoundPlan errors plan q = elim (Option-cases (complete errors)) [
        | inl down ↦ absurd (cc (q, attempt_down errors down))
        | inr (reply, up) ↦
            parse_attack_plan-IsSoundPlan (mint (length errors)) (raw_of reply)
              (cc (q, attempt_up errors reply up))
      ]
        where
          attempt_down : (errors : List PlanError) → complete errors ≡ none → answer errors ≡ none
          attempt_down errors e = rw (e, attempt) refl

          attempt_up :
              (errors : List PlanError) (reply : Reply)
              → complete errors ≡ some reply
              → answer errors
                ≡ some (parse_attack_plan rd decode input (mint (length errors)) (raw_of reply))
          attempt_up errors reply e = rw (e, attempt) refl

      -- The attempts that failed before, each with the error that the next is told.
      pub data Failed : List PlanError → Type 0 where
        first : Failed []
        again :
            {errors : List PlanError} (e : PlanError)
            → Failed errors
            → answer errors ≡ some (err e)
            → Failed (errors ++ e ∷ [])

      -- How Generate's attempts end, after as many failed ones as the errors: with what an attempt
      -- made, with a call that failed, or with the error of the last attempt.
      abbrev pub Ends : ℕ → Result GenerateError AttackPlan → List PlanError → Type 0
      Ends most (ok plan) errors =
          IsSoundPlan rd input plan
          × Failed errors
          × (answer errors ≡ some (ok plan))
          × (length errors ≤ most)
      Ends most (err (no_valid_plan e)) errors =
          Failed errors × (answer errors ≡ some (err e)) × (length errors ≡ most)
      Ends most (err call_failed) errors =
          Failed errors × (answer errors ≡ none) × (length errors ≤ most)
      Ends most (err _) errors = ⊥

      -- Another round, if there is one, and its end.
      abbrev Rounds : ℕ → ℕ → List PlanError → Type 0
      Rounds left most errors =
          (told : List PlanError) × Ends most (attempts rd decode complete mint input left errors)
            told

      last_attempt :
          (most : ℕ) (errors : List PlanError)
          → length errors ≡ most
          → Failed errors
          → (r : Option (Result PlanError AttackPlan)) → answer errors ≡ r
          → Rounds zero most errors
      unfolding attempts
      last_attempt most errors e f none q = (errors, rw (q, attempts) (f, q, omega arith))
      last_attempt most errors e f (some (ok plan)) q =
          (errors, rw (q, attempts) (attempt-IsSoundPlan errors plan q, f, q, omega arith))
      last_attempt most errors e f (some (err why)) q = (errors, rw (q, attempts) (f, q, e))

      next_attempt :
          (left most : ℕ) (errors : List PlanError)
          → length errors + suc left ≡ most
          → Failed errors
          → ((why : PlanError)
              → answer errors ≡ some (err why)
              → Rounds left most (errors ++ why ∷ []))
          → (r : Option (Result PlanError AttackPlan)) → answer errors ≡ r
          → Rounds (suc left) most errors
      unfolding attempts
      next_attempt left most errors e f more none q = (errors, rw (q, attempts) (f, q, omega arith))
      next_attempt left most errors e f more (some (ok plan)) q =
          (errors, rw (q, attempts) (attempt-IsSoundPlan errors plan q, f, q, omega arith))
      next_attempt left most errors e f more (some (err why)) q = rw (q, attempts) (more why q)

      attempts-Ends :
          (left most : ℕ) (errors : List PlanError)
          → length errors + left ≡ most
          → Failed errors
          → Rounds left most errors
      attempts-Ends zero most errors e f =
          last_attempt most errors (omega arith) f (answer errors) refl
      attempts-Ends (suc left) most errors e f =
          next_attempt left most errors e f
            (λ why q.
              attempts-Ends left most (errors ++ why ∷ [])
                (omega (arith, length-append {0} errors (why ∷ []))) (again why f q))
            (answer errors) refl

      -- With a namespace and a catalog, Generate ends, after as many failed attempts as it tells the
      -- model of, in one of three ways: with a sound plan, which the next attempt made and which is
      -- within the retries; with the error of an attempt that was its last; or, within the retries,
      -- with a call that failed.
      pub generate-Ends :
          (max_retries : ℤ)
          → input.ns ≢ ""
          → input.entries ≢ 0
          → (told : List PlanError) × Ends
              (pos_part max_retries)
              (generate rd decode complete mint input max_retries)
              told
      unfolding generate
      generate-Ends max_retries named stocked =
          let unblank : (input.ns == "") ≡ false = blank named in
          let some_entry : (input.entries == 0) ≡ false = ground (arith, stocked) in
          rw (unblank, some_entry)
            (attempts-Ends (pos_part max_retries) (pos_part max_retries) [] (omega arith) first)
        where
          blank : input.ns ≢ "" → (input.ns == "") ≡ false
          blank n = ground (arith, n, eq_iff input.ns "")
