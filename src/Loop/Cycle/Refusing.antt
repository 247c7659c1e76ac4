-- ===== src/Loop/Cycle/Refusing.antt =====
-- The steps that the executor keeps refusing: recentRefusals and one goroutine of executePlan in
-- pkg/loop/loop.go.
use simian_agent.Loop.Cycle.Capping.{after_apply-world}
use simian_agent.Prelude.{
  length, keep, All, ℕ, String, refl, sym, ap, inl, inr, true, false, List, arith, ltb, leb,
  string_Eq, Bool-cases, [], ◌-◌, ◌≤◌, ◌<◌, ◌≡◌, ◌≢◌, ◌∷◌, ◌==◌, nat_Eq,
}
use simian_agent.Loop.Cycle.Capping.{after_apply-world}
use simian_agent.Loop.Cycle.{
  submitted, times_of, repeated_refusal_window, run_step, recent_refusals, PlanStep, Run,
  AttackPlan, FaultManifest, drop_before, Executing,
}

-- Refusals are appended as they come, so their times ascend.
abbrev pub Ascending : List ℕ → Type 0
Ascending [] = Unit
Ascending (t ∷ ts) = All (λ u. t ≤ u) ts × Ascending ts

abbrev pub inside : ℕ → List ℕ → List ℕ
inside cutoff ts = keep (λ t. leb cutoff t) ts

All-inside : (cutoff : ℕ) (ts : List ℕ) → All (λ u. cutoff ≤ u) ts → inside cutoff ts ≡ ts
All-inside cutoff [] a = refl
All-inside cutoff (t ∷ ts) a =
    let here : leb cutoff t ≡ true = ground (arith, a.0) in
    rw here (ap (λ l. t ∷ l) (All-inside cutoff ts a.1))

raise-All : (c t : ℕ) (ts : List ℕ) → c ≤ t → All (λ u. t ≤ u) ts → All (λ u. c ≤ u) ts
raise-All c t [] le a = tt
raise-All c t (u ∷ ts) le a = (omega (arith, a.0), raise-All c t ts le a.1)

-- Cutting the old refusals off the front leaves those inside the window.
pub drop_before-inside :
    (cutoff : ℕ) (ts : List ℕ) → Ascending ts → drop_before cutoff ts ≡ inside cutoff ts
unfolding drop_before
drop_before-inside cutoff [] a = refl
drop_before-inside cutoff (t ∷ ts) a = elim (Bool-cases (ltb t cutoff)) [
  | inl old ↦
      let out : leb cutoff t ≡ false = ground arith in
      rw (old, out) (drop_before-inside cutoff ts a.1)
  | inr new ↦
      let there : leb cutoff t ≡ true = ground arith in
      rw (new, there)
        (ap (λ l. t ∷ l) (sym (All-inside cutoff ts (raise-All cutoff t ts (ground arith) a.0))))
]

module _ {W : Type 0} (ex : Executing W) (step_key : FaultManifest → String) (plan : AttackPlan)
    (r : Run W) (s : PlanStep) where
  -- The step's refusals inside the window.
  pub counted : ℕ
  counted = length (
      inside (ex.clock r.world - repeated_refusal_window)
        (times_of r.refusals (step_key (submitted plan s))))

  count-recent_refusals :
      step_key (submitted plan s) ≢ ""
      → Ascending (times_of r.refusals (step_key (submitted plan s)))
      → (recent_refusals r.refusals (ex.clock r.world) (step_key (submitted plan s))).0 ≡ counted
  unfolding recent_refusals counted
  count-recent_refusals named a = elim (Bool-cases (step_key (submitted plan s) == "")) [
    | inl blank ↦ absurd (named ((string_Eq.beq_iff (step_key (submitted plan s)) "").0 blank))
    | inr key ↦
        rw (key, drop_before-inside (ex.clock r.world - repeated_refusal_window) _ a) (ground arith)
  ]

  -- A step with a key whose refusals stand in the order of their times is held back, and the
  -- executor not asked, exactly when three of them are inside the window; otherwise Apply is called
  -- on the step's manifest with the plan's id and source.
  pub run_step_exact :
      step_key (submitted plan s) ≢ ""
      → Ascending (times_of r.refusals (step_key (submitted plan s)))
      → (3 ≤ counted
          → ((run_step ex step_key plan r s).world ≡ r.world)
            × ((run_step ex step_key plan r s).applied ≡ r.applied))
        × (counted < 3
            → (run_step ex step_key plan r s).world ≡ (ex.apply r.world (submitted plan s)).0)
  unfolding run_step
  run_step_exact named a =
      let e = count-recent_refusals named a in
      (
        λ le. let held : leb 3 counted ≡ true = ground arith in rw (e, held) (refl, refl),
        λ lt.
            let goes : leb 3 counted ≡ false = ground arith in
            rw (e, goes)
              (after_apply-world ex step_key plan
                (record r {
                  refusals =
                      (recent_refusals r.refusals (ex.clock r.world)
                        (step_key (submitted plan s))).1;
                })
                (step_key (submitted plan s)) (ex.apply r.world (submitted plan s))),
      )
