-- ===== src/Loop/Cycle/Capping.antt =====
-- The number and the severity of the faults that executePlan of pkg/loop/loop.go submits.
use simian_agent.Planner.Dag.{layers, cycle, out_of_fuel}
use simian_agent.Loop.Cycle.{plan_layers, applied_as, rejected}
use simian_agent.Prelude.{
  subst, length, In, ℕ, suc, String, refl, sym, ap, inl, inr, List, arith, leb, Bool-cases, [], ◌+◌,
  ◌≤◌, ◌≡◌, ◌⊎◌, ◌∷◌, ◌++◌,
}
use simian_agent.Loop.Cycle.Walking.{start-Walked, Within, walk_layer-Walked}
use simian_agent.Simian.Types.{AttackPlan}
use simian_agent.Loop.Cycle.{
  Layering, max_cycle_of, recent_refusals, run_layering, run_layer, repeated_refusal_limit, Applied,
  run_layers, Run, submitted, execute_plan, run_steps, after_apply, run_step, PlanStep, walk_layer,
  FaultManifest, Budget, Executing,
}

module _ {W : Type 0} (ex : Executing W) (step_key : FaultManifest → String)
    (plan : AttackPlan) where
  pub after_apply-world :
      (r : Run W) (key : String) (a : W × Applied)
      → (after_apply ex step_key plan r key a).world ≡ a.0
  unfolding after_apply
  after_apply-world r key (w, applied_as uid) = refl
  after_apply-world r key (w, rejected e) = refl

  -- One goroutine leaves the executor alone or calls Apply once, on its own manifest.
  pub run_step-world :
      (r : Run W) (s : PlanStep)
      → ((run_step ex step_key plan r s).world ≡ r.world)
        ⊎ ((run_step ex step_key plan r s).world ≡ (ex.apply r.world (submitted plan s)).0)
  unfolding run_step
  run_step-world r s =
      elim (Bool-cases (
        leb repeated_refusal_limit
          (recent_refusals r.refusals (ex.clock r.world) (step_key (submitted plan s))).0)) [
            | inl held ↦ inl (rw held refl)
            | inr goes ↦ inr (
                rw goes (
                  after_apply-world
                    (record r {
                      refusals =
                          (recent_refusals r.refusals (ex.clock r.world)
                            (step_key (submitted plan s))).1;
                    })
                    (step_key (submitted plan s)) (ex.apply r.world (submitted plan s))))
          ]

module _ {W : Type 0} (ex : Executing W) (step_key : FaultManifest → String) (plan : AttackPlan)
    (b : Budget) where
  -- A property of the executor's state that Apply keeps, on what the plan may submit.
  unfoldable pub Kept : (W → Type 0) → Type 0
  Kept P =
      (w : W) (m : FaultManifest)
      → Within b m
      → m.plan_id ≡ plan.plan_id
      → m.source ≡ "autonomous"
      → P w
      → P (ex.apply w m).0

  run_steps-Kept :
      (P : W → Type 0) (r : Run W) (ss : List PlanStep)
      → Kept P
      → ((s : PlanStep) → In s ss → Within b s.manifest)
      → P r.world
      → P (run_steps ex step_key plan r ss).world
  unfolding run_steps Kept submitted Within
  run_steps-Kept P r [] kept all p = p
  run_steps-Kept P r (s ∷ ss) kept all p =
      let next : P (run_step ex step_key plan r s).world =
        elim (run_step-world ex step_key plan r s) [
          | inl same ↦ subst P (sym same) p
          | inr called ↦
              subst P (sym called) (kept r.world (submitted plan s) (all s (inl refl)) refl refl p)
        ] in
      run_steps-Kept P (run_step ex step_key plan r s) ss kept (λ x i. all x (inr i)) next

  run_steps-calls :
      (calls : W → ℕ) (r : Run W) (ss : List PlanStep)
      → ((w : W) (m : FaultManifest) → calls (ex.apply w m).0 ≤ suc (calls w))
      → calls (run_steps ex step_key plan r ss).world ≤ calls r.world + length ss
  unfolding run_steps
  run_steps-calls calls r [] up = omega arith
  run_steps-calls calls r (s ∷ ss) up =
      let next : calls (run_step ex step_key plan r s).world ≤ suc (calls r.world) =
        elim (run_step-world ex step_key plan r s) [
          | inl same ↦ omega (arith, ap calls same)
          | inr called ↦ omega (arith, ap calls called, up r.world (submitted plan s))
        ] in
      omega (arith, next, run_steps-calls calls (run_step ex step_key plan r s) ss up)

  module _ (pick : List PlanStep → List PlanStep) where
    run_layers-Kept :
        (P : W → Type 0) (max_cycle scheduled : ℕ) (r : Run W) (ls : List (List ℕ))
        → Kept P
        → ((l : List PlanStep) (s : PlanStep) → In s (pick l) → In s l)
        → P r.world
        → P (run_layers ex step_key pick plan b max_cycle scheduled r ls).world
    unfolding run_layers run_layer
    run_layers-Kept P max_cycle scheduled r [] kept sub p = p
    run_layers-Kept P max_cycle scheduled r (l ∷ ls) kept sub p =
        elim (Bool-cases (leb max_cycle scheduled)) [
          | inl full ↦ rw full p
          | inr room ↦
              let w =
                walk_layer plan b max_cycle
                  (record { scheduled = scheduled; launched = []; events = [] }) l in
              let h =
                walk_layer-Walked plan b max_cycle scheduled _ l
                  (start-Walked plan b max_cycle scheduled (ground arith)) in
              rw room (
                run_layers-Kept P max_cycle w.scheduled _ ls kept sub (
                  run_steps-Kept P _ (pick w.launched) kept (λ s i. h.within s (sub w.launched s i))
                    p))
        ]

    run_layers-calls :
        (calls : W → ℕ) (max_cycle scheduled : ℕ) (r : Run W) (ls : List (List ℕ))
        → ((w : W) (m : FaultManifest) → calls (ex.apply w m).0 ≤ suc (calls w))
        → ((l : List PlanStep) → length (pick l) ≤ length l)
        → scheduled ≤ max_cycle
        → calls (run_layers ex step_key pick plan b max_cycle scheduled r ls).world + scheduled
          ≤ calls r.world + max_cycle
    unfolding run_layers run_layer
    run_layers-calls calls max_cycle scheduled r [] up short le = omega arith
    run_layers-calls calls max_cycle scheduled r (l ∷ ls) up short le =
        elim (Bool-cases (leb max_cycle scheduled)) [
          | inl full ↦ rw full (omega arith)
          | inr room ↦
              let w =
                walk_layer plan b max_cycle
                  (record { scheduled = scheduled; launched = []; events = [] }) l in
              let h =
                walk_layer-Walked plan b max_cycle scheduled _ l
                  (start-Walked plan b max_cycle scheduled le) in
              let r1 =
                run_steps ex step_key plan (record r { events = r.events ++ w.events })
                  (pick w.launched) in
              let here =
                run_steps-calls calls (record r { events = r.events ++ w.events }) (pick w.launched)
                  up in
              let there = run_layers-calls calls max_cycle w.scheduled r1 ls up short h.fits in
              rw room (omega (arith, here, there, short w.launched, h.counted))
        ]

    -- A cycle submits only manifests within its severity cap, under the plan's id and marked
    -- autonomous: what Apply keeps of the executor's state on those, executePlan keeps, for any
    -- order of the goroutines that runs no step that was not launched.
    pub execute_plan-Kept :
        (P : W → Type 0) (r : Run W)
        → Kept P
        → ((l : List PlanStep) (s : PlanStep) → In s (pick l) → In s l)
        → P r.world
        → P (execute_plan ex step_key pick plan b r).world
    unfolding execute_plan run_layering
    execute_plan-Kept P r kept sub p = over_layering (plan_layers plan.steps)
      where
        over_layering : (ls : Layering) → P (run_layering ex step_key pick plan b r ls).world
        over_layering (layers ls) = run_layers-Kept P (max_cycle_of b plan) 0 r ls kept sub p
        over_layering cycle = p
        over_layering out_of_fuel = p

    -- A cycle calls Apply at most MaxFaultsPerCycle times, or once for each step when that is off:
    -- no counter that a call of Apply raises by at most one rises by more, for any order of the
    -- goroutines that runs each launched step at most once.
    pub execute_plan_capped :
        (calls : W → ℕ) (r : Run W)
        → ((w : W) (m : FaultManifest) → calls (ex.apply w m).0 ≤ suc (calls w))
        → ((l : List PlanStep) → length (pick l) ≤ length l)
        → calls (execute_plan ex step_key pick plan b r).world ≤ calls r.world + max_cycle_of b plan
    unfolding execute_plan run_layering
    execute_plan_capped calls r up short = over_layering (plan_layers plan.steps)
      where
        over_layering :
            (ls : Layering)
            → calls (run_layering ex step_key pick plan b r ls).world
              ≤ calls r.world + max_cycle_of b plan
        over_layering (layers ls) =
            omega
              (arith, run_layers-calls calls (max_cycle_of b plan) 0 r ls up short (omega arith))
        over_layering cycle = omega arith
        over_layering out_of_fuel = omega arith
