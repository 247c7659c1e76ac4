-- ===== src/Loop/Cycle/Walking.antt =====
-- Which steps of a plan the walk of executePlan launches (pkg/loop/loop.go).
use simian_agent.Prelude.{
  subst, length, In, length-append, In-append, ℕ, refl, sym, inl, inr, false, Option, none, some,
  List, arith, leb, string_Eq, Bool-cases, [], ◌+◌, ◌≤◌, ◌≡◌, ◌⊎◌, ◌∷◌, ◌==◌, nat_Eq,
}
use simian_agent.Simian.Types.{AttackPlan}
use simian_agent.Loop.Cycle.{
  zero_step, tier_ordinal, step_at, PlanStep, walk_layer, walk_one, FaultManifest, tier_exceeds,
  Walk, Budget, is_over_severity, exceeds,
}

-- No cap, or both tiers are known and the manifest's is not above the cap.
unfoldable pub Within : Budget → FaultManifest → Type 0
Within b m =
    (b.max_severity_per_cycle ≡ "")
    ⊎ ((h : ℕ) × (c : ℕ) × (tier_ordinal m.blast_radius_tier ≡ some h)
        × (tier_ordinal b.max_severity_per_cycle ≡ some c)
        × (h ≤ c))

pub not_exceeding :
    (a b : Option ℕ)
    → exceeds a b ≡ false
    → (h : ℕ) × (c : ℕ) × (a ≡ some h) × (b ≡ some c) × (h ≤ c)
unfolding exceeds
not_exceeding none none e = absurd (cc)
not_exceeding none (some c) e = absurd (cc)
not_exceeding (some h) none e = absurd (cc)
not_exceeding (some h) (some c) e = (h, c, refl, refl, ground arith)

pub is_over_severity-Within :
    (b : Budget) (m : FaultManifest) → is_over_severity b m ≡ false → Within b m
unfolding is_over_severity tier_exceeds Within
is_over_severity-Within b m e = elim (Bool-cases (b.max_severity_per_cycle == "")) [
  | inl off ↦ inl ((string_Eq.beq_iff b.max_severity_per_cycle "").0 off)
  | inr on ↦ inr (not_exceeding _ _ (ground arith))
]

-- The walk's launched steps are within the cap, are counted, and fit in the cycle.
pub record Walked (b : Budget) (max_cycle : ℕ) (start : ℕ) (w : Walk) : Type 0 where
  pub within : (s : PlanStep) → In s w.launched → Within b s.manifest
  pub counted : w.scheduled ≡ start + length w.launched
  pub fits : w.scheduled ≤ max_cycle

module _ (plan : AttackPlan) (b : Budget) (max_cycle : ℕ) where
  pub walk_one-Walked :
      (start : ℕ) (w : Walk) (o : ℕ)
      → Walked b max_cycle start w
      → Walked b max_cycle start (walk_one plan b max_cycle w o)
  unfolding walk_one
  walk_one-Walked start w o h =
      let step = step_at plan.steps o zero_step in
      elim (Bool-cases (is_over_severity b step.manifest)) [
        | inl over ↦ rw over (record { within = h.within; counted = h.counted; fits = h.fits })
        | inr under ↦ elim (Bool-cases (leb max_cycle w.scheduled)) [
          | inl full ↦
              rw (under, full) (record { within = h.within; counted = h.counted; fits = h.fits })
          | inr room ↦
              rw (under, room)
                (record {
                  within = λ s i. elim (In-append s w.launched (step ∷ []) i) [
                    | inl before ↦ h.within s before
                    | inr (inl p) ↦
                        subst (λ x. Within b x.manifest) (sym p)
                          (is_over_severity-Within b step.manifest under)
                    | inr (inr nil_in) ↦ absurd nil_in
                  ];
                  counted = omega (arith, h.counted, length-append w.launched (step ∷ []));
                  fits = ground arith;
                })
        ]
      ]

  pub walk_layer-Walked :
      (start : ℕ) (w : Walk) (os : List ℕ)
      → Walked b max_cycle start w
      → Walked b max_cycle start (walk_layer plan b max_cycle w os)
  unfolding walk_layer
  walk_layer-Walked start w [] h = h
  walk_layer-Walked start w (o ∷ os) h =
      walk_layer-Walked start (walk_one plan b max_cycle w o) os (walk_one-Walked start w o h)

  pub start-Walked :
      (n : ℕ)
      → n ≤ max_cycle
      → Walked b max_cycle n (record { scheduled = n; launched = []; events = [] })
  start-Walked n le = record { within = λ s i. absurd i; counted = omega arith; fits = le }
