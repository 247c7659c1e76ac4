-- ===== src/Executor/Safety/Gates.antt =====
-- What validateSafety of pkg/executor/executor.go lets through.
use simian_agent.Executor.Safety.{first_of}
use simian_agent.Prelude.{
  any, In, All, contains, ℤ, pos, ltb_ℤ, leb_ℤ, ℕ, String, refl, sym, inl, inr, true, false, not,
  Option, none, some, List, arith, ltb, string_Eq, Bool-cases, [], ◌≡◌, ◌∙◌, ◌≢◌, ◌⊎◌, ◌&&◌, ◌||◌,
  ◌∷◌, ◌==◌, nat_Eq,
}
use simian_agent.Prelude.Lists.{any_sound}
use simian_agent.Simian.Targets.Marks.{contains-target_namespaces}
use simian_agent.Prelude.Results.{Result, ok, err}
use simian_agent.Executor.Scope.Scoping.{validate_spec-IsScoped}
use mathlib.Core.Path.{subst, subst, subst, subst, subst, subst, subst, subst}
use simian_agent.Catalog.Tiers.{Net}
use simian_agent.Executor.Scope.{find_selector_sites, is_scope_exempt, Eligibility}
use simian_agent.Executor.Safety.{
  validate_spec_namespace_scope, Fields, ExecutorError, Scoped, after_scope, validate_safety,
  check_tier, after_targets, is_eligible, FaultManifest, TargetRef, Exclusions, check_targets,
  check_target, check_duration, check_excluded, Config,
}
use simian_agent.Simian.Targets.{target_namespaces, targets_namespace}

-- The target's namespace is eligible, its exclusions can be read, and it is none of them.
pub TargetSafe : Eligibility → Exclusions → TargetRef → Type 0
TargetSafe el ex t =
    (t.ns ≢ "")
    × (is_eligible el t.ns ≡ true)
    × ((l : List String) × (ex t.ns ≡ some l) × ((t.name ≡ "") ⊎ (contains l t.name ≡ false)))

not_excluded :
    (o : Option (List String)) (t : TargetRef)
    → check_excluded o t ≡ none
    → (l : List String) × (o ≡ some l) × ((t.name ≡ "") ⊎ (contains l t.name ≡ false))
unfolding check_excluded
not_excluded none t e = absurd (cc)
not_excluded (some l) t e = elim (Bool-cases (t.name == "")) [
  | inl blank ↦ (l, refl, inl ((string_Eq.beq_iff t.name "").0 blank))
  | inr called ↦ (l, refl, inr (ground arith))
]

target_safe :
    (el : Eligibility) (ex : Exclusions) (t : TargetRef)
    → check_target el ex t ≡ none
    → TargetSafe el ex t
unfolding check_target TargetSafe
target_safe el ex t e = elim (Bool-cases (t.ns == "" || not (is_eligible el t.ns))) [
  | inl refuses ↦ let f : ⊥ = ground arith in absurd f
  | inr fine ↦ (
    λ p. let b = (string_Eq.beq_iff t.ns "").1 p in let f : ⊥ = ground arith in f,
    ground arith,
    not_excluded (ex t.ns) t (ground arith),
  )
]

first_of-none : (a b : Option ExecutorError) → first_of a b ≡ none → (a ≡ none) × (b ≡ none)
unfolding first_of
first_of-none none b e = (refl, e)
first_of-none (some x) b e = absurd (cc)

targets_safe :
    (el : Eligibility) (ex : Exclusions) (ts : List TargetRef) (t : TargetRef)
    → check_targets el ex ts ≡ none
    → In t ts
    → TargetSafe el ex t
unfolding check_targets
targets_safe el ex [] t e i = absurd i
targets_safe el ex (x ∷ ts) t e (inl p) =
    subst (TargetSafe el ex) (sym p)
      (target_safe el ex x (first_of-none (check_target el ex x) _ e).0)
targets_safe el ex (x ∷ ts) t e (inr i) =
    targets_safe el ex ts t (first_of-none (check_target el ex x) _ e).1 i

-- A manifest that the gates passed.
pub record Safe {Cidr : Type 0} (cfg : Config Cidr) (el : Eligibility) (ex : Exclusions)
    (m : FaultManifest) (out : FaultManifest) : Type 0 where
  pub positive : ltb_ℤ (pos 0) m.duration ≡ true
  pub short : (cfg.duration_ceiling ≡ 0) ⊎ (leb_ℤ m.duration (pos cfg.duration_ceiling) ≡ true)
  pub targets : (t : TargetRef) → In t m.targets → TargetSafe el ex t
  pub permitted : contains cfg.permitted_tiers out.blast_radius_tier ≡ true
  pub scoped :
      (spec : Fields)
      → is_scope_exempt m.engine ≡ false
      → m.spec ≡ some spec
      → (s : Fields) × (out.spec ≡ some s)
        × All
            (λ site. (site.namespaces ≢ []) × All (λ ns. is_eligible el ns ≡ true) site.namespaces)
            (find_selector_sites s)

targets_granted :
    (el : Eligibility) (ex : Exclusions) (m : FaultManifest)
    → check_targets el ex m.targets ≡ none
    → (ns : String) → contains (target_namespaces m) ns ≡ true
    → is_eligible el ns ≡ true
unfolding targets_namespace TargetSafe
targets_granted el ex m e ns c =
    let shown : (not (ns == "") && targets_namespace m ns) ≡ true =
      sym (contains-target_namespaces m ns) ∙ c in
    let found : any (λ (t : TargetRef). t.ns == ns) m.targets ≡ true = ground arith in
    let (t, i, p) = any_sound (λ (t : TargetRef). t.ns == ns) m.targets found in
    subst (λ x. is_eligible el x ≡ true) ((string_Eq.beq_iff t.ns ns).0 p)
      (targets_safe el ex m.targets t e i).1

short_of :
    (ceiling : ℕ) (d : ℤ)
    → check_duration ceiling d ≡ none
    → (ltb_ℤ (pos 0) d ≡ true) × ((ceiling ≡ 0) ⊎ (leb_ℤ d (pos ceiling) ≡ true))
unfolding check_duration
short_of ceiling d e = elim (Bool-cases (ltb 0 ceiling)) [
  | inl on ↦ (ground arith, inr (ground arith))
  | inr off ↦ (ground arith, inl (ground arith))
]

module _ {Ip : Type 0} {Cidr : Type 0} (net : Net Ip Cidr) (cfg : Config Cidr) (el : Eligibility)
    (ex : Exclusions) where
  tier_permitted :
      (m : FaultManifest)
      → (check_tier net cfg m).error ≡ none
      → contains cfg.permitted_tiers (check_tier net cfg m).manifest.blast_radius_tier ≡ true
  unfolding check_tier
  tier_permitted m e = ground arith

  after_scope_passed :
      (o : Result FaultManifest Scoped)
      → (after_scope net cfg o).error ≡ none
      → (s : Scoped) × (o ≡ ok s)
        × ((after_scope net cfg o).manifest.spec ≡ s.manifest.spec)
        × (contains cfg.permitted_tiers (after_scope net cfg o).manifest.blast_radius_tier ≡ true)
  unfolding after_scope check_tier
  after_scope_passed (err m) e = absurd (cc)
  after_scope_passed (ok s) e = (s, refl, refl, tier_permitted s.manifest e)

  after_targets_passed :
      (m : FaultManifest) (o : Option ExecutorError)
      → (after_targets net cfg el m o).error ≡ none
      → (o ≡ none)
        × ((s : Scoped) × (validate_spec_namespace_scope el m ≡ ok s)
            × ((after_targets net cfg el m o).manifest.spec ≡ s.manifest.spec)
            × (contains cfg.permitted_tiers
                  (after_targets net cfg el m o).manifest.blast_radius_tier
                ≡ true))
  unfolding after_targets
  after_targets_passed m (some x) e = absurd (cc)
  after_targets_passed m none e = (refl, after_scope_passed (validate_spec_namespace_scope el m) e)

  -- A manifest that every safety gate passes lasts a positive time within the ceiling, targets only
  -- eligible namespaces and no excluded workload, carries a permitted tier after its
  -- reclassification, and, unless its engine is exempt, has only selectors that name eligible
  -- namespaces.
  pub validate_safety-Safe :
      (m : FaultManifest)
      → (validate_safety net cfg el ex m).error ≡ none
      → Safe cfg el ex m (validate_safety net cfg el ex m).manifest
  unfolding validate_safety
  validate_safety-Safe m e =
      let (checks, (s, scope, same, tier)) = after_targets_passed m _ e in
      let (duration, targets) =
        first_of-none (check_duration cfg.duration_ceiling m.duration) _ checks in
      let (positive, short) = short_of cfg.duration_ceiling m.duration duration in
      record {
        positive = positive;
        short = short;
        targets = λ t i. targets_safe el ex m.targets t targets i;
        permitted = tier;
        scoped = λ spec checked p.
            let (out, q, all) =
              validate_spec-IsScoped el m spec s checked p (targets_granted el ex m targets)
                scope in
            (out, same ∙ q, all);
      }
