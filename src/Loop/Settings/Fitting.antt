-- ===== src/Loop/Settings/Fitting.antt =====
-- What Validate of pkg/loop/control.go lets through, and what it never refuses.
use simian_agent.Prelude.{
  subst, contains, ℤ, pos, negsuc, leb_ℤ, String, refl, sym, ap, inl, inr, Bool, true, false,
  Option, none, some, List, arith, ltb, string_Eq, Bool-cases, Option-cases, ==_refl, [], ◌≡◌, ◌≢◌,
  ◌⊎◌, ◌∷◌, ◌==◌, nat_Eq,
}
use simian_agent.Loop.Settings.{
  min_interval_of, is_known_namespace, SettingsError, Settings, inst_of, validate, equal_ints,
  check_namespaces, check_enabled, is_own, first_error, is_empty, check_faults, Limits, check_tier,
  check_interval,
}

equal_ints_sound : (a b : ℤ) → equal_ints a b ≡ true → a ≡ b
unfolding equal_ints
equal_ints_sound (pos a) (pos b) e = let p : a ≡ b = ground arith in ap pos p
equal_ints_sound (pos a) (negsuc b) e = absurd (ground arith)
equal_ints_sound (negsuc a) (pos b) e = absurd (ground arith)
equal_ints_sound (negsuc a) (negsuc b) e = let p : a ≡ b = ground arith in ap negsuc p

equal_ints_refl : (a : ℤ) → equal_ints a a ≡ true
unfolding equal_ints
equal_ints_refl (pos a) = ground arith
equal_ints_refl (negsuc a) = ground arith

-- The install's own settings, where there are any, have this value too.
pub Own {ℓ} : {A : Type ℓ} → Limits → (Settings → A) → A → Type ℓ
Own lim value a = (inst : Settings) × (lim.install ≡ some inst) × (a ≡ value inst)

-- Settings under the limits, except for values that are the install's own.
pub record Fits (lim : Limits) (s : Settings) : Type 0 where
  pub somewhere : s.enabled ≡ true → s.namespaces ≢ []
  pub placed :
      (ns : String)
      → contains s.namespaces ns ≡ true
      → (contains lim.arenas ns ≡ true)
        ⊎ ((inst : Settings) × (lim.install ≡ some inst) × (contains inst.namespaces ns ≡ true))
  pub seldom :
      (leb_ℤ (min_interval_of lim) s.interval ≡ true)
      ⊎ (Own lim (λ (i : Settings). i.interval) s.interval
          ⊎ ((lim.install ≡ none) × (s.interval ≡ pos 0)))
  pub bounded :
      ((leb_ℤ (pos 1) s.max_faults_per_cycle ≡ true)
        × ((lim.max_concurrent_faults ≡ 0)
            ⊎ (leb_ℤ s.max_faults_per_cycle (pos lim.max_concurrent_faults) ≡ true)))
      ⊎ Own lim (λ (i : Settings). i.max_faults_per_cycle) s.max_faults_per_cycle
  pub permitted :
      (s.max_severity_per_cycle ≡ "")
      ⊎ ((lim.permitted_tiers ≡ [])
          ⊎ ((contains lim.permitted_tiers s.max_severity_per_cycle ≡ true)
              ⊎ Own lim (λ (i : Settings). i.max_severity_per_cycle) s.max_severity_per_cycle))

is_own_sound :
    (lim : Limits) (same : Settings → Bool)
    → is_own lim same ≡ true
    → (inst : Settings) × (lim.install ≡ some inst) × (same inst ≡ true)
unfolding is_own
is_own_sound lim same e = elim (Option-cases lim.install) [
  | inl p ↦
      let f : false ≡ true =
        subst (λ o. (elim o [ none ↦ false | some inst ↦ same inst ]) ≡ true) p e in
      absurd (cc)
  | inr (inst, p) ↦ (inst, p, subst (λ o. (elim o [ none ↦ false | some i ↦ same i ]) ≡ true) p e)
]

first_error-none : (a b : Option SettingsError) → first_error a b ≡ none → (a ≡ none) × (b ≡ none)
unfolding first_error
first_error-none none b e = (refl, e)
first_error-none (some x) b e = cc

is_empty-true {ℓ} : {A : Type ℓ} (l : List A) → is_empty l ≡ true → l ≡ []
unfolding is_empty
is_empty-true [] e = refl
is_empty-true (x ∷ xs) e = absurd (cc)

check_namespaces_sound :
    (lim : Limits) (nss : List String) (ns : String)
    → check_namespaces lim nss ≡ none
    → contains nss ns ≡ true
    → is_known_namespace lim ns ≡ true
unfolding check_namespaces
check_namespaces_sound lim [] ns e c = absurd (cc)
check_namespaces_sound lim (n ∷ nss) ns e c = elim (Bool-cases (is_known_namespace lim n)) [
  | inl known ↦ elim (Bool-cases (n == ns)) [
    | inl same ↦
        subst (λ x. is_known_namespace lim x ≡ true) ((string_Eq.beq_iff n ns).0 same) known
    | inr other ↦ check_namespaces_sound lim nss ns (ground arith) (ground arith)
  ]
  | inr unknown ↦ absurd (ground arith)
]

somewhere_of : (s : Settings) → check_enabled s ≡ none → s.enabled ≡ true → s.namespaces ≢ []
unfolding check_enabled is_empty
somewhere_of s e on p =
    let empty : is_empty s.namespaces ≡ true = subst (λ l. is_empty l ≡ true) (sym p) refl in
    absurd (ground arith)

interval_of_install :
    (lim : Limits) (n : ℤ) (o : Option Settings)
    → lim.install ≡ o
    → n ≡ (inst_of lim).interval
    → Own lim (λ (i : Settings). i.interval) n ⊎ ((lim.install ≡ none) × (n ≡ pos 0))
unfolding inst_of Own
interval_of_install lim n none p e = inr (p, rw p at e)
interval_of_install lim n (some inst) p e = inl (inst, p, rw p at e)

namespace_of_install :
    (lim : Limits) (ns : String) (o : Option Settings)
    → lim.install ≡ o
    → contains (inst_of lim).namespaces ns ≡ true
    → (inst : Settings) × (lim.install ≡ some inst) × (contains inst.namespaces ns ≡ true)
unfolding inst_of
namespace_of_install lim ns none p e = let f = rw p at e in absurd (cc (f))
namespace_of_install lim ns (some inst) p e = (inst, p, rw p at e)

seldom_of :
    (lim : Limits) (s : Settings)
    → check_interval lim s ≡ none
    → (leb_ℤ (min_interval_of lim) s.interval ≡ true)
      ⊎ (Own lim (λ (i : Settings). i.interval) s.interval
          ⊎ ((lim.install ≡ none) × (s.interval ≡ pos 0)))
unfolding check_interval
seldom_of lim s e = elim (Bool-cases (equal_ints s.interval (inst_of lim).interval)) [
  | inl same ↦ inr (
      interval_of_install lim s.interval lim.install refl
        (equal_ints_sound s.interval (inst_of lim).interval same))
  | inr other ↦ inl (ground arith)
]

bounded_of :
    (lim : Limits) (s : Settings)
    → check_faults lim s ≡ none
    → ((leb_ℤ (pos 1) s.max_faults_per_cycle ≡ true)
        × ((lim.max_concurrent_faults ≡ 0)
            ⊎ (leb_ℤ s.max_faults_per_cycle (pos lim.max_concurrent_faults) ≡ true)))
      ⊎ Own lim (λ (i : Settings). i.max_faults_per_cycle) s.max_faults_per_cycle
unfolding check_faults Own
bounded_of lim s e =
    elim (Bool-cases
      (is_own lim (λ inst. equal_ints s.max_faults_per_cycle inst.max_faults_per_cycle))) [
        | inl own ↦
            let (inst, p, q) = is_own_sound lim _ own in
            inr (inst, p, equal_ints_sound s.max_faults_per_cycle inst.max_faults_per_cycle q)
        | inr other ↦ elim (Bool-cases (ltb 0 lim.max_concurrent_faults)) [
          | inl on ↦ inl (ground arith, inr (ground arith))
          | inr off ↦ inl (ground arith, inl (ground arith))
        ]
      ]

permitted_of :
    (lim : Limits) (s : Settings)
    → check_tier lim s ≡ none
    → (s.max_severity_per_cycle ≡ "")
      ⊎ ((lim.permitted_tiers ≡ [])
          ⊎ ((contains lim.permitted_tiers s.max_severity_per_cycle ≡ true)
              ⊎ Own lim (λ (i : Settings). i.max_severity_per_cycle) s.max_severity_per_cycle))
unfolding check_tier Own
permitted_of lim s e =
    let tier = s.max_severity_per_cycle in
    elim (Bool-cases (is_own lim (λ inst. tier == inst.max_severity_per_cycle))) [
      | inl own ↦
          let (inst, p, q) = is_own_sound lim _ own in
          inr (inr (inr (inst, p, (string_Eq.beq_iff tier inst.max_severity_per_cycle).0 q)))
      | inr other ↦ elim (Bool-cases (tier == "")) [
        | inl blank ↦ inl ((string_Eq.beq_iff tier "").0 blank)
        | inr named ↦ elim (Bool-cases (is_empty lim.permitted_tiers)) [
          | inl all ↦ inr (inl (is_empty-true lim.permitted_tiers all))
          | inr listed ↦ inr (inr (inl (ground arith)))
        ]
      ]
    ]

-- Settings that Validate accepts fit under the limits: they name arenas or the install's own
-- namespaces, and the interval, the number of faults and the severity cap are within the limits or
-- the install's own; with no install settings, an interval of 0 is accepted too.
pub validate-Fits : (s : Settings) (lim : Limits) → validate s lim ≡ none → Fits lim s
unfolding validate is_known_namespace
validate-Fits s lim e =
    let (enabled, e1) = first_error-none (check_enabled s) _ e in
    let (namespaces, e2) = first_error-none (check_namespaces lim s.namespaces) _ e1 in
    let (interval, e3) = first_error-none (check_interval lim s) _ e2 in
    let (faults, tier) = first_error-none (check_faults lim s) _ e3 in
    record {
      somewhere = somewhere_of s enabled;
      placed = λ ns c.
          let known = check_namespaces_sound lim s.namespaces ns namespaces c in
          elim (Bool-cases (contains lim.arenas ns)) [
            | inl arena ↦ inl arena
            | inr other ↦ inr (namespace_of_install lim ns lim.install refl (ground arith))
          ];
      seldom = seldom_of lim s interval;
      bounded = bounded_of lim s faults;
      permitted = permitted_of lim s tier;
    }

check_namespaces_own :
    (lim : Limits) (nss : List String)
    → ((ns : String) → contains nss ns ≡ true → contains (inst_of lim).namespaces ns ≡ true)
    → check_namespaces lim nss ≡ none
unfolding check_namespaces is_known_namespace
check_namespaces_own lim [] own = refl
check_namespaces_own lim (ns ∷ nss) own =
    let first = own ns (rw (==_refl ns) refl) in
    let rest = check_namespaces_own lim nss (λ n c. own n (ground arith)) in ground arith

check_enabled_own : (s : Settings) → (s.enabled ≡ true → s.namespaces ≢ []) → check_enabled s ≡ none
unfolding check_enabled
check_enabled_own s h = elim (Bool-cases (is_empty s.namespaces)) [
  | inl e ↦ elim (Bool-cases s.enabled) [
    | inl on ↦ absurd (h on (is_empty-true s.namespaces e))
    | inr off ↦ rw off refl
  ]
  | inr e ↦ ground arith
]

-- An operator who changes only which namespaces are paused is accepted, whatever the limits are, if
-- the install's own settings are not on with no namespace.
pub validate_paused :
    (inst : Settings) (lim : Limits) (paused : List String)
    → lim.install ≡ some inst
    → (inst.enabled ≡ true → inst.namespaces ≢ [])
    → validate (record inst { paused = paused }) lim ≡ none
unfolding validate first_error check_interval check_faults check_tier is_own inst_of
validate_paused inst lim paused own somewhere =
    let s : Settings = record inst { paused = paused } in
    let names = check_namespaces_own lim s.namespaces (λ ns c. rw own c) in
    rw
      (
        check_enabled_own s somewhere,
        names,
        own,
        equal_ints_refl inst.interval,
        equal_ints_refl inst.max_faults_per_cycle,
        ==_refl inst.max_severity_per_cycle,
      )
      (ground arith)
