-- ===== src/Executor/Scope/Narrowing.antt =====
-- Selectors after the narrowing of pkg/executor/nsscope.go.
use simian_agent.Prelude.{
  All, contains, All-of_In, In→contains, All-append, All-split, ℕ, suc, String, refl, sym, ap, inl,
  inr, true, false, some, List, arith, Bool-cases, Option-cases, [], ◌≡◌, ◌∙◌, ◌≢◌, ◌∷◌, ◌++◌, ◌==◌,
  if◌then◌else◌, nat_Eq, string_Eq,
}
use simian_agent.Executor.Scope.Reading.{
  is_empty_nil, namespaces_in-narrow_fields, marker-narrow_fields, contains-narrowed,
  pods-narrow_fields,
}
use mathlib.Core.Bool.{◌&&◌}
use simian_agent.Simian.Text.{text_below}
use simian_agent.Simian.Types.{
  Value, null, bool, num, str, arr, obj, Items, nil, cons, Fields, end, field,
}
use simian_agent.Executor.Scope.{
  index, key, is_selector, narrow_node, site_of, walk_items, walk_for_selectors, Segment,
  all_eligible, check_sites, is_eligible, SelectorSite, walk_fields, Eligibility, is_opaque,
  get_field, set_field, namespaces_in, to_items, is_empty, narrow, narrow_fields, narrow_items,
}

module _ {ℓ} (P : SelectorSite → Type ℓ) where
  All-names : (ts : List String) (p : List Segment) (i : ℕ) → All P (walk_items (to_items ts) p i)
  unfolding to_items walk_items walk_for_selectors
  All-names [] p i = tt
  All-names (t ∷ ts) p i = All-names ts p (suc i)

  All-names_field :
      (ts : List String) (fs : Fields) (p : List Segment)
      → All P (walk_fields fs p)
      → All P (walk_fields (field "namespaces" (arr (to_items ts)) fs) p)
  unfolding walk_fields walk_for_selectors
  All-names_field ts fs p h = All-append P _ (walk_fields fs p) (All-names ts _ 0) h

  -- The sites below a new `namespaces` list are those that were there.
  All-walk_set_field :
      (ts : List String) (fs : Fields) (p : List Segment)
      → All P (walk_fields fs p)
      → All P (walk_fields (set_field "namespaces" (arr (to_items ts)) fs) p)
  unfolding walk_fields set_field
  All-walk_set_field ts end p h = All-names_field ts end p h
  All-walk_set_field ts (field j w r) p h =
      let (first, rest) = All-split P _ (walk_fields r p) h in
      elim (Bool-cases (j == "namespaces")) [
        | inl t ↦ rw t (All-names_field ts r p rest)
        | inr f ↦ elim (Bool-cases (text_below "namespaces" j)) [
          | inl b ↦ rw (f, b) (All-names_field ts (field j w r) p h)
          | inr g ↦ rw (f, g) (All-append P _ _ first (All-walk_set_field ts r p rest))
        ]
      ]

module _ (el : Eligibility) where
  abbrev pub AllEligible : List String → Type 0
  AllEligible nss = All (λ ns. is_eligible el ns ≡ true) nss

  abbrev pub IsSound : SelectorSite → Type 0
  IsSound s = AllEligible s.namespaces

  -- The site names a namespace, and only eligible ones.
  abbrev pub IsScoped : SelectorSite → Type 0
  IsScoped s = (s.namespaces ≢ []) × All (λ ns. is_eligible el ns ≡ true) s.namespaces

  all_eligible-All : (nss : List String) → all_eligible el nss ≡ true → AllEligible nss
  unfolding all_eligible
  all_eligible-All [] h = tt
  all_eligible-All (ns ∷ nss) h = ground (arith, all_eligible-All nss)

  pub check_sites-IsSound :
      (ss : List SelectorSite) (paths : List (List Segment))
      → check_sites el ss ≡ some paths
      → All IsSound ss
  unfolding check_sites
  check_sites-IsSound [] paths h = tt
  check_sites-IsSound (s ∷ ss) paths h = elim (Option-cases (check_sites el ss)) [
    | inl bad ↦ let no : ⊥ = ground arith in absurd no
    | inr (ps, ok) ↦ elim (Bool-cases (is_empty s.namespaces)) [
      | inl e ↦ (rw (is_empty_nil s.namespaces e) tt, check_sites-IsSound ss ps ok)
      | inr f ↦ (all_eligible-All s.namespaces (ground arith), check_sites-IsSound ss ps ok)
    ]
  ]

module _ (el : Eligibility) (ts : List String) (t₀ : String) (some_target : contains ts t₀ ≡ true)
    (no_blank : contains ts "" ≡ false)
    (granted : (ns : String) → contains ts ns ≡ true → is_eligible el ns ≡ true) where
  narrowed_node-IsScoped :
      (fs inner : Fields) (p : List Segment)
      → is_empty (namespaces_in fs) ≡ true
      → get_field "pods" inner ≡ get_field "pods" fs
      → IsScoped el (record {
        path = p;
        node = set_field "namespaces" (arr (to_items ts)) inner;
        namespaces = namespaces_in (set_field "namespaces" (arr (to_items ts)) inner);
      })
  narrowed_node-IsScoped fs inner p e pods = (
    λ none_named.
        let shown = contains-narrowed ts fs inner t₀ no_blank e pods in
        let lost = ap (λ (l : List String). contains l t₀) none_named in cc,
    All-of_In (λ ns. is_eligible el ns ≡ true)
        (namespaces_in (set_field "namespaces" (arr (to_items ts)) inner))
        λ ns i.
          granted ns (sym (contains-narrowed ts fs inner ns no_blank e pods) ∙ In→contains _ ns i),
  )

  kept_node-IsScoped :
      (fs inner : Fields) (p : List Segment)
      → is_empty (namespaces_in fs) ≡ false
      → namespaces_in inner ≡ namespaces_in fs
      → AllEligible el (namespaces_in fs)
      → IsScoped el (record { path = p; node = inner; namespaces = namespaces_in inner })
  unfolding is_empty
  kept_node-IsScoped fs inner p f same sound = rw same ((λ e. cc (ap is_empty e)), sound)

  is_selector-narrow_fields :
      (k : String) (fs : Fields) → is_selector k (narrow_fields ts fs) ≡ is_selector k fs
  unfolding is_selector
  is_selector-narrow_fields k fs = rw (marker-narrow_fields ts fs) refl

  All-site_of :
      (P : SelectorSite → Type 0) (k : String) (p : List Segment) (fs : Fields)
      → (is_selector k fs ≡ true
          → P (record { path = p; node = fs; namespaces = namespaces_in fs }))
      → All P (site_of k p fs)
  unfolding site_of
  All-site_of P k p fs h = elim (Bool-cases (is_selector k fs)) [
    | inl t ↦ rw t (h t, tt)
    | inr f ↦ rw f tt
  ]

  sound_site :
      (k : String) (p : List Segment) (fs : Fields)
      → is_selector k fs ≡ true
      → All (IsSound el) (site_of k p fs)
      → AllEligible el (namespaces_in fs)
  unfolding site_of
  sound_site k p fs t h =
      let shown : All (IsSound el)
          (record { path = p; node = fs; namespaces = namespaces_in fs } ∷ []) =
        rw t at h in
      shown.0

  site-IsScoped :
      (k : String) (fs : Fields) (p : List Segment)
      → All (IsSound el) (site_of k p fs)
      → All (IsScoped el) (site_of k p (narrow_node ts k fs (narrow_fields ts fs)))
  unfolding narrow_node
  site-IsScoped k fs p sound = elim (Bool-cases (is_selector k fs && is_empty (namespaces_in fs))) [
    | inl t ↦
        rw (t, narrow_node)
          (All-site_of (IsScoped el) k p _ (λ _.
            narrowed_node-IsScoped fs (narrow_fields ts fs) p (ground arith)
              (pods-narrow_fields ts fs)))
    | inr f ↦
        rw (f, narrow_node)
          (All-site_of (IsScoped el) k p (narrow_fields ts fs) (λ sel.
            let sel' = sym (is_selector-narrow_fields k fs) ∙ sel in
            kept_node-IsScoped fs (narrow_fields ts fs) p (ground arith)
              (namespaces_in-narrow_fields ts fs) (sound_site k p fs sel' sound)))
  ]

  below_node-IsScoped :
      (k : String) (fs inner : Fields) (p : List Segment)
      → All (IsScoped el) (walk_fields inner p)
      → All (IsScoped el) (walk_fields (narrow_node ts k fs inner) p)
  unfolding narrow_node
  below_node-IsScoped k fs inner p h =
      elim (Bool-cases (is_selector k fs && is_empty (namespaces_in fs))) [
        | inl t ↦ rw (t, narrow_node) (All-walk_set_field (IsScoped el) ts inner p h)
        | inr f ↦ rw (f, narrow_node) h
      ]

  mutual
    unfolding walk_for_selectors walk_fields walk_items narrow narrow_fields narrow_items

    pub narrow-IsScoped :
        (v : Value) (p : List Segment) (k : String)
        → All (IsSound el) (walk_for_selectors v p k)
        → All (IsScoped el) (walk_for_selectors (narrow ts v k) p k)
    narrow-IsScoped null p k h = tt
    narrow-IsScoped (bool b) p k h = tt
    narrow-IsScoped (num n) p k h = tt
    narrow-IsScoped (str s) p k h = tt
    narrow-IsScoped (arr xs) p k h = narrow_items-IsScoped xs p 0 h
    narrow-IsScoped (obj fs) p k h =
        let (here, below) = All-split (IsSound el) (site_of k p fs) (walk_fields fs p) h in
        All-append (IsScoped el) (site_of k p (narrow_node ts k fs (narrow_fields ts fs))) _
          (site-IsScoped k fs p here)
          (below_node-IsScoped k fs (narrow_fields ts fs) p (narrow_fields-IsScoped fs p below))

    pub narrow_fields-IsScoped :
        (fs : Fields) (p : List Segment)
        → All (IsSound el) (walk_fields fs p)
        → All (IsScoped el) (walk_fields (narrow_fields ts fs) p)
    narrow_fields-IsScoped end p h = tt
    narrow_fields-IsScoped (field k v r) p h =
        let (here, below) =
          All-split (IsSound el)
            (if is_opaque k then [] else walk_for_selectors v (p ++ key k ∷ []) k) (walk_fields r p)
            h in
        let rest = narrow_fields-IsScoped r p below in
        let inner = λ (s : All (IsSound el) (walk_for_selectors v (p ++ key k ∷ []) k)).
          narrow-IsScoped v (p ++ key k ∷ []) k s in
        elim (Bool-cases (is_opaque k)) [
          | inl t ↦ rw t rest
          | inr f ↦ rw f (All-append (IsScoped el) _ _ (inner (rw f at here)) rest)
        ]

    pub narrow_items-IsScoped :
        (xs : Items) (p : List Segment) (i : ℕ)
        → All (IsSound el) (walk_items xs p i)
        → All (IsScoped el) (walk_items (narrow_items ts xs) p i)
    narrow_items-IsScoped nil p i h = tt
    narrow_items-IsScoped (cons v r) p i h =
        let (here, below) =
          All-split (IsSound el) (walk_for_selectors v (p ++ index i ∷ []) "")
            (walk_items r p (suc i)) h in
        All-append (IsScoped el) (walk_for_selectors (narrow ts v "") (p ++ index i ∷ []) "") _
          (narrow-IsScoped v (p ++ index i ∷ []) "" here) (narrow_items-IsScoped r p (suc i) below)
