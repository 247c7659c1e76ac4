-- ===== src/Executor/Scope/Scoping.antt =====
-- The scope check of pkg/executor/nsscope.go as a whole.
use simian_agent.Prelude.{
  All, contains, String, refl, sym, ap, inl, inr, true, false, some, List, arith, Bool-cases,
  Option-cases, ==_refl, [], ◌≡◌, ◌∙◌, ◌≢◌, ◌∷◌, if◌then◌else◌, nat_Eq, string_Eq,
}
use simian_agent.Prelude.Results.{ok}
use simian_agent.Simian.Types.{obj, Fields, end, field, FaultManifest}
use simian_agent.Simian.Targets.{target_namespaces}
use simian_agent.Simian.Targets.Marks.{contains-target_namespaces}
use simian_agent.Executor.Scope.Narrowing.{IsScoped, check_sites-IsSound, narrow-IsScoped}
use simian_agent.Executor.Scope.{
  is_selector_field, is_selector, find_selector_sites, narrow_spec, is_empty, check_sites,
  Eligibility, is_eligible, is_scope_exempt, Scoped, scope_spec, validate_spec_namespace_scope, key,
}

is_empty-false : (l : List String) → is_empty l ≡ false → (x : String) × (contains l x ≡ true)
unfolding is_empty
is_empty-false [] h = absurd (cc)
is_empty-false (x ∷ l) h = (x, ground (arith, ==_refl x))

scope_spec-IsScoped :
    (el : Eligibility) (m : FaultManifest) (spec : Fields) (out : Scoped)
    → ((ns : String) → contains (target_namespaces m) ns ≡ true → is_eligible el ns ≡ true)
    → m.spec ≡ some spec
    → scope_spec el m (some spec) ≡ ok out
    → (s : Fields) × (out.manifest.spec ≡ some s) × All (IsScoped el) (find_selector_sites s)
unfolding scope_spec find_selector_sites is_selector is_selector_field
scope_spec-IsScoped el m end out granted p e = (end, ground arith, tt)
scope_spec-IsScoped el m (field k v r) out granted p e =
    let whole : Fields = field k v r in
    elim (Bool-cases (is_empty (target_namespaces m))) [
      | inl none_named ↦ let no : ⊥ = ground arith in absurd no
      | inr named ↦ elim (Option-cases (check_sites el (find_selector_sites whole))) [
        | inl refused ↦ let no : ⊥ = ground arith in absurd no
        | inr (paths, checked) ↦
            let (t₀, first) = is_empty-false (target_namespaces m) named in
            (
              narrow_spec (target_namespaces m) whole,
              ground arith,
              narrow-IsScoped el (target_namespaces m) t₀ first (contains-target_namespaces m "")
                  granted (obj whole) (key "spec" ∷ []) "" (check_sites-IsSound el _ paths checked),
            )
      ]
    ]

-- If the scope check passes a manifest whose targets are all in eligible namespaces, then every
-- selector in the spec that the check leaves names at least one namespace, and only eligible ones:
-- for every engine that is not exempt, at any depth of the spec. A selector that a later step
-- writes into the spec is not covered.
pub validate_spec-IsScoped :
    (el : Eligibility) (m : FaultManifest) (spec : Fields) (out : Scoped)
    → is_scope_exempt m.engine ≡ false
    → m.spec ≡ some spec
    → ((ns : String) → contains (target_namespaces m) ns ≡ true → is_eligible el ns ≡ true)
    → validate_spec_namespace_scope el m ≡ ok out
    → (s : Fields) × (out.manifest.spec ≡ some s)
      × All
          (λ site. (site.namespaces ≢ []) × All (λ ns. is_eligible el ns ≡ true) site.namespaces)
          (find_selector_sites s)
unfolding validate_spec_namespace_scope
validate_spec-IsScoped el m spec out checked p granted e =
    scope_spec-IsScoped el m spec out granted p
      (ap (scope_spec el m) (sym p) ∙ sym (same checked) ∙ e)
  where
    same :
        is_scope_exempt m.engine ≡ false
        → (if is_scope_exempt m.engine
            then ok (record { manifest = m; narrowed = [] })
            else scope_spec el m m.spec)
          ≡ scope_spec el m m.spec
    same f = rw f refl
