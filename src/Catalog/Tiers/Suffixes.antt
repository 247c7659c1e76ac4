-- ===== src/Catalog/Tiers/Suffixes.antt =====
-- strings.HasSuffix as pkg/catalog/tiers.go uses it, beside the texts that end in a suffix.
use simian_agent.Simian.Text.{append_text}
use simian_agent.Prelude.{
  subst, String, refl, sym, ap, inl, inr, true, arith, string_Eq, Bool-cases, ==_refl, ◌≡◌, ◌⊎◌,
  ◌==◌, nat_Eq,
}
use simian_agent.Catalog.Tiers.{matches_domain, has_suffix, trim_dot}

pub has_suffix_self : (t : String) → has_suffix t t ≡ true
unfolding has_suffix
has_suffix_self String.[] = refl
has_suffix_self (String.◌∷◌ c s) = rw (==_refl (String.◌∷◌ c s)) refl

pub has_suffix-append : (pre t : String) → has_suffix (append_text pre t) t ≡ true
unfolding has_suffix append_text
has_suffix-append String.[] t = has_suffix_self t
has_suffix-append (String.◌∷◌ c pre) t = ground (arith, has_suffix-append pre t)

pub has_suffix_split :
    (s t : String) → has_suffix s t ≡ true → (pre : String) × (s ≡ append_text pre t)
unfolding has_suffix append_text
has_suffix_split String.[] t e = ("", (string_Eq.beq_iff "" t).0 e)
has_suffix_split (String.◌∷◌ c s) t e = elim (Bool-cases (String.◌∷◌ c s == t)) [
  | inl same ↦ ("", (string_Eq.beq_iff (String.◌∷◌ c s) t).0 same)
  | inr other ↦
      let (pre, p) = has_suffix_split s t (ground arith) in
      (String.◌∷◌ c pre, ap (λ x. String.◌∷◌ c x) p)
]

-- A pattern stands in a domain when it is the domain or ends with a dot and the domain, where one
-- dot at the end of either counts for nothing.
pub InDomain : String → String → Type 0
InDomain pattern d =
    (trim_dot pattern ≡ trim_dot d)
    ⊎ ((pre : String) × (trim_dot pattern ≡ append_text pre (append_text "." (trim_dot d))))

pub matches_domain_exact :
    (pattern d : String)
    → (matches_domain pattern d ≡ true → InDomain pattern d)
      × (InDomain pattern d → matches_domain pattern d ≡ true)
unfolding matches_domain InDomain append_text
matches_domain_exact pattern d = (sound, complete)
  where
    dotted : String
    dotted = append_text "." (trim_dot d)

    sound : matches_domain pattern d ≡ true → InDomain pattern d
    sound e = elim (Bool-cases (has_suffix (trim_dot pattern) dotted)) [
      | inl ends ↦ inr (has_suffix_split (trim_dot pattern) dotted ends)
      | inr miss ↦ inl ((string_Eq.beq_iff (trim_dot pattern) (trim_dot d)).0 (ground arith))
    ]

    complete : InDomain pattern d → matches_domain pattern d ≡ true
    complete (inl p) = ground (arith, (string_Eq.beq_iff (trim_dot pattern) (trim_dot d)).1 p)
    complete (inr (pre, p)) =
        let ends : has_suffix (trim_dot pattern) dotted ≡ true =
          subst (λ x. has_suffix x dotted ≡ true) (sym p) (has_suffix-append pre dotted) in
        ground arith
