-- ===== src/Executor/Paths/Matching.antt =====
-- The paths that a selector of pkg/executor/compat.go matches, with no expression in between.
use Prim.Native.Char.{Char, code}
use simian_agent.Prelude.{
  String, refl, sym, ap, inl, inr, true, false, List, nat_eq_iff, Bool-cases, [], ◌≡◌, ◌∙◌, ◌↔◌,
  ◌⊎◌, ◌∷◌, ◌==◌, if◌then◌else◌, nat_Eq, string_Eq,
}
use text.Mathlib.TextEquality.{eq_iff}
use simian_agent.Executor.Paths.{
  chaos_path_matches, match_atoms, quoted, put_first, after_first, is_newline, any_run, is_star,
  Atom, split_star, expression,
}

-- A star stands for any run of characters that are no newline, "/" among them; any other character
-- stands for itself.
pub data Globs : String → String → Type 0 where
  finished : Globs "" ""
  same :
      {c d : Char} {glob p : String}
      → is_star c ≡ false
      → code c ≡ code d
      → Globs glob p
      → Globs (String.◌∷◌ c glob) (String.◌∷◌ d p)
  leave :
      {c : Char} {glob p : String} → is_star c ≡ true → Globs glob p → Globs (String.◌∷◌ c glob) p
  cover :
      {c d : Char} {glob p : String}
      → is_star c ≡ true
      → is_newline d ≡ false
      → Globs (String.◌∷◌ c glob) p
      → Globs (String.◌∷◌ c glob) (String.◌∷◌ d p)

-- The expression of a glob, one character after another.
atoms_of : String → List Atom
atoms_of String.[] = []
atoms_of (String.◌∷◌ c s) = (if is_star c then any_run else quoted c) ∷ atoms_of s

expression-put_first :
    (c : Char) (parts : List String) → expression (put_first c parts) ≡ quoted c ∷ expression parts
unfolding expression put_first
expression-put_first c [] = refl
expression-put_first c (part ∷ parts) = refl

expression-blank : (parts : List String) → expression ("" ∷ parts) ≡ after_first parts
unfolding expression
expression-blank parts = refl

after_first-put_first :
    (c : Char) (parts : List String)
    → after_first (put_first c parts) ≡ any_run ∷ expression (put_first c parts)
unfolding expression put_first
after_first-put_first c [] = refl
after_first-put_first c (part ∷ parts) = refl

split_star_star :
    (c : Char) (s : String) → is_star c ≡ true → split_star (String.◌∷◌ c s) ≡ "" ∷ split_star s
unfolding split_star
split_star_star c s t = rw t refl

split_star_other :
    (c : Char) (s : String)
    → is_star c ≡ false
    → split_star (String.◌∷◌ c s) ≡ put_first c (split_star s)
unfolding split_star
split_star_other c s f = rw f refl

after_first-expression :
    (part : String) (parts : List String)
    → after_first (part ∷ parts) ≡ any_run ∷ expression (part ∷ parts)
unfolding expression
after_first-expression part parts = refl

-- A split is never empty.
after_first-split_star :
    (s : String) → after_first (split_star s) ≡ any_run ∷ expression (split_star s)
unfolding split_star
after_first-split_star String.[] = after_first-expression "" []
after_first-split_star (String.◌∷◌ c s) = elim (Bool-cases (is_star c)) [
  | inl t ↦ rw t (after_first-expression "" (split_star s))
  | inr f ↦ rw f (after_first-put_first c (split_star s))
]

expression-split_star : (s : String) → expression (split_star s) ≡ atoms_of s
unfolding atoms_of
expression-split_star String.[] = unfold split_star expression in refl
expression-split_star (String.◌∷◌ c s) = elim (Bool-cases (is_star c)) [
  | inl t ↦
      rw (split_star_star c s t, t)
        (expression-blank (split_star s)
          ∙ after_first-split_star s
          ∙ ap (◌∷◌ any_run) (expression-split_star s))
  | inr f ↦
      rw (split_star_other c s f, f)
        (expression-put_first c (split_star s) ∙ ap (◌∷◌ (quoted c)) (expression-split_star s))
]

atoms_of_star :
    (c : Char) (s : String) → is_star c ≡ true → atoms_of (String.◌∷◌ c s) ≡ any_run ∷ atoms_of s
unfolding atoms_of
atoms_of_star c s t = rw t refl

atoms_of_other :
    (c : Char) (s : String) → is_star c ≡ false → atoms_of (String.◌∷◌ c s) ≡ quoted c ∷ atoms_of s
unfolding atoms_of
atoms_of_other c s f = rw f refl

quoted_step :
    (c d : Char) (atoms : List Atom) (p : String)
    → match_atoms (quoted c ∷ atoms) (String.◌∷◌ d p) ≡ true
    → (code c ≡ code d) × (match_atoms atoms p ≡ true)
unfolding match_atoms
quoted_step c d atoms p h = elim (Bool-cases (code c == code d)) [
  | inl e ↦ ((nat_eq_iff (code c) (code d)).0 e, rw e at h)
  | inr n ↦ let q : false ≡ true = rw n at h in absurd (cc)
]

run_step :
    (d : Char) (atoms : List Atom) (p : String)
    → match_atoms (any_run ∷ atoms) (String.◌∷◌ d p) ≡ true
    → (match_atoms atoms (String.◌∷◌ d p) ≡ true)
      ⊎ ((is_newline d ≡ false) × (match_atoms (any_run ∷ atoms) p ≡ true))
unfolding match_atoms
run_step d atoms p h = elim (Bool-cases (match_atoms atoms (String.◌∷◌ d p))) [
  | inl t ↦ inl t
  | inr f ↦ elim (Bool-cases (is_newline d)) [
    | inl n ↦ let q : false ≡ true = rw (f, n) at h in absurd (cc)
    | inr n ↦ inr (n, rw (f, n) at h)
  ]
]

leave_run :
    (atoms : List Atom) (p : String)
    → match_atoms atoms p ≡ true
    → match_atoms (any_run ∷ atoms) p ≡ true
unfolding match_atoms
leave_run atoms String.[] h = h
leave_run atoms (String.◌∷◌ d p) h = rw h refl

cover_run :
    (atoms : List Atom) (d : Char) (p : String)
    → is_newline d ≡ false
    → match_atoms (any_run ∷ atoms) p ≡ true
    → match_atoms (any_run ∷ atoms) (String.◌∷◌ d p) ≡ true
unfolding match_atoms
cover_run atoms d p n h = elim (Bool-cases (match_atoms atoms (String.◌∷◌ d p))) [
  | inl t ↦ rw t refl
  | inr f ↦ rw (f, n) h
]

quoted_both :
    (c d : Char) (atoms : List Atom) (p : String)
    → code c ≡ code d
    → match_atoms atoms p ≡ true
    → match_atoms (quoted c ∷ atoms) (String.◌∷◌ d p) ≡ true
unfolding match_atoms
quoted_both c d atoms p e h = rw ((nat_eq_iff (code c) (code d)).1 e) h

match_atoms→Globs : (glob p : String) → match_atoms (atoms_of glob) p ≡ true → Globs glob p
match_atoms→Globs String.[] String.[] h = finished
match_atoms→Globs String.[] (String.◌∷◌ d p) h = unfold match_atoms atoms_of in absurd (cc)
match_atoms→Globs (String.◌∷◌ c glob) String.[] h = elim (Bool-cases (is_star c)) [
  | inl t ↦
      leave t (match_atoms→Globs glob "" (unfold match_atoms in (rw (atoms_of_star c glob t) at h)))
  | inr f ↦
      let q : false ≡ true = unfold match_atoms in (rw (atoms_of_other c glob f) at h) in
      absurd (cc)
]
match_atoms→Globs (String.◌∷◌ c glob) (String.◌∷◌ d p) h = elim (Bool-cases (is_star c)) [
  | inl t ↦ elim (run_step d (atoms_of glob) p (rw (atoms_of_star c glob t) at h)) [
    | inl now ↦ leave t (match_atoms→Globs glob (String.◌∷◌ d p) now)
    | inr (n, later) ↦
        cover t n (match_atoms→Globs (String.◌∷◌ c glob) p (rw (atoms_of_star c glob t) later))
  ]
  | inr f ↦
      let (e, rest) = quoted_step c d (atoms_of glob) p (rw (atoms_of_other c glob f) at h) in
      same f e (match_atoms→Globs glob p rest)
]

Globs→match_atoms : {glob p : String} → Globs glob p → match_atoms (atoms_of glob) p ≡ true
Globs→match_atoms finished = unfold match_atoms atoms_of in refl
Globs→match_atoms (same {c} {d} {glob} {p} f e g) =
    rw (atoms_of_other c glob f) (quoted_both c d (atoms_of glob) p e (Globs→match_atoms g))
Globs→match_atoms (leave {c} {glob} {p} t g) =
    rw (atoms_of_star c glob t) (leave_run (atoms_of glob) p (Globs→match_atoms g))
Globs→match_atoms (cover {c} {d} {glob} {p} t n g) =
    rw (atoms_of_star c glob t)
      (cover_run (atoms_of glob) d p n (rw (atoms_of_star c glob t) at (Globs→match_atoms g)))

chaos_path_matches_some :
    (glob p : String)
    → (glob == "") ≡ false
    → chaos_path_matches glob p ≡ match_atoms (atoms_of glob) p
unfolding chaos_path_matches
chaos_path_matches_some glob p f = rw f (ap (λ a. match_atoms a p) (expression-split_star glob))

chaos_path_matches_none : (glob p : String) → (glob == "") ≡ true → chaos_path_matches glob p ≡ true
unfolding chaos_path_matches
chaos_path_matches_none glob p t = rw t refl

-- ChaosPathMatches says yes exactly to the paths that the selector stands for, with "*" for any run of
-- characters but newlines and every other character for itself; the empty selector stands for all.
pub chaos_path_matches_exact :
    (glob p : String) → (chaos_path_matches glob p ≡ true) ↔ ((glob ≡ "") ⊎ Globs glob p)
chaos_path_matches_exact glob p = elim (Bool-cases (glob == "")) [
  | inl t ↦ (λ h. inl ((eq_iff glob "").0 t), λ h. chaos_path_matches_none glob p t)
  | inr f ↦
      let e = chaos_path_matches_some glob p f in
      (λ h. inr (match_atoms→Globs glob p (sym e ∙ h)), λ h. e ∙ matched f h)
]
  where
    matched :
        (glob == "") ≡ false → (glob ≡ "") ⊎ Globs glob p → match_atoms (atoms_of glob) p ≡ true
    matched f (inl e) = let t = (eq_iff glob "").1 e in absurd (cc)
    matched f (inr g) = Globs→match_atoms g
