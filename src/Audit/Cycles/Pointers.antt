-- ===== src/Audit/Cycles/Pointers.antt =====
-- The pointers of pkg/audit/cycles.go: each points to the last row of its namespace.
use simian_agent.Prelude.{
  keep, ℕ, zero, suc, String, refl, ap, inl, inr, true, false, Option, none, some, List, arith,
  Bool-cases, [], ◌≡◌, ◌∙◌, ◌≢◌, ◌∷◌, ◌++◌, ◌==◌, nat_Eq, string_Eq,
}
use simian_agent.Prelude.Assoc.{lookup}
use simian_agent.Audit.Cycles.Single.{rows_of, Single, is_in}
use text.Mathlib.TextEquality.{eq_iff}
use simian_agent.Audit.Cycles.{Folding, CycleRow, change_at}

-- Row `i` is the last of the namespace.
abbrev pub LastAt : String → List CycleRow → ℕ → Type 0
LastAt ns [] i = ⊥
LastAt ns (x ∷ xs) zero = (is_in ns x ≡ true) × (keep (is_in ns) xs ≡ [])
LastAt ns (x ∷ xs) (suc i) = LastAt ns xs i

-- The pointer agrees with the cycle in progress.
abbrev pub Points : String → List CycleRow → Option ℕ → Option CycleRow → Type 0
Points ns rows none none = Unit {0}
Points ns rows (some i) (some c) = LastAt ns rows i
Points ns rows _ _ = ⊥

-- What the folded rows show of a namespace is the namespace's own cycles.
pub record Shows (ns : String) (t : Folding) (s : Single) : Type 0 where
  pub rows : keep (is_in ns) t.rows ≡ rows_of s
  pub points : Points ns t.rows (lookup ns t.in_progress) s.current

-- A change of a row leaves it in its namespace.
abbrev pub KeepsNs : (CycleRow → CycleRow) → Type 0
KeepsNs f = (c : CycleRow) → (f c).ns ≡ c.ns

pub keep-change_other :
    (ns other : String) (i : ℕ) (f : CycleRow → CycleRow) (xs : List CycleRow)
    → KeepsNs f
    → (other == ns) ≡ false
    → LastAt other xs i
    → keep (is_in ns) (change_at i f xs) ≡ keep (is_in ns) xs
unfolding change_at
keep-change_other ns other i f [] k d l = absurd l
keep-change_other ns other zero f (x ∷ xs) k d l =
    ground (arith, k x, l, d, eq_iff x.ns other, eq_iff x.ns ns, eq_iff other ns)
keep-change_other ns other (suc i) f (x ∷ xs) k d l =
    rw (keep-change_other ns other i f xs k d l) refl

pub LastAt-change_other :
    (ns other : String) (i j : ℕ) (f : CycleRow → CycleRow) (xs : List CycleRow)
    → KeepsNs f
    → (other == ns) ≡ false
    → LastAt other xs i
    → LastAt ns xs j
    → LastAt ns (change_at i f xs) j
unfolding change_at
LastAt-change_other ns other i j f [] k d l m = absurd l
LastAt-change_other ns other zero zero f (x ∷ xs) k d l m =
    ground (arith, k x, l, m, d, eq_iff x.ns other, eq_iff x.ns ns, eq_iff other ns)
LastAt-change_other ns other zero (suc j) f (x ∷ xs) k d l m = m
LastAt-change_other ns other (suc i) zero f (x ∷ xs) k d l m =
    (m.0, keep-change_other ns other i f xs k d l ∙ m.1)
LastAt-change_other ns other (suc i) (suc j) f (x ∷ xs) k d l m =
    LastAt-change_other ns other i j f xs k d l m

pub LastAt-change :
    (ns : String) (i : ℕ) (f : CycleRow → CycleRow) (xs : List CycleRow)
    → KeepsNs f
    → LastAt ns xs i
    → LastAt ns (change_at i f xs) i
unfolding change_at
LastAt-change ns i f [] k l = l
LastAt-change ns zero f (x ∷ xs) k l = (rw (k x) l.0, l.1)
LastAt-change ns (suc i) f (x ∷ xs) k l = LastAt-change ns i f xs k l

pub LastAt-shows :
    (ns : String) (xs : List CycleRow) (i : ℕ) → LastAt ns xs i → keep (is_in ns) xs ≢ []
LastAt-shows ns [] i l e = l
LastAt-shows ns (x ∷ xs) zero l e = ground (arith, l, e)
LastAt-shows ns (x ∷ xs) (suc i) l e = ground (arith, LastAt-shows ns xs i l, e)

-- The change of the last row of a namespace is that of the last row it shows.
pub keep-change :
    (ns : String) (i : ℕ) (f : CycleRow → CycleRow) (xs before : List CycleRow) (c : CycleRow)
    → KeepsNs f
    → LastAt ns xs i
    → keep (is_in ns) xs ≡ before ++ c ∷ []
    → keep (is_in ns) (change_at i f xs) ≡ before ++ f c ∷ []
unfolding change_at
keep-change ns i f [] before c k l e = absurd l
keep-change ns zero f (x ∷ xs) [] c k l e = ground (arith, k x, l, e)
keep-change ns zero f (x ∷ xs) (b ∷ []) c k l e = absurd (ground (arith, k x, l, e))
keep-change ns zero f (x ∷ xs) (b ∷ b' ∷ before) c k l e = absurd (ground (arith, k x, l, e))
keep-change ns (suc i) f (x ∷ xs) [] c k l e = elim (Bool-cases (is_in ns x)) [
  | inl mine ↦ absurd (LastAt-shows ns xs i l (ground (arith, mine, e)))
  | inr other ↦ rw other (keep-change ns i f xs [] c k l (rw other at e))
]
keep-change ns (suc i) f (x ∷ xs) (b ∷ before) c k l e = elim (Bool-cases (is_in ns x)) [
  | inl mine ↦
      let q : x ∷ keep (is_in ns) xs ≡ b ∷ (before ++ c ∷ []) = rw mine at e in
      let same : x ≡ b = cc in
      rw mine (
        ap (◌∷◌ x) (keep-change ns i f xs before c k l (cc))
        ∙ ap (λ y. y ∷ (before ++ f c ∷ [])) same)
  | inr other ↦ rw other (keep-change ns i f xs (b ∷ before) c k l (rw other at e))
]
