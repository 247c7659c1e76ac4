-- ===== src/Prelude/Kept.antt =====
-- Lists that are filtered, freed of repetitions or sorted, in parts.
use simian_agent.Prelude.{nat_Eq, string_Eq}
use Prim.Native.Nat.{◌≤◌}
use mathlib.Core.Path.{◌≡◌, refl, ap, sym, ◌∙◌}
use mathlib.Core.Logic.{inl, inr}
use mathlib.Core.Bool.{Bool, true, false, ◌||◌}
use mathlib.Core.List.{List, [], ◌∷◌, ◌++◌, map}
use native.Mathlib.Omega.{arith}
use simian_agent.Prelude.Tests.{Eq, Bool-cases, ==_refl}
use simian_agent.Prelude.Lists.{length, keep, contains, dedupe_from, contains-dedupe_from}
use simian_agent.Prelude.Sorting.{Distinct, sort_by, insert_by}

module _ {ℓ} {A : Type ℓ} (p : A → Bool) where
  pub keep-append : (xs ys : List A) → keep p (xs ++ ys) ≡ keep p xs ++ keep p ys
  keep-append [] ys = refl
  keep-append (x ∷ xs) ys = ground (arith, keep-append xs ys)

module _ {A : Type 0} (below : A → A → Bool) (p : A → Bool) where
  keep-insert_out : (a : A) (xs : List A) → p a ≡ false → keep p (insert_by below a xs) ≡ keep p xs
  unfolding insert_by
  keep-insert_out a [] f = rw f refl
  keep-insert_out a (x ∷ xs) f = ground (arith, keep-insert_out a xs f)

  keep-insert_only :
      (a : A) (xs : List A) → keep p xs ≡ [] → p a ≡ true → keep p (insert_by below a xs) ≡ a ∷ []
  unfolding insert_by
  keep-insert_only a [] e t = rw t refl
  keep-insert_only a (x ∷ xs) e t = ground (arith, keep-insert_only a xs)

  -- Sorting keeps what a test picks out, if that is one element at most.
  pub keep-sort_by : (xs : List A) → length (keep p xs) ≤ 1 → keep p (sort_by below xs) ≡ keep p xs
  unfolding sort_by
  keep-sort_by [] h = refl
  keep-sort_by (x ∷ xs) h = elim (Bool-cases (p x)) [
    | inl t ↦
        let none_else : keep p xs ≡ [] = ground (arith, h, t) in
        rw t (
          keep-insert_only x (sort_by below xs)
            (keep-sort_by xs (rw none_else (omega arith)) ∙ none_else) t
          ∙ ap (◌∷◌ x) (sym none_else))
    | inr f ↦ rw f (keep-insert_out x (sort_by below xs) f ∙ keep-sort_by xs (rw f at h))
  ]

module _ {A : Type 0} ⦃e : Eq A⦄ where
  pub dedupe_from-Distinct : (seen xs : List A) → Distinct (dedupe_from seen xs)
  unfolding dedupe_from
  dedupe_from-Distinct seen [] = tt
  dedupe_from-Distinct seen (x ∷ xs) = ground (
    arith,
    dedupe_from-Distinct seen xs,
    dedupe_from-Distinct (x ∷ seen) xs,
    contains-dedupe_from x (x ∷ seen) xs,
    ==_refl x,
  )

  -- What is there already adds nothing.
  pub dedupe_from-known :
      (seen ys : List A)
      → ((a : A) → contains ys a ≡ true → contains seen a ≡ true)
      → dedupe_from seen ys ≡ []
  unfolding dedupe_from
  dedupe_from-known seen [] k = refl
  dedupe_from-known seen (y ∷ ys) k =
      rw (k y (rw (==_refl y) refl)) (dedupe_from-known seen ys λ a h. k a (ground (arith, h)))

  pub dedupe_from-append :
      (seen xs ys : List A)
      → ((a : A) → contains ys a ≡ true → (contains seen a || contains xs a) ≡ true)
      → dedupe_from seen (xs ++ ys) ≡ dedupe_from seen xs
  unfolding dedupe_from
  dedupe_from-append seen [] ys k = dedupe_from-known seen ys λ a h. ground (arith, k a h)
  dedupe_from-append seen (x ∷ xs) ys k = elim (Bool-cases (contains seen x)) [
    | inl old ↦
        rw old (dedupe_from-append seen xs ys λ a h. ground (arith, k a h, old, e.beq_iff x a))
    | inr new ↦
        rw new (ap (◌∷◌ x) (dedupe_from-append (x ∷ seen) xs ys λ a h. ground (arith, k a h)))
  ]

module _ {A B : Type 0} ⦃e : Eq A⦄ where
  pub map-cong :
      (f g : A → B) (xs : List A)
      → ((a : A) → contains xs a ≡ true → f a ≡ g a)
      → map f xs ≡ map g xs
  map-cong f g [] h = refl
  map-cong f g (x ∷ xs) h =
      rw (h x (rw (==_refl x) refl), map-cong f g xs (λ a c. h a (ground (arith, c)))) refl
