-- ===== src/Prelude/Sorting.antt =====
-- Package sort, and what sorting keeps.
use Prim.Native.Nat.{suc}
use mathlib.Core.Path.{◌≡◌, refl, ◌∙◌}
use mathlib.Core.Logic.{◌↔◌, inl, inr}
use mathlib.Core.Bool.{Bool, true, false, ◌||◌}
use mathlib.Core.List.{List, [], ◌∷◌}
use native.Mathlib.Omega.{arith}
use simian_agent.Prelude.Tests.{if◌then◌else◌, Eq, ◌==◌, Bool-cases}
use simian_agent.Prelude.Lists.{length, In, contains, contains→In, In→contains}

-- Package sort, by insertion; `below x y` says that `x` may stand before `y`.
module _ {A : Type 0} (below : A → A → Bool) where
  unfoldable pub insert_by : A → List A → List A
  insert_by a [] = a ∷ []
  insert_by a (x ∷ xs) = if below a x then a ∷ x ∷ xs else x ∷ insert_by a xs

  unfoldable pub sort_by : List A → List A
  unfolding insert_by
  sort_by [] = []
  sort_by (x ∷ xs) = insert_by x (sort_by xs)

  In-insert_by : (b a : A) (xs : List A) → In b (insert_by a xs) ↔ In b (a ∷ xs)
  unfolding insert_by
  In-insert_by b a [] = (λ h. h, λ h. h)
  In-insert_by b a (x ∷ xs) = elim (Bool-cases (below a x)) [
    | inl t ↦ rw t (λ h. h, λ h. h)
    | inr f ↦ rw f (into (In-insert_by b a xs), back (In-insert_by b a xs))
  ]
    where
      into : In b (insert_by a xs) ↔ In b (a ∷ xs) → In b (x ∷ insert_by a xs) → In b (a ∷ x ∷ xs)
      into ih (inl e) = inr (inl e)
      into ih (inr h) = elim (ih.0 h) [ inl e ↦ inl e | inr r ↦ inr (inr r) ]

      back : In b (insert_by a xs) ↔ In b (a ∷ xs) → In b (a ∷ x ∷ xs) → In b (x ∷ insert_by a xs)
      back ih (inl e) = inr (ih.1 (inl e))
      back ih (inr (inl e)) = inl e
      back ih (inr (inr r)) = inr (ih.1 (inr r))

  pub In-sort_by : (b : A) (xs : List A) → In b (sort_by xs) ↔ In b xs
  unfolding sort_by
  In-sort_by b [] = (λ h. h, λ h. h)
  In-sort_by b (x ∷ xs) = (
    λ h. into (λ r. (In-sort_by b xs).0 r) (step.0 h),
    λ h. step.1 (back (λ r. (In-sort_by b xs).1 r) h),
  )
    where
      step : In b (insert_by x (sort_by xs)) ↔ In b (x ∷ sort_by xs)
      step = In-insert_by b x (sort_by xs)

      into : (In b (sort_by xs) → In b xs) → In b (x ∷ sort_by xs) → In b (x ∷ xs)
      into ih (inl e) = inl e
      into ih (inr h) = inr (ih h)

      back : (In b xs → In b (sort_by xs)) → In b (x ∷ xs) → In b (x ∷ sort_by xs)
      back ih (inl e) = inl e
      back ih (inr h) = inr (ih h)

  length-insert_by : (a : A) (xs : List A) → length (insert_by a xs) ≡ suc (length xs)
  unfolding insert_by
  length-insert_by a [] = refl
  length-insert_by a (x ∷ xs) = ground (arith, length-insert_by a xs)

  pub length-sort_by : (xs : List A) → length (sort_by xs) ≡ length xs
  unfolding sort_by
  length-sort_by [] = refl
  length-sort_by (x ∷ xs) = omega (arith, length-insert_by x (sort_by xs), length-sort_by xs)

-- Sorting keeps the answers of slices.Contains.
module _ {A : Type 0} ⦃e : Eq A⦄ (below : A → A → Bool) where
  pub contains-sort_by : (a : A) (xs : List A) → contains (sort_by below xs) a ≡ contains xs a
  contains-sort_by a xs = elim (Bool-cases (contains xs a)) [
    | inl t ↦
        rw t (In→contains (sort_by below xs) a ((In-sort_by below a xs).1 (contains→In xs a t)))
    | inr f ↦ elim (Bool-cases (contains (sort_by below xs) a)) [
      | inl u ↦
          let t =
            In→contains xs a ((In-sort_by below a xs).0 (contains→In (sort_by below xs) a u)) in
          cc
      | inr g ↦ rw (f, g) refl
    ]
  ]

-- Each element may stand before the next.
abbrev pub InOrder : {A : Type 0} → (A → A → Bool) → List A → Type 0
InOrder below [] = Unit
InOrder below (x ∷ []) = Unit
InOrder below (x ∷ y ∷ r) = (below x y ≡ true) × InOrder below (y ∷ r)

module _ {A : Type 0} (below : A → A → Bool)
    (total : (x y : A) → below x y ≡ false → below y x ≡ true) where
  insert_by-InOrder :
      (a : A) (xs : List A) → InOrder below xs → InOrder below (insert_by below a xs)
  unfolding insert_by
  insert_by-InOrder a [] h = tt
  insert_by-InOrder a (x ∷ []) h = ground (arith, total a x)
  insert_by-InOrder a (x ∷ y ∷ r) h =
      ground (arith, total a x, total a y, insert_by-InOrder a (y ∷ r) h.1)

  pub sort_by-InOrder : (xs : List A) → InOrder below (sort_by below xs)
  unfolding sort_by
  sort_by-InOrder [] = tt
  sort_by-InOrder (x ∷ xs) = insert_by-InOrder x (sort_by below xs) (sort_by-InOrder xs)

module _ {A : Type 0} ⦃e : Eq A⦄ where
  -- No element twice.
  abbrev pub Distinct : List A → Type 0
  Distinct [] = Unit
  Distinct (x ∷ xs) = (contains xs x ≡ false) × Distinct xs

module _ {A : Type 0} ⦃e : Eq A⦄ (below : A → A → Bool) where
  contains-insert_by :
      (a b : A) (xs : List A) → contains (insert_by below a xs) b ≡ (a == b || contains xs b)
  unfolding insert_by
  contains-insert_by a b [] = refl
  contains-insert_by a b (x ∷ xs) = ground (arith, contains-insert_by a b xs)

  insert_by-Distinct :
      (a : A) (xs : List A) → contains xs a ≡ false → Distinct xs → Distinct (insert_by below a xs)
  unfolding insert_by
  insert_by-Distinct a [] f h = (f, h)
  insert_by-Distinct a (x ∷ xs) f h =
      ground
        (arith, contains-insert_by a x xs, e.beq_iff a x, e.beq_iff x a, insert_by-Distinct a xs)

  pub sort_by-Distinct : (xs : List A) → Distinct xs → Distinct (sort_by below xs)
  unfolding sort_by
  sort_by-Distinct [] h = tt
  sort_by-Distinct (x ∷ xs) h =
      insert_by-Distinct x (sort_by below xs) (contains-sort_by below x xs ∙ h.0)
        (sort_by-Distinct xs h.1)
