-- ===== src/Prelude/Lists.antt =====
-- Lists by Boolean tests and native lengths: Go's slices and loops over them.
use Prim.Native.Nat.{ℕ, zero, suc, ◌+◌, ◌≤◌}
use mathlib.Core.Path.{◌≡◌, refl, ap, sym}
use mathlib.Core.Logic.{◌⊎◌, inl, inr}
use mathlib.Core.Bool.{Bool, true, false, ◌||◌, ◌&&◌, not}
use mathlib.Core.Option.{Option, none, some}
use mathlib.Core.List.{List, [], ◌∷◌, ◌++◌, map}
use native.Mathlib.Omega.{arith}
use simian_agent.Prelude.Tests.{if◌then◌else◌, Eq, ◌==◌, Bool-cases}

module _ {ℓ} {A : Type ℓ} where
  abbrev pub length : List A → ℕ
  length [] = 0
  length (x ∷ xs) = suc (length xs)

  abbrev pub get_elem? : List A → ℕ → Option A
  get_elem? [] i = none
  get_elem? (x ∷ xs) zero = some x
  get_elem? (x ∷ xs) (suc i) = get_elem? xs i

  abbrev pub take : ℕ → List A → List A
  take zero xs = []
  take (suc n) [] = []
  take (suc n) (x ∷ xs) = x ∷ take n xs

  abbrev pub drop : ℕ → List A → List A
  drop zero xs = xs
  drop (suc n) [] = []
  drop (suc n) (x ∷ xs) = drop n xs

  -- The elements that a loop with `if !test(x) { continue }` goes on with.
  abbrev pub keep : (A → Bool) → List A → List A
  keep p [] = []
  keep p (x ∷ xs) = if p x then x ∷ keep p xs else keep p xs

  abbrev pub any : (A → Bool) → List A → Bool
  any p [] = false
  any p (x ∷ xs) = p x || any p xs

  abbrev pub All {κ} : (A → Type κ) → List A → Type κ
  All P [] = Unit
  All P (x ∷ xs) = P x × All P xs

  pub length-append : (xs ys : List A) → length (xs ++ ys) ≡ length xs + length ys
  length-append [] ys = omega arith
  length-append (x ∷ xs) ys = omega (arith, length-append xs ys)

  pub length-keep-le : (p : A → Bool) (xs : List A) → length (keep p xs) ≤ length xs
  length-keep-le p [] = omega arith
  length-keep-le p (x ∷ xs) = ground (arith, length-keep-le p xs)

module _ {ℓ κ} {A : Type ℓ} (P : A → Type κ) where
  pub All-append : (xs ys : List A) → All P xs → All P ys → All P (xs ++ ys)
  All-append [] ys h k = k
  All-append (x ∷ xs) ys h k = (h.0, All-append xs ys h.1 k)

  pub All-split : (xs ys : List A) → All P (xs ++ ys) → All P xs × All P ys
  All-split [] ys h = (tt, h)
  All-split (x ∷ xs) ys h = let (a, b) = All-split xs ys h.1 in ((h.0, a), b)

module _ {A : Type 0} where
  -- Membership, by recursion on the list.
  abbrev pub In : A → List A → Type 0
  In a [] = ⊥
  In a (x ∷ xs) = (a ≡ x) ⊎ In a xs

  pub In-append : (a : A) (xs ys : List A) → In a (xs ++ ys) → In a xs ⊎ In a ys
  In-append a [] ys h = inr h
  In-append a (x ∷ xs) ys (inl e) = inl (inl e)
  In-append a (x ∷ xs) ys (inr h) = elim (In-append a xs ys h) [
    | inl l ↦ inl (inr l)
    | inr r ↦ inr r
  ]

  pub In-append_left : (a : A) (xs ys : List A) → In a xs → In a (xs ++ ys)
  In-append_left a [] ys h = absurd h
  In-append_left a (x ∷ xs) ys (inl e) = inl e
  In-append_left a (x ∷ xs) ys (inr h) = inr (In-append_left a xs ys h)

  pub In-append_right : (a : A) (xs ys : List A) → In a ys → In a (xs ++ ys)
  In-append_right a [] ys h = h
  In-append_right a (x ∷ xs) ys h = inr (In-append_right a xs ys h)

  pub In-keep : (p : A → Bool) (a : A) (xs : List A) → In a (keep p xs) → In a xs × (p a ≡ true)
  In-keep p a [] h = absurd h
  In-keep p a (x ∷ xs) h = elim (Bool-cases (p x)) [
    | inl t ↦ taken t (λ r. In-keep p a xs r) (rw t at h)
    | inr f ↦ (inr (In-keep p a xs (rw f at h)).0, (In-keep p a xs (rw f at h)).1)
  ]
    where
      taken :
          p x ≡ true
          → (In a (keep p xs) → In a xs × (p a ≡ true))
          → In a (x ∷ keep p xs)
          → In a (x ∷ xs) × (p a ≡ true)
      taken t ih (inl e) = (inl e, rw e t)
      taken t ih (inr r) = (inr (ih r).0, (ih r).1)

  pub In-keep_of : (p : A → Bool) (a : A) (xs : List A) → In a xs → p a ≡ true → In a (keep p xs)
  In-keep_of p a [] h t = absurd h
  In-keep_of p a (x ∷ xs) (inl e) t = rw (rw e at t) (inl e)
  In-keep_of p a (x ∷ xs) (inr r) t = elim (Bool-cases (p x)) [
    | inl yes_p ↦ rw yes_p (inr (In-keep_of p a xs r t))
    | inr no_p ↦ rw no_p (In-keep_of p a xs r t)
  ]

  pub All-In {κ} : (P : A → Type κ) (xs : List A) (a : A) → All P xs → In a xs → P a
  All-In P [] a h i = absurd i
  All-In P (x ∷ xs) a h (inl e) = rw e h.0
  All-In P (x ∷ xs) a h (inr i) = All-In P xs a h.1 i

  pub All-of_In {κ} : (P : A → Type κ) (xs : List A) → ((a : A) → In a xs → P a) → All P xs
  All-of_In P [] f = tt
  All-of_In P (x ∷ xs) f = (f x (inl refl), All-of_In P xs (λ a i. f a (inr i)))

module _ {A B : Type 0} where
  pub In-map : (f : A → B) (a : A) (xs : List A) → In a xs → In (f a) (map f xs)
  In-map f a [] h = absurd h
  In-map f a (x ∷ xs) (inl e) = inl (ap f e)
  In-map f a (x ∷ xs) (inr h) = inr (In-map f a xs h)

  pub In-map_inv :
      (f : A → B) (b : B) (xs : List A) → In b (map f xs) → (a : A) × In a xs × (b ≡ f a)
  In-map_inv f b [] h = absurd h
  In-map_inv f b (x ∷ xs) (inl e) = (x, inl refl, e)
  In-map_inv f b (x ∷ xs) (inr h) = let (a, i, e) = In-map_inv f b xs h in (a, inr i, e)

module _ {ℓ κ} {A : Type ℓ} {B : Type κ} where
  pub length-map : (f : A → B) (xs : List A) → length (map f xs) ≡ length xs
  length-map f [] = refl
  length-map f (x ∷ xs) = ap suc (length-map f xs)

module _ {A : Type 0} ⦃e : Eq A⦄ where
  -- slices.Contains.
  abbrev pub contains : List A → A → Bool
  contains [] a = false
  contains (x ∷ xs) a = x == a || contains xs a

  -- The distinct elements, in the order in which they come first; `seen` are there already.
  unfoldable pub dedupe_from : List A → List A → List A
  dedupe_from seen [] = []
  dedupe_from seen (x ∷ xs) =
      let skip = dedupe_from seen xs in
      let rest = x ∷ dedupe_from (x ∷ seen) xs in if contains seen x then skip else rest

  pub contains→In : (xs : List A) (a : A) → contains xs a ≡ true → In a xs
  contains→In [] a h = absurd (cc)
  contains→In (x ∷ xs) a h = elim (Bool-cases (x == a)) [
    | inl hit ↦ inl (sym ((e.beq_iff x a).0 hit))
    | inr miss ↦ inr (contains→In xs a (rw miss at h))
  ]

  pub In→contains : (xs : List A) (a : A) → In a xs → contains xs a ≡ true
  In→contains [] a h = absurd h
  In→contains (x ∷ xs) a (inl p) = rw ((e.beq_iff x a).1 (sym p)) refl
  In→contains (x ∷ xs) a (inr h) = elim (Bool-cases (x == a)) [
    | inl hit ↦ rw hit refl
    | inr miss ↦ rw miss (In→contains xs a h)
  ]

module _ {A : Type 0} ⦃e : Eq A⦄ where
  pub contains-dedupe_from :
      (a : A) (seen xs : List A)
      → contains (dedupe_from seen xs) a ≡ (not (contains seen a) && contains xs a)
  unfolding dedupe_from
  contains-dedupe_from a seen [] = ground arith
  contains-dedupe_from a seen (x ∷ xs) =
      ground
        (arith, e.beq_iff x a, contains-dedupe_from a seen xs, contains-dedupe_from a (x ∷ seen) xs)

pub any_sound :
    {A : Type 0} (f : A → Bool) (l : List A) → any f l ≡ true → (x : A) × In x l × (f x ≡ true)
any_sound f [] e = absurd (cc)
any_sound f (x ∷ l) e = elim (Bool-cases (f x)) [
  | inl hit ↦ (x, inl refl, hit)
  | inr miss ↦ let (y, i, q) = any_sound f l (ground arith) in (y, inr i, q)
]

pub any_complete :
    {A : Type 0} (f : A → Bool) (l : List A) (x : A) → In x l → f x ≡ true → any f l ≡ true
any_complete f [] x i e = absurd i
any_complete f (y ∷ l) x (inl p) e = let q : f y ≡ true = rw (← p) e in ground arith
any_complete f (y ∷ l) x (inr i) e = ground (arith, any_complete f l x i e)
