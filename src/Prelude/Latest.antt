-- ===== src/Prelude/Latest.antt =====
-- The newest elements of a list, as the bounded buffers of pkg/audit and pkg/executor keep them.
use simian_agent.Prelude.{
  length, drop, length-append, ℕ, zero, suc, refl, sym, ap, List, arith, [], ◌-◌, ◌≤◌, ◌<◌, ◌≡◌,
  ◌∙◌, ◌∷◌, ◌++◌,
}
use native.Mathlib.Decide.{dec_lt}

module _ {A : Type 0} where
  -- The newest `n`.
  abbrev pub latest : ℕ → List A → List A
  latest n rs = drop (length rs - n) rs

  pub drop_none : (rs : List A) (n : ℕ) → length rs ≤ n → drop n rs ≡ []
  drop_none [] zero h = refl
  drop_none [] (suc n) h = refl
  drop_none (r ∷ rs) zero h = absurd (omega arith)
  drop_none (r ∷ rs) (suc n) h = drop_none rs n (omega arith)

  pub drop-append :
      (n : ℕ) (rs more : List A) → n ≤ length rs → drop n (rs ++ more) ≡ drop n rs ++ more
  drop-append zero rs more h = refl
  drop-append (suc n) [] more h = absurd (omega arith)
  drop-append (suc n) (r ∷ rs) more h = drop-append n rs more (omega arith)

  pub drop-one : (m : ℕ) (rs : List A) → drop 1 (drop m rs) ≡ drop (suc m) rs
  drop-one zero [] = refl
  drop-one zero (r ∷ rs) = refl
  drop-one (suc m) [] = refl
  drop-one (suc m) (r ∷ rs) = drop-one m rs

  pub length-drop : (n : ℕ) (rs : List A) → length (drop n rs) ≡ length rs - n
  length-drop zero rs = omega arith
  length-drop (suc n) [] = omega arith
  length-drop (suc n) (r ∷ rs) = omega (arith, length-drop n rs)

  -- Past the limit, a new element costs the oldest.
  latest-full :
      (n : ℕ) (rs : List A) (r : A)
      → 0 < n
      → n < length rs
      → latest n (latest n rs ++ r ∷ []) ≡ latest n (rs ++ r ∷ [])
  latest-full n rs r h over =
      let full : length (latest n rs) ≡ n = omega (arith, length-drop (length rs - n) rs) in
      let one : length (latest n rs ++ r ∷ []) - n ≡ 1 =
        omega (arith, full, length-append (latest n rs) (r ∷ [])) in
      let all : length (rs ++ r ∷ []) - n ≡ suc (length rs - n) =
        omega (arith, length-append rs (r ∷ [])) in
      rw (one, all)
        (drop-append 1 (latest n rs) (r ∷ []) (omega (arith, full))
          ∙ ap (λ l. l ++ r ∷ []) (drop-one (length rs - n) rs)
          ∙ sym (drop-append (suc (length rs - n)) rs (r ∷ []) (omega arith)))

  pub latest-append :
      (n : ℕ) (rs : List A) (r : A)
      → 0 < n
      → latest n (latest n rs ++ r ∷ []) ≡ latest n (rs ++ r ∷ [])
  latest-append n rs r h = elim (dec_lt n (length rs)) [
    | yes over ↦ latest-full n rs r h over
    | no fits ↦ let none_over : length rs - n ≡ 0 = omega arith in rw none_over refl
  ]
