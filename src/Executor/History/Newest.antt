-- ===== src/Executor/History/Newest.antt =====
-- The walk of pkg/executor/history.go from the newest entry, as a filter with a limit.
use simian_agent.Prelude.{
  reverse, take, keep, ℕ, zero, suc, String, refl, Bool, List, arith, [], ◌+◌, ◌≡◌, ◌∷◌,
}
use simian_agent.Simian.Targets.{targets_namespace}
use simian_agent.Executor.History.{RefusedFault, History, newest, list_refused}

newest_all : {A : Type 0} (p : A → Bool) (count : ℕ) (xs : List A) → newest p 0 count xs ≡ keep p xs
unfolding newest
newest_all p count [] = refl
newest_all p count (x ∷ xs) = ground (arith, newest_all p count xs, newest_all p (suc count) xs)

newest_limited :
    {A : Type 0} (p : A → Bool) (left limit count : ℕ) (xs : List A)
    → limit ≡ count + suc left
    → newest p limit count xs ≡ take (suc left) (keep p xs)
unfolding newest
newest_limited p left limit count [] e = refl
newest_limited p zero limit count (x ∷ xs) e =
    ground (arith, newest_limited p zero limit count xs e)
newest_limited p (suc left) limit count (x ∷ xs) e = ground (
  arith,
  newest_limited p (suc left) limit count xs e,
  newest_limited p left limit (suc count) xs (omega arith),
)

-- ListRefused returns the refusals that target the namespace, newest first, cut off at the limit if
-- the limit is not 0.
pub list_refused_exact :
    (h : History) (ns : String) (limit : ℕ)
    → let all =
        keep (λ (rf : RefusedFault). targets_namespace rf.manifest ns) (reverse h.refused) in
      (list_refused h ns 0 ≡ all) × (list_refused h ns (suc limit) ≡ take (suc limit) all)
unfolding list_refused
list_refused_exact h ns limit = (
  newest_all _ 0 (reverse h.refused),
  newest_limited _ limit (suc limit) 0 (reverse h.refused) (omega arith),
)
