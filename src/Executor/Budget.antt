-- ===== src/Executor/Budget.antt =====
-- pkg/executor/executor.go: the concurrency budget and the cooldown. `reserve` books an apply, the
-- function that it returns gives the booking back, and `record_apply` starts the cooldowns. All of
-- it runs under the executor's mutex, so each is one step.
pub mod Counts
pub mod Threads
pub mod Counting
pub mod Stepping
pub mod Capped
use simian_agent.Prelude.{
  length, any, ℕ, suc, String, Bool, true, false, Option, none, some, List, ltb, leb, [], ◌+◌, ◌-◌,
  ◌&&◌, ◌||◌, ◌∷◌, if◌then◌else◌, nat_Eq, string_Eq,
}
use simian_agent.Prelude.Assoc.{lookup, insert, delete}
use simian_agent.Lease.Registry.{Registry, list}

-- A limit that is not positive is off; it is 0 here.
pub record Limits : Type 0 where
  pub max_concurrent_faults : ℕ
  pub min_cooldown : ℕ

-- What the mutex guards, and the registry that `reserve` reads under it.
pub record Books : Type 0 where
  pub registry : Registry
  pub in_flight : ℕ
  pub in_flight_ns : List (String × ℕ)
  pub last_apply_by_ns : List (String × ℕ)

-- What the returned function closes over.
pub record Booking : Type 0 where
  pub namespaces : List String
  pub done : Bool

-- The value of a counter that may be missing.
unfoldable pub count_of : List (String × ℕ) → String → ℕ
unfolding lookup
count_of m ns = elim (lookup ns m) [ none ↦ 0 | some n ↦ n ]

-- A full registry refuses, counting what is on the way in too.
unfoldable pub is_full : Limits → Books → Bool
is_full lim b =
    ltb 0 lim.max_concurrent_faults
    && leb lim.max_concurrent_faults (length (list b.registry "") + b.in_flight)

unfoldable pub in_cooldown : Limits → Books → ℕ → String → Bool
unfolding lookup
in_cooldown lim b now ns = elim (lookup ns b.last_apply_by_ns) [
  | none ↦ false
  | some last ↦ ltb (now - last) lim.min_cooldown
]

unfoldable pub is_busy : Limits → Books → ℕ → String → Bool
unfolding count_of in_cooldown
is_busy lim b now ns = ltb 0 (count_of b.in_flight_ns ns) || in_cooldown lim b now ns

unfoldable pub increment_all : List (String × ℕ) → List String → List (String × ℕ)
unfolding count_of insert
increment_all m [] = m
increment_all m (ns ∷ nss) = increment_all (insert ns (suc (count_of m ns)) m) nss

-- A counter that falls to 0 is deleted.
unfoldable pub decrement_all : List (String × ℕ) → List String → List (String × ℕ)
unfolding count_of insert delete
decrement_all m [] = m
decrement_all m (ns ∷ nss) =
    decrement_all
      (if leb (count_of m ns - 1) 0 then delete ns m else insert ns (count_of m ns - 1) m) nss

-- `none` is the refusal, budget-exceeded; the books are then as they were.
unfoldable pub reserve : Limits → Books → ℕ → List String → Option (Books × Booking)
unfolding is_full is_busy increment_all
reserve lim b now namespaces =
    if is_full lim b
    then none
    else if ltb 0 lim.min_cooldown && any (is_busy lim b now) namespaces
    then none
    else some (
      record b {
        in_flight = suc b.in_flight;
        in_flight_ns = increment_all b.in_flight_ns namespaces;
      },
      record { namespaces = namespaces; done = false },
    )

-- The returned function: the second call does nothing.
unfoldable pub release : Books → Booking → Books × Booking
unfolding decrement_all
release b k = if k.done then (b, k) else (
  record b {
    in_flight = b.in_flight - 1;
    in_flight_ns = decrement_all b.in_flight_ns k.namespaces;
  },
  record k { done = true },
)

unfoldable pub stamp_all : List (String × ℕ) → ℕ → List String → List (String × ℕ)
unfolding insert
stamp_all m now [] = m
stamp_all m now (ns ∷ nss) = stamp_all (insert ns now m) now nss

-- Every namespace that the fault landed in starts its cooldown.
unfoldable pub record_apply : Books → ℕ → List String → Books
unfolding stamp_all
record_apply b now namespaces = record b {
  last_apply_by_ns = stamp_all b.last_apply_by_ns now namespaces;
}
