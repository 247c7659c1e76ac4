-- ===== src/Executor/Budget/Counting.antt =====
-- What the threads of a system hold, counted, and the invariant on the counters of
-- pkg/executor/executor.go.
use simian_agent.Prelude.{
  length, contains, ℕ, suc, String, true, false, List, arith, [], ◌+◌, ◌≤◌, ◌<◌, ◌≡◌, ◌∷◌, ◌++◌,
  if◌then◌else◌, nat_Eq, string_Eq,
}
use simian_agent.Executor.Budget.Counts.{occurrences}
use simian_agent.Executor.Budget.Threads.{Thread, System}
use simian_agent.Executor.Budget.{Limits, count_of}

-- Threads that hold a booking and have no lease yet.
abbrev pub waiting : List Thread → ℕ
waiting [] = 0
waiting (h ∷ hs) = let rest = waiting hs in if h.is_leased then rest else suc rest

-- How often the threads book a namespace.
abbrev pub booked : String → List Thread → ℕ
booked ns [] = 0
booked ns (h ∷ hs) = occurrences ns h.booking.namespaces + booked ns hs

-- How many threads book a namespace.
abbrev pub holders : String → List Thread → ℕ
holders ns [] = 0
holders ns (h ∷ hs) =
    let rest = holders ns hs in if contains h.booking.namespaces ns then suc rest else rest

-- No booking in use has been given back.
abbrev pub AllOpen : List Thread → Type 0
AllOpen [] = Unit
AllOpen (h ∷ hs) = (h.booking.done ≡ false) × AllOpen hs

-- `bound` is at least the cap and at least the leases at the start.
pub record Inv (lim : Limits) (bound : ℕ) (s : System) : Type 0 where
  pub open_bookings : AllOpen s.threads
  pub counted : s.books.in_flight ≡ length s.threads
  pub counted_ns : (ns : String) → count_of s.books.in_flight_ns ns ≡ booked ns s.threads
  pub capped :
      0 < lim.max_concurrent_faults → length s.books.registry.items + waiting s.threads ≤ bound
  pub alone : 0 < lim.min_cooldown → (ns : String) → holders ns s.threads ≤ 1

pub waiting-append : (xs ys : List Thread) → waiting (xs ++ ys) ≡ waiting xs + waiting ys
waiting-append [] ys = omega arith
waiting-append (x ∷ xs) ys = ground (arith, waiting-append xs ys)

pub booked-append :
    (ns : String) (xs ys : List Thread) → booked ns (xs ++ ys) ≡ booked ns xs + booked ns ys
booked-append ns [] ys = omega arith
booked-append ns (x ∷ xs) ys = omega (arith, booked-append ns xs ys)

pub holders-append :
    (ns : String) (xs ys : List Thread) → holders ns (xs ++ ys) ≡ holders ns xs + holders ns ys
holders-append ns [] ys = omega arith
holders-append ns (x ∷ xs) ys = ground (arith, holders-append ns xs ys)

pub AllOpen-append : (xs ys : List Thread) → AllOpen xs → AllOpen ys → AllOpen (xs ++ ys)
AllOpen-append [] ys h k = k
AllOpen-append (x ∷ xs) ys h k = (h.0, AllOpen-append xs ys h.1 k)

pub AllOpen-split : (xs ys : List Thread) → AllOpen (xs ++ ys) → AllOpen xs × AllOpen ys
AllOpen-split [] ys h = (tt, h)
AllOpen-split (x ∷ xs) ys h = let (a, b) = AllOpen-split xs ys h.1 in ((h.0, a), b)

pub waiting-le-length : (xs : List Thread) → waiting xs ≤ length xs
waiting-le-length [] = omega arith
waiting-le-length (x ∷ xs) = ground (arith, waiting-le-length xs)

pub occurs : (ns : String) (nss : List String) → contains nss ns ≡ true → 0 < occurrences ns nss
occurs ns [] h = absurd (cc)
occurs ns (k ∷ nss) h = ground (arith, occurs ns nss)

pub holders-le-booked : (ns : String) (xs : List Thread) → holders ns xs ≤ booked ns xs
holders-le-booked ns [] = omega arith
holders-le-booked ns (x ∷ xs) =
    ground (arith, holders-le-booked ns xs, occurs ns x.booking.namespaces)
