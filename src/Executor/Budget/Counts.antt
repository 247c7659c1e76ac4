-- ===== src/Executor/Budget/Counts.antt =====
-- The counters under booking and release, and what a granted booking says.
use simian_agent.Prelude.{
  length, keep, any, In, contains, In→contains, length-sort_by, ℕ, suc, String, refl, ap, inl, inr,
  Bool, true, false, some, List, arith, leb, string_Eq, Bool-cases, [], ◌+◌, ◌-◌, ◌≤◌, ◌<◌, ◌≡◌,
  ◌∙◌, ◌∷◌, ◌==◌, if◌then◌else◌, nat_Eq,
}
use simian_agent.Prelude.Assoc.{
  length-values, values, lookup, insert, delete, lookup-insert, lookup-delete,
}
use simian_agent.Simian.Targets.{targets_namespace}
use simian_agent.Lease.Registry.{Registry, list, applied_before}
use simian_agent.Executor.Budget.{
  Limits, Books, Booking, count_of, is_full, in_cooldown, is_busy, increment_all, decrement_all,
  reserve, release, stamp_all, record_apply,
}

-- How often a namespace is in a list.
abbrev pub occurrences : String → List String → ℕ
occurrences ns [] = 0
occurrences ns (k ∷ nss) = let rest = occurrences ns nss in if k == ns then suc rest else rest

count_of-insert :
    (k ns : String) (n : ℕ) (m : List (String × ℕ))
    → count_of (insert k n m) ns ≡ (if k == ns then n else count_of m ns)
unfolding count_of
count_of-insert k ns n m = ground (arith, lookup-insert k ns n m)

count_of-delete :
    (k ns : String) (m : List (String × ℕ))
    → count_of (delete k m) ns ≡ (if k == ns then 0 else count_of m ns)
unfolding count_of
count_of-delete k ns m = ground (arith, lookup-delete k ns m)

pub count_of-increment_all :
    (m : List (String × ℕ)) (nss : List String) (ns : String)
    → count_of (increment_all m nss) ns ≡ count_of m ns + occurrences ns nss
unfolding increment_all
count_of-increment_all m [] ns = omega arith
count_of-increment_all m (k ∷ nss) ns = ground (
  arith,
  count_of-increment_all (insert k (suc (count_of m k)) m) nss ns,
  count_of-insert k ns (suc (count_of m k)) m,
  string_Eq.beq_iff k ns,
)

pub count_of-decrement_all :
    (m : List (String × ℕ)) (nss : List String) (ns : String)
    → count_of (decrement_all m nss) ns ≡ count_of m ns - occurrences ns nss
unfolding decrement_all
count_of-decrement_all m [] ns = omega arith
count_of-decrement_all m (k ∷ nss) ns = elim (Bool-cases (leb (count_of m k - 1) 0)) [
  | inl low ↦ rw low (
      ground (
        arith,
        count_of-decrement_all (delete k m) nss ns,
        count_of-delete k ns m,
        string_Eq.beq_iff k ns,
      ))
  | inr high ↦ rw high (
      ground (
        arith,
        count_of-decrement_all (insert k (count_of m k - 1) m) nss ns,
        count_of-insert k ns (count_of m k - 1) m,
        string_Eq.beq_iff k ns,
      ))
]

keep_all : {A : Type 0} (p : A → Bool) (xs : List A) → ((a : A) → p a ≡ true) → keep p xs ≡ xs
keep_all p [] h = refl
keep_all p (x ∷ xs) h = rw (h x) (ap (◌∷◌ x) (keep_all p xs h))

-- List("") lists everything.
pub length-list_all : (r : Registry) → length (list r "") ≡ length r.items
unfolding list targets_namespace
length-list_all r =
    length-sort_by applied_before _
    ∙ ap length (keep_all (λ af. targets_namespace af.manifest "") (values r.items) (λ a. refl))
    ∙ length-values r.items

pub reserve_books :
    (lim : Limits) (b c : Books) (now : ℕ) (nss : List String) (k : Booking)
    → reserve lim b now nss ≡ some (c, k)
    → (c
        ≡ record b { in_flight = suc b.in_flight; in_flight_ns = increment_all b.in_flight_ns nss })
      × (k ≡ record { namespaces = nss; done = false })
unfolding reserve
reserve_books lim b c now nss k e = ground arith

-- With a cap set, a booking is granted only while the leases and the applies in flight are below it.
pub reserve_room :
    (lim : Limits) (b c : Books) (now : ℕ) (nss : List String) (k : Booking)
    → 0 < lim.max_concurrent_faults
    → reserve lim b now nss ≡ some (c, k)
    → length b.registry.items + b.in_flight < lim.max_concurrent_faults
unfolding reserve is_full
reserve_room lim b c now nss k h e = ground (arith, length-list_all b.registry)

any-false :
    (p : String → Bool) (nss : List String) (ns : String)
    → any p nss ≡ false
    → In ns nss
    → p ns ≡ false
any-false p [] ns h i = absurd i
any-false p (k ∷ nss) ns h (inl e) = rw e (ground arith)
any-false p (k ∷ nss) ns h (inr i) = any-false p nss ns (ground arith) i

pub reserve_idle :
    (lim : Limits) (b c : Books) (now : ℕ) (nss : List String) (k : Booking) (ns : String)
    → 0 < lim.min_cooldown
    → reserve lim b now nss ≡ some (c, k)
    → In ns nss
    → is_busy lim b now ns ≡ false
unfolding reserve
reserve_idle lim b c now nss k ns h e i = any-false (is_busy lim b now) nss ns (ground arith) i

-- A booking and its release give the counters back as they were, and a second release changes
-- nothing.
pub release-reserve :
    (lim : Limits) (b c : Books) (now : ℕ) (nss : List String) (k : Booking)
    → reserve lim b now nss ≡ some (c, k)
    → let (d, j) = release c k in
      (d.in_flight ≡ b.in_flight)
      × ((ns : String) → count_of d.in_flight_ns ns ≡ count_of b.in_flight_ns ns)
      × (release d j ≡ (d, j))
unfolding release
release-reserve lim b c now nss k e =
    let (p, q) = reserve_books lim b c now nss k e in
    (
      ground arith,
      λ ns. ground (
        arith,
        count_of-decrement_all (increment_all b.in_flight_ns nss) nss ns,
        count_of-increment_all b.in_flight_ns nss ns,
      ),
      ground arith,
    )

lookup-stamp_all :
    (m : List (String × ℕ)) (now : ℕ) (nss : List String) (ns : String)
    → lookup ns (stamp_all m now nss) ≡ (if contains nss ns then some now else lookup ns m)
unfolding stamp_all
lookup-stamp_all m now [] ns = refl
lookup-stamp_all m now (k ∷ nss) ns = ground (
  arith,
  lookup-stamp_all (insert k now m) now nss ns,
  lookup-insert k ns now m,
  string_Eq.beq_iff k ns,
)

-- With a cooldown set, a fault recorded as applied at `at` keeps every namespace that it landed in
-- from being booked again before `at` plus the cooldown.
pub cooldown_respected :
    (lim : Limits) (b c : Books) (at now : ℕ) (landed nss : List String) (k : Booking) (ns : String)
    → 0 < lim.min_cooldown
    → In ns landed
    → In ns nss
    → reserve lim (record_apply b at landed) now nss ≡ some (c, k)
    → at + lim.min_cooldown ≤ now
unfolding record_apply is_busy in_cooldown
cooldown_respected lim b c at now landed nss k ns h i j e =
    let idle = reserve_idle lim (record_apply b at landed) c now nss k ns h e j in
    ground (arith, idle, lookup-stamp_all b.last_apply_by_ns at landed ns, In→contains landed ns i)
