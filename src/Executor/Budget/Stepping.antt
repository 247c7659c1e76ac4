-- ===== src/Executor/Budget/Stepping.antt =====
-- The invariant of the budget (pkg/executor/executor.go), kept by each step of an apply.
use simian_agent.Prelude.{
  subst, length, contains, length-append, contains→In, ℕ, suc, String, ap, true, false, some, List,
  arith, ◌≤◌, ◌<◌, ◌≡◌, ◌∙◌, ◌∷◌, ◌++◌, nat_Eq, string_Eq,
}
use simian_agent.Executor.Budget.Counting.{
  holders-append, waiting-append, booked-append, booked, AllOpen-append, AllOpen, AllOpen-split,
  waiting-le-length, holders-le-booked, Inv, waiting, holders,
}
use simian_agent.Lease.Registry.{Registry}
use simian_agent.Executor.Budget.Counts.{
  occurrences, reserve_books, reserve_room, reserve_idle, count_of-increment_all,
  count_of-decrement_all,
}
use simian_agent.Executor.Budget.Threads.{Thread, System, with_registry}
use simian_agent.Executor.Budget.{
  Limits, Books, Booking, count_of, is_busy, reserve, release, record_apply,
}

module _ (lim : Limits) (bound : ℕ) (above : lim.max_concurrent_faults ≤ bound) (s : System)
    (inv : Inv lim bound s) where
  booked_once :
      (now : ℕ) (nss : List String) (b : Books) (k : Booking) (ns : String)
      → 0 < lim.min_cooldown
      → reserve lim s.books now nss ≡ some (b, k)
      → contains nss ns ≡ true
      → holders ns s.threads ≡ 0
  unfolding is_busy
  booked_once now nss b k ns h e c =
      let idle = reserve_idle lim s.books b now nss k ns h e (contains→In nss ns c) in
      ground (arith, idle, inv.counted_ns ns, holders-le-booked ns s.threads)

  pub book-Inv :
      (now : ℕ) (nss : List String) (b : Books) (k : Booking)
      → reserve lim s.books now nss ≡ some (b, k)
      → Inv lim bound
          (record { books = b; threads = record { booking = k; is_leased = false } ∷ s.threads })
  book-Inv now nss b k e =
      let (p, q) = reserve_books lim s.books b now nss k e in
      let kn : k.namespaces ≡ nss = ap (λ (x : Booking). x.namespaces) q in
      record {
        open_bookings = (ap (λ (x : Booking). x.done) q, inv.open_bookings);
        counted = ap (λ (x : Books). x.in_flight) p ∙ ap suc inv.counted;
        counted_ns = λ ns.
            ap (λ (x : Books). count_of x.in_flight_ns ns) p
            ∙ omega (
              arith,
              count_of-increment_all s.books.in_flight_ns nss ns,
              inv.counted_ns ns,
              ap (occurrences ns) kn,
            );
        capped = λ h. omega (
          arith,
          reserve_room lim s.books b now nss k h e,
          inv.counted,
          waiting-le-length s.threads,
          ap (λ (x : Books). length x.registry.items) p,
        );
        alone = λ h ns. rw kn (ground (arith, booked_once now nss b k ns h e, inv.alone h ns));
      }

  pub lease-Inv :
      (before after : List Thread) (k : Booking) (r : Registry)
      → s.threads ≡ before ++ record { booking = k; is_leased = false } ∷ after
      → length r.items ≤ suc (length s.books.registry.items)
      → Inv lim bound (record {
        books = with_registry s.books r;
        threads = before ++ record { booking = k; is_leased = true } ∷ after;
      })
  lease-Inv before after k r e grown =
      let old : Thread = record { booking = k; is_leased = false } in
      let new : Thread = record { booking = k; is_leased = true } in
      let (ob, oa) = AllOpen-split before (old ∷ after) (subst AllOpen e inv.open_bookings) in
      record {
        open_bookings = AllOpen-append before (new ∷ after) ob oa;
        counted = omega (
          arith,
          inv.counted,
          ap length e,
          length-append before (old ∷ after),
          length-append before (new ∷ after),
        );
        counted_ns = λ ns. omega (
          arith,
          inv.counted_ns ns,
          ap (booked ns) e,
          booked-append ns before (old ∷ after),
          booked-append ns before (new ∷ after),
        );
        capped = λ h. omega (
          arith,
          inv.capped h,
          ap waiting e,
          grown,
          waiting-append before (old ∷ after),
          waiting-append before (new ∷ after),
        );
        alone = λ h ns. omega (
          arith,
          inv.alone h ns,
          ap (holders ns) e,
          holders-append ns before (old ∷ after),
          holders-append ns before (new ∷ after),
        );
      }

  pub leave-Inv :
      (before after : List Thread) (x : Thread)
      → s.threads ≡ before ++ x ∷ after
      → Inv lim bound (record { books = (release s.books x.booking).0; threads = before ++ after })
  unfolding release
  leave-Inv before after x e =
      let (ob, oa) = AllOpen-split before (x ∷ after) (subst AllOpen e inv.open_bookings) in
      record {
        open_bookings = AllOpen-append before after ob oa.1;
        counted = rw oa.0 (
            omega (
              arith,
              inv.counted,
              ap length e,
              length-append before (x ∷ after),
              length-append before after,
            ));
        counted_ns = λ ns. rw oa.0 (
            omega (
              arith,
              inv.counted_ns ns,
              ap (booked ns) e,
              count_of-decrement_all s.books.in_flight_ns x.booking.namespaces ns,
              booked-append ns before (x ∷ after),
              booked-append ns before after,
            ));
        capped = λ h. rw oa.0 (
            ground (
              arith,
              inv.capped h,
              ap waiting e,
              waiting-append before (x ∷ after),
              waiting-append before after,
            ));
        alone = λ h ns. ground (
          arith,
          inv.alone h ns,
          ap (holders ns) e,
          holders-append ns before (x ∷ after),
          holders-append ns before after,
        );
      }

  pub registry-Inv :
      (r : Registry)
      → length r.items ≤ length s.books.registry.items
      → Inv lim bound (record s { books = with_registry s.books r })
  registry-Inv r fewer = record {
    open_bookings = inv.open_bookings;
    counted = inv.counted;
    counted_ns = inv.counted_ns;
    capped = λ h. omega (arith, inv.capped h);
    alone = inv.alone;
  }

  pub stamp-Inv :
      (now : ℕ) (nss : List String)
      → Inv lim bound (record s { books = record_apply s.books now nss })
  unfolding record_apply
  stamp-Inv now nss = record {
    open_bookings = inv.open_bookings;
    counted = inv.counted;
    counted_ns = inv.counted_ns;
    capped = inv.capped;
    alone = inv.alone;
  }
