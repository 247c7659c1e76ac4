-- ===== src/Executor/Budget/Capped.antt =====
-- The caps of pkg/executor/executor.go, when several applies run interleaved.
use simian_agent.Prelude.{subst, length, ℕ, String, refl, sym, arith, [], ◌+◌, ◌≤◌, ◌<◌}
use simian_agent.Executor.Budget.Stepping.{registry-Inv, leave-Inv, stamp-Inv, lease-Inv, book-Inv}
use simian_agent.Executor.Budget.Counting.{Inv, waiting, holders}
use simian_agent.Lease.Registry.{Registry}
use simian_agent.Lease.Registry.Sizes.{length-register, length-forget, length-heartbeat}
use simian_agent.Executor.Budget.Threads.{
  System, Step, book, lease, stamp, leave, end, beat, Reach, here, next,
}
use simian_agent.Executor.Budget.{Limits, count_of}

Step-Inv :
    (lim : Limits) (bound : ℕ) (above : lim.max_concurrent_faults ≤ bound) {s t : System}
    → Step lim s t
    → Inv lim bound s
    → Inv lim bound t
Step-Inv lim bound above {s} (book now nss b k e p) inv =
    subst (Inv lim bound) (sym p) (book-Inv lim bound above s inv now nss b k e)
Step-Inv lim bound above {s} (lease before after k now deadline uid engine_uid m e p) inv =
    subst (Inv lim bound) (sym p) (
      lease-Inv lim bound above s inv before after k _ e
        (length-register s.books.registry now uid engine_uid m deadline))
Step-Inv lim bound above {s} (stamp now nss p) inv =
    subst (Inv lim bound) (sym p) (stamp-Inv lim bound above s inv now nss)
Step-Inv lim bound above {s} (leave before after h e p) inv =
    subst (Inv lim bound) (sym p) (leave-Inv lim bound above s inv before after h e)
Step-Inv lim bound above {s} (end uid r e p) inv =
    subst (Inv lim bound) (sym p)
      (registry-Inv lim bound above s inv r (length-forget s.books.registry r uid e))
Step-Inv lim bound above {s} (beat now uid p) inv = subst (Inv lim bound) (sym p) (
    registry-Inv lim bound above s inv _ (omega (arith, length-heartbeat s.books.registry now uid)))

pub Reach-Inv :
    (lim : Limits) (bound : ℕ) (above : lim.max_concurrent_faults ≤ bound) {s t : System}
    → Inv lim bound s
    → Reach lim s t
    → Inv lim bound t
Reach-Inv lim bound above inv here = inv
Reach-Inv lim bound above inv (next r st) =
    Step-Inv lim bound above st (Reach-Inv lim bound above inv r)

-- A start where no apply is under way; the leases that were adopted may be over the cap.
abbrev pub idle_with : Registry → System
idle_with r = record {
  books = record { registry = r; in_flight = 0; in_flight_ns = []; last_apply_by_ns = [] };
  threads = [];
}

idle-Inv :
    (lim : Limits) (bound : ℕ) (r : Registry) → length r.items ≤ bound → Inv lim bound (idle_with r)
unfolding count_of
idle-Inv lim bound r h = record {
  open_bookings = tt;
  counted = refl;
  counted_ns = λ ns. refl;
  capped = λ _. omega arith;
  alone = λ _ ns. omega arith;
}

-- With a cap set, no interleaving of applies, clears and sweeps leaves more leases than a bound that
-- is at least the cap and at least the leases at the start: the cap itself, if the start is within
-- it. The applies that hold a booking and have no lease yet are within the bound too.
pub leases_capped :
    (lim : Limits) (bound : ℕ) (r : Registry) (t : System)
    → 0 < lim.max_concurrent_faults
    → lim.max_concurrent_faults ≤ bound
    → length r.items ≤ bound
    → Reach lim (idle_with r) t
    → length t.books.registry.items + waiting t.threads ≤ bound
leases_capped lim bound r t h above start reach =
    (Reach-Inv lim bound above (idle-Inv lim bound r start) reach).capped h

-- With a cooldown set, no interleaving ever has two calls of Apply against one namespace that hold
-- their bookings. A call gives its booking back when the lease is registered, or when it refuses
-- before; the checks after that are outside of it.
pub applies_disjoint :
    (lim : Limits) (r : Registry) (t : System) (ns : String)
    → 0 < lim.min_cooldown
    → Reach lim (idle_with r) t
    → holders ns t.threads ≤ 1
applies_disjoint lim r t ns h reach =
    let bound : ℕ = lim.max_concurrent_faults + length r.items in
    (Reach-Inv lim bound (omega arith) (idle-Inv lim bound r (omega arith)) reach).alone h ns
