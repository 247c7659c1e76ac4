-- ===== src/Executor/Pipeline/Settled.antt =====
-- How a call of Apply in pkg/executor/executor.go ends: what becomes of the lease, and of the booking.
use simian_agent.Executor.Safety.{Outcome, refused, passed, Gated}
use simian_agent.Prelude.{
  subst, drop, keep, ℕ, String, refl, sym, ap, inl, inr, false, Option, none, some, List,
  Bool-cases, Option-cases, ◌≡◌, ◌∙◌, nat_Eq, string_Eq,
}
use simian_agent.Executor.Pipeline.Fates.{verify-Fine, Fate, Fine, Took, turned_away}
use simian_agent.Executor.Budget.Counts.{release-reserve, reserve_books}
use simian_agent.Executor.Budget.{reserve, Limits, count_of, record_apply, release, Booking, Books}
use simian_agent.Executor.Host.{
  narrow_pods, resolve_target_labels, fault_event, attach_default_probes, emit, rejected, Ended,
  State, ApplyDriver, Host,
}
use simian_agent.Executor.Pipeline.{apply}
use simian_agent.Executor.Pipeline.{
  state_after, validate_safety, validate_schema, refusal_worth_remembering, target_namespaces,
  named, remember_refusal, after_schema, apply_checked, RejectionReason, after_call, after_safety,
  Config, ExecutorStage, after_checks, after_precheck, error_at, with_driver, Net, after_booking,
  after_narrowing, before_driver, ExecutorError, lookup, FaultManifest,
}
use simian_agent.Executor.Landing.{
  land, release_in, with_events, with_lease, verify, driver_failed, run_driver,
}
use simian_agent.Executor.Probing.{precheck}

abbrev booking : List String → Booking
booking nss = record { namespaces = nss; done = false }

-- The books once the booking is given back.
abbrev pub given_back : State → List String → Books
given_back s nss = (release s.books (booking nss)).0

rejected-Fine :
    (h : Host) (s : State) (nss : List String) (m : FaultManifest) (e : ExecutorError)
    → Fine h s.books.registry (given_back s nss) (rejected (release_in s (booking nss)) m e)
unfolding rejected emit release_in release
rejected-Fine h s nss m e = record { fate = turned_away e refl refl; flight = (refl, refl) }

module _ (h : Host) (s : State) (nss : List String) (d : ApplyDriver) (m : FaultManifest) where
  land-Fine :
      (u : String)
      → Took h d m u
      → Fine h s.books.registry (given_back s nss) (verify h d (land h s m u (booking nss)) m u)
  unfolding land with_lease emit record_apply release
  land-Fine u took =
      let f = verify-Fine h s.books.registry d m u took (land h s m u (booking nss)) refl in
      record { fate = f.fate; flight = f.flight }

  run_driver-Fine :
      lookup m.engine h.drivers ≡ some d
      → before_driver h d m ≡ none
      → (precheck h m).1 ≡ none
      → Fine h s.books.registry (given_back s nss) (run_driver h d s m (booking nss))
  unfolding run_driver driver_failed release_in release emit Took
  run_driver-Fine found checked prechecked = elim (Option-cases (d.apply m)) [
    | inl p ↦
        rw (run_driver, p)
          (record {
            fate =
                turned_away (error_at ExecutorStage.driver RejectionReason.driver_failed) refl refl;
            flight = (refl, refl);
          })
    | inr (u, p) ↦ rw (run_driver, p) (land-Fine u (found, checked, prechecked, p))
  ]

  after_precheck-Fine :
      (error : Option ExecutorError)
      → lookup m.engine h.drivers ≡ some d
      → before_driver h d m ≡ none
      → (precheck h m).1 ≡ error
      → Fine h s.books.registry (given_back s nss) (after_precheck h d s m (booking nss) error)
  unfolding after_precheck
  after_precheck-Fine none found checked p = run_driver-Fine found checked p
  after_precheck-Fine (some e) found checked p = rejected-Fine h s nss m e

module _ (h : Host) (s : State) (nss : List String) where
  after_checks-Fine :
      (d : ApplyDriver) (m : FaultManifest) (error : Option ExecutorError)
      → lookup m.engine h.drivers ≡ some d
      → before_driver h d m ≡ error
      → Fine h s.books.registry (given_back s nss) (after_checks h d s m (booking nss) error)
  unfolding after_checks with_events
  after_checks-Fine d m none found p =
      after_precheck-Fine h (with_events s (precheck h m).0) nss d m (precheck h m).1 found p refl
  after_checks-Fine d m (some e) found p = rejected-Fine h s nss m e

  with_driver-Fine :
      (m : FaultManifest)
      → Fine h s.books.registry (given_back s nss) (with_driver h s m (booking nss))
  unfolding with_driver
  with_driver-Fine m = elim (Option-cases (lookup m.engine h.drivers)) [
    | inl p ↦ rw (with_driver, p) (rejected-Fine h s nss m _)
    | inr (d, p) ↦ rw (with_driver, p) (after_checks-Fine d m (before_driver h d m) p refl)
  ]

after_narrowing-Fine :
    (h : Host) (s : State) (nss : List String) (g : Gated)
    → Fine h s.books.registry (given_back s nss) (after_narrowing h s (booking nss) g)
unfolding after_narrowing emit
after_narrowing-Fine h s nss g = elim (Option-cases g.error) [
  | inl p ↦
      let m = attach_default_probes h g.manifest in
      rw p (with_driver-Fine h (emit s (fault_event "executor.validated" m "")) nss m)
  | inr (e, p) ↦ rw p (rejected-Fine h s nss g.manifest e)
]

-- The counters of the applies in flight are as they were.
abbrev pub Balanced : Books → Books → Type 0
Balanced a b =
    (b.in_flight ≡ a.in_flight)
    × ((ns : String) → count_of b.in_flight_ns ns ≡ count_of a.in_flight_ns ns)

-- The end of the call, and the counters.
abbrev pub Settled : Host → Books → Ended String → Type 0
Settled h b r =
    Fate h b.registry r.state.books.registry r.manifest r.outcome × Balanced b r.state.books

refused-Settled :
    (h : Host) (s : State) (m : FaultManifest) (e : ExecutorError)
    → Settled h s.books (rejected s m e)
unfolding rejected emit
refused-Settled h s m e = (turned_away e refl refl, (refl, λ ns. refl))

after_booking-Settled :
    (h : Host) (s : State) (lim : Limits) (now : ℕ) (nss : List String) (m : FaultManifest)
    → Settled h s.books (after_booking h s m (reserve lim s.books now nss))
unfolding after_booking
after_booking-Settled h s lim now nss m = elim (Option-cases (reserve lim s.books now nss)) [
  | inl p ↦ rw p (refused-Settled h s m _)
  | inr ((b, k), p) ↦ rw p (booked b k p)
]
  where
    booked :
        (b : Books) (k : Booking)
        → reserve lim s.books now nss ≡ some (b, k)
        → Settled h s.books (after_booking h s m (some (b, k)))
    booked b k p =
        let (books, key) = reserve_books lim s.books b now nss k p in
        let (flight, counts, twice) = release-reserve lim s.books b now nss k p in
        let g = narrow_pods h (resolve_target_labels h m) in
        let fine = after_narrowing-Fine h (record s { books = b }) nss g in
        let same : b.registry ≡ s.books.registry = ap (λ (x : Books). x.registry) books in
        let end =
          subst
            (λ x.
              Fine h x (given_back (record s { books = b }) nss)
                (after_narrowing h (record s { books = b }) (booking nss) g))
            same fine in
        let end2 =
          subst
            (λ x.
              Fine h s.books.registry (release b x).0
                (after_narrowing h (record s { books = b }) x g))
            (sym key) end in
        (
          end2.fate,
          (end2.flight.0 ∙ flight, λ ns. ap (λ x. count_of x ns) end2.flight.1 ∙ counts ns),
        )

module _ {Ip : Type 0} {Cidr : Type 0} (net : Net Ip Cidr) (cfg : Config Cidr) (h : Host) where
  after_safety-Settled : (s : State) (g : Gated) → Settled h s.books (after_safety net cfg h s g)
  unfolding after_safety
  after_safety-Settled s g = elim (Option-cases g.error) [
    | inl p ↦ rw p (
        after_booking-Settled h s cfg.limits h.reserved_at (target_namespaces g.manifest)
          g.manifest)
    | inr (e, p) ↦ rw p (refused-Settled h s g.manifest e)
  ]

  after_schema-Settled :
      (s : State) (m : FaultManifest) (error : Option ExecutorError)
      → Settled h s.books (after_schema net cfg h s m error)
  unfolding after_schema
  after_schema-Settled s m (some e) = refused-Settled h s m e
  after_schema-Settled s m none =
      after_safety-Settled s (validate_safety net cfg h.eligibility h.exclusions m)

  pub apply_checked-Settled :
      (s : State) (m : FaultManifest) → Settled h s.books (apply_checked net cfg h s m)
  unfolding apply_checked emit
  apply_checked-Settled s m =
      after_schema-Settled (emit s (fault_event "executor.received" m "")) m (validate_schema m)

  remember_refusal-books :
      (m : FaultManifest) (r : Ended String) (e : ExecutorError)
      → (remember_refusal net cfg h m r e).books ≡ r.state.books
  unfolding remember_refusal
  remember_refusal-books m r e = elim (Option-cases r.state.history) [
    | inl p ↦ rw p refl
    | inr (hist, p) ↦ elim (Bool-cases (refusal_worth_remembering (some e))) [
      | inl keep ↦ rw (p, keep) refl
      | inr drop ↦ rw (p, drop) refl
    ]
  ]

  pub state_after-books :
      (m : FaultManifest) (r : Ended String) (o : Outcome String)
      → (state_after net cfg h m r o).books ≡ r.state.books
  unfolding state_after
  state_after-books m r (passed uid) = refl
  state_after-books m r (refused e) = remember_refusal-books m r e

  pub apply-Balanced :
      (s : State) (m : FaultManifest) → Balanced s.books (apply net cfg h s m).0.books
  unfolding apply after_call
  apply-Balanced s m =
      let r = apply_checked net cfg h s (named net cfg h m) in
      subst (Balanced s.books) (sym (state_after-books (named net cfg h m) r r.outcome))
        (apply_checked-Settled s (named net cfg h m)).1
