-- ===== src/Executor/Pipeline/Admitting.antt =====
-- The manifests that reach a driver through Apply in pkg/executor/executor.go.
use simian_agent.Executor.Safety.{Gated, refused}
use simian_agent.Executor.Budget.{release}
use simian_agent.Prelude.{
  subst, String, refl, sym, ap, inl, inr, Option, none, some, Bool-cases, Option-cases, ◌≡◌, ◌∙◌,
  ◌⊎◌, nat_Eq, string_Eq,
}
use simian_agent.Executor.Pipeline.Settled.{apply_checked-Settled, state_after-books}
use simian_agent.Executor.Pipeline.Fates.{Fate}
use simian_agent.Executor.Budget.Counts.{reserve_books}
use simian_agent.Lease.Registry.{Registry}
use simian_agent.Catalog.Tiers.{Net}
use simian_agent.Executor.Pipeline.{
  named, after_call, RejectionReason, ExecutorStage, error_at, target_namespaces, before_driver,
  after_precheck, Books, lookup, validate_safety, after_schema, after_narrowing, validate_schema,
  Booking, after_booking, after_safety, ExecutorError, FaultManifest, apply_checked, Config,
  with_driver, after_checks,
}
use simian_agent.Executor.Host.{
  fault_event, resolve_target_labels, emit, narrow_pods, attach_default_probes, rejected,
  ApplyDriver, State, Ended, Host,
}
use simian_agent.Executor.Pipeline.{apply}
use simian_agent.Executor.Landing.{
  land, with_events, verify, driver_failed, release_in, run_driver, after_confirm, after_settle,
}
use simian_agent.Executor.Probing.{confirm_injected, precheck, settle}

after_settle-manifest :
    (h : Host) (d : ApplyDriver) (s : State) (m : FaultManifest) (u : String)
    (e : Option ExecutorError)
    → (after_settle h d s m u e).manifest ≡ m
unfolding after_settle
after_settle-manifest h d s m u (some e) = refl
after_settle-manifest h d s m u none = refl

after_confirm-manifest :
    (h : Host) (d : ApplyDriver) (s : State) (m : FaultManifest) (u : String)
    (e : Option ExecutorError)
    → (after_confirm h d s m u e).manifest ≡ m
unfolding after_confirm
after_confirm-manifest h d s m u (some e) = refl
after_confirm-manifest h d s m u none =
    after_settle-manifest h d (with_events s (settle h m).0) m u (settle h m).1

module _ (h : Host) (s : State) (m : FaultManifest) (k : Booking) where
  run_driver-manifest : (d : ApplyDriver) → (run_driver h d s m k).manifest ≡ m
  unfolding run_driver driver_failed verify
  run_driver-manifest d = elim (Option-cases (d.apply m)) [
    | inl p ↦ rw (run_driver, p) refl
    | inr (u, p) ↦
        rw (run_driver, p)
          (after_confirm-manifest h d (with_events (land h s m u k) (confirm_injected d m u).0) m u
            (confirm_injected d m u).1)
  ]

  after_precheck-manifest :
      (d : ApplyDriver) (e : Option ExecutorError) → (after_precheck h d s m k e).manifest ≡ m
  unfolding after_precheck rejected
  after_precheck-manifest d (some e) = refl
  after_precheck-manifest d none = run_driver-manifest d

after_checks-manifest :
    (h : Host) (d : ApplyDriver) (s : State) (m : FaultManifest) (k : Booking)
    (e : Option ExecutorError)
    → (after_checks h d s m k e).manifest ≡ m
unfolding after_checks rejected
after_checks-manifest h d s m k (some e) = refl
after_checks-manifest h d s m k none =
    after_precheck-manifest h (with_events s (precheck h m).0) m k d (precheck h m).1

with_driver-manifest :
    (h : Host) (s : State) (m : FaultManifest) (k : Booking) → (with_driver h s m k).manifest ≡ m
unfolding with_driver rejected
with_driver-manifest h s m k = elim (Option-cases (lookup m.engine h.drivers)) [
  | inl p ↦ rw (with_driver, p) refl
  | inr (d, p) ↦ rw (with_driver, p) (after_checks-manifest h d s m k (before_driver h d m))
]

after_narrowing-manifest :
    (h : Host) (s : State) (k : Booking) (g : Gated)
    → g.error ≡ none
    → (after_narrowing h s k g).manifest ≡ attach_default_probes h g.manifest
unfolding after_narrowing
after_narrowing-manifest h s k g p =
    let m = attach_default_probes h g.manifest in
    rw p (with_driver-manifest h (emit s (fault_event "executor.validated" m "")) m k)

release_registry : (c : Books) (k : Booking) → (release c k).0.registry ≡ c.registry
unfolding release
release_registry c k = elim (Bool-cases k.done) [
  | inl over ↦ rw over refl
  | inr open_yet ↦ rw open_yet refl
]

-- The call refuses, and the registry is as it was.
abbrev pub Refuses : Registry → Ended String → Type 0
Refuses before r =
    ((e : ExecutorError) × (r.outcome ≡ refused e)) × (r.state.books.registry ≡ before)

after_narrowing-Refuses :
    (h : Host) (s : State) (k : Booking) (g : Gated) (e : ExecutorError)
    → g.error ≡ some e
    → Refuses s.books.registry (after_narrowing h s k g)
unfolding after_narrowing rejected emit release_in
after_narrowing-Refuses h s k g e p = rw p ((e, refl), release_registry s.books k)

module _ {Ip : Type 0} {Cidr : Type 0} (net : Net Ip Cidr) (cfg : Config Cidr) (h : Host) where
  -- The manifest behind the safety gates, and behind the narrowing of its pod selector.
  abbrev pub checked : FaultManifest → Gated
  checked m = validate_safety net cfg h.eligibility h.exclusions m

  abbrev pub narrowed : FaultManifest → Gated
  narrowed m = narrow_pods h (resolve_target_labels h (checked m).manifest)

  -- What the driver is given.
  abbrev pub prepared : FaultManifest → FaultManifest
  prepared m = attach_default_probes h (narrowed m).manifest

  pub record Admitted (m : FaultManifest) : Type 0 where
    pub schema : validate_schema m ≡ none
    pub safety : (checked m).error ≡ none
    pub pods : (narrowed m).error ≡ none

  abbrev Gates : Registry → FaultManifest → Ended String → Type 0
  Gates before m r = Refuses before r ⊎ (Admitted m × (r.manifest ≡ prepared m))

  after_booking-Gates :
      (s : State) (before : Registry) (m : FaultManifest) (b : Option (Books × Booking))
      → s.books.registry ≡ before
      → ((c : Books) (k : Booking) → b ≡ some (c, k) → c.registry ≡ before)
      → validate_schema m ≡ none
      → (checked m).error ≡ none
      → Gates before m (after_booking h s (checked m).manifest b)
  unfolding after_booking rejected emit
  after_booking-Gates s before m none same keeps schema safety =
      inl ((error_at ExecutorStage.safety RejectionReason.budget_exceeded, refl), same)
  after_booking-Gates s before m (some (c, k)) same keeps schema safety =
      let s1 : State = record s { books = c } in
      elim (Option-cases (narrowed m).error) [
        | inl p ↦ inr (
          record { schema = schema; safety = safety; pods = p },
          after_narrowing-manifest h s1 k (narrowed m) p,
        )
        | inr (e, p) ↦ inl (
            subst (λ r. Refuses r (after_narrowing h s1 k (narrowed m))) (keeps c k refl)
              (after_narrowing-Refuses h s1 k (narrowed m) e p))
      ]

  after_safety-Gates :
      (s : State) (m : FaultManifest)
      → validate_schema m ≡ none
      → Gates s.books.registry m (after_safety net cfg h s (checked m))
  unfolding after_safety rejected emit
  after_safety-Gates s m schema = elim (Option-cases (checked m).error) [
    | inl p ↦ rw p (
        after_booking-Gates s s.books.registry m _ refl
          (λ c k q.
            ap (λ (x : Books). x.registry)
              (reserve_books cfg.limits s.books c h.reserved_at
                (target_namespaces (checked m).manifest) k q).0)
          schema p)
    | inr (e, p) ↦ inl (rw p ((e, refl), refl))
  ]

  apply_checked-Gates :
      (s : State) (m : FaultManifest) → Gates s.books.registry m (apply_checked net cfg h s m)
  unfolding apply_checked after_schema rejected emit
  apply_checked-Gates s m = elim (Option-cases (validate_schema m)) [
    | inl p ↦ rw p (after_safety-Gates (emit s (fault_event "executor.received" m "")) m p)
    | inr (e, p) ↦ inl (rw p ((e, refl), refl))
  ]

  -- A call of Apply refuses and leaves the registry alone; or the manifest passed the schema, every
  -- safety gate and the narrowing of its pod selector, and what these made of it, with the default
  -- probes, ended in one of the ways of Fate: accepted and leased, backed out, or left to the reaper.
  pub apply-Admitted :
      (s : State) (m : FaultManifest)
      → let n = named net cfg h m in
        let (t, o) = apply net cfg h s m in
        (((e : ExecutorError) × (o ≡ refused e)) × (t.books.registry ≡ s.books.registry))
        ⊎ (Admitted n × Fate h s.books.registry t.books.registry (prepared n) o)
  unfolding apply after_call
  apply-Admitted s m =
      let n = named net cfg h m in
      let r = apply_checked net cfg h s n in
      let same = state_after-books net cfg h n r r.outcome in
      elim (apply_checked-Gates s n) [
        | inl (refuses, registry) ↦ inl (refuses, ap (λ (b : Books). b.registry) same ∙ registry)
        | inr (admitted, given) ↦ inr (
          admitted,
          subst (λ (b : Books). Fate h s.books.registry b.registry (prepared n) r.outcome)
              (sym same)
              (subst (λ f. Fate h s.books.registry r.state.books.registry f r.outcome) given
                (apply_checked-Settled net cfg h s n).0),
        )
      ]
