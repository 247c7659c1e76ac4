-- ===== src/Executor/Pipeline/Fates.antt =====
-- The ends that a call of Apply in pkg/executor/executor.go comes to once the driver has the fault.
use simian_agent.Executor.Safety.{Outcome, refused, passed}
use simian_agent.Prelude.{
  String, refl, ap, inl, inr, true, false, Option, none, some, Bool-cases, Option-cases, ◌≡◌, ◌∙◌,
  nat_Eq, string_Eq,
}
use simian_agent.Executor.Budget.{Books}
use simian_agent.Executor.Host.{emit, Ended, State, ApplyDriver, Host}
use simian_agent.Executor.Pipeline.{
  forget_quietly, before_driver, add_time, register, ExecutorError, lookup, FaultManifest, Registry,
}
use simian_agent.Executor.Landing.{
  with_events, with_lease, verify, after_settle, after_confirm, abandon, remember,
}
use simian_agent.Executor.Probing.{settle, precheck, confirm_injected}

-- The driver took the manifest, after every check that stands before it passed.
unfoldable pub Took : Host → ApplyDriver → FaultManifest → String → Type 0
Took h d m u =
    (lookup m.engine h.drivers ≡ some d)
    × (before_driver h d m ≡ none)
    × ((precheck h m).1 ≡ none)
    × (d.apply m ≡ some u)

-- The registry with the fault's lease.
abbrev pub leased : Host → Registry → FaultManifest → String → Registry
leased h r m u = (register r h.registered_at m.uid u m (add_time h.applied_at m.duration)).0

-- The four ends of a call, by the registry before and after it. A fault that the driver took is
-- leased, unless it was cleared again.
pub data Fate (h : Host) (before : Registry) (after : Registry) (m : FaultManifest)
    (o : Outcome String) : Type 0 where
  turned_away : (e : ExecutorError) → o ≡ refused e → after ≡ before → Fate h before after m o
  accepted :
      (d : ApplyDriver) (u : String)
      → Took h d m u
      → (confirm_injected d m u).1 ≡ none
      → (settle h m).1 ≡ none
      → o ≡ passed m.uid
      → after ≡ leased h before m u
      → Fate h before after m o
  backed_out :
      (d : ApplyDriver) (u : String) (e : ExecutorError)
      → Took h d m u
      → o ≡ refused e
      → d.clears u ≡ true
      → after ≡ forget_quietly (leased h before m u) m.uid
      → Fate h before after m o
  left_to_reaper :
      (d : ApplyDriver) (u : String) (e : ExecutorError)
      → Took h d m u
      → o ≡ refused e
      → d.clears u ≡ false
      → after ≡ leased h before m u
      → Fate h before after m o

abbrev pub SameFlight : Books → Books → Type 0
SameFlight a b = (b.in_flight ≡ a.in_flight) × (b.in_flight_ns ≡ a.in_flight_ns)

pub record Fine (h : Host) (before : Registry) (b : Books) (r : Ended String) : Type 0 where
  pub fate : Fate h before r.state.books.registry r.manifest r.outcome
  pub flight : SameFlight b r.state.books

remember-books : (h : Host) (s : State) (m : FaultManifest) → (remember h s m).books ≡ s.books
unfolding remember
remember-books h s m = elim (Option-cases s.history) [
  | inl p ↦ rw p refl
  | inr (hist, p) ↦ rw p refl
]

module _ (h : Host) (before : Registry) (d : ApplyDriver) (m : FaultManifest) (u : String)
    (took : Took h d m u) where
  abandon-Fine :
      (s : State) (e : ExecutorError)
      → s.books.registry ≡ leased h before m u
      → Fine h before s.books
          (record { state = abandon d s m u e; manifest = m; outcome = refused e })
  unfolding abandon emit with_lease
  abandon-Fine s e p = elim (Bool-cases (d.clears u)) [
    | inl gone ↦ record {
      fate = backed_out d u e took refl gone (rw (gone, p) refl);
      flight = rw gone (refl, refl);
    }
    | inr stays ↦ record {
      fate = left_to_reaper d u e took refl stays (rw stays p);
      flight = rw stays (refl, refl);
    }
  ]

  after_settle-Fine :
      (s : State) (error : Option ExecutorError)
      → s.books.registry ≡ leased h before m u
      → (confirm_injected d m u).1 ≡ none
      → (settle h m).1 ≡ error
      → Fine h before s.books (after_settle h d s m u error)
  unfolding after_settle
  after_settle-Fine s (some e) p c q = abandon-Fine s e p
  after_settle-Fine s none p c q =
      let same = remember-books h s m in
      record {
        fate = accepted d u took c q refl (ap (λ (b : Books). b.registry) same ∙ p);
        flight = (ap (λ (b : Books). b.in_flight) same, ap (λ (b : Books). b.in_flight_ns) same);
      }

  after_confirm-Fine :
      (s : State) (error : Option ExecutorError)
      → s.books.registry ≡ leased h before m u
      → (confirm_injected d m u).1 ≡ error
      → Fine h before s.books (after_confirm h d s m u error)
  unfolding after_confirm with_events
  after_confirm-Fine s (some e) p c = abandon-Fine s e p
  after_confirm-Fine s none p c =
      after_settle-Fine (with_events s (settle h m).0) (settle h m).1 p c refl

  pub verify-Fine :
      (s : State)
      → s.books.registry ≡ leased h before m u
      → Fine h before s.books (verify h d s m u)
  unfolding verify with_events
  verify-Fine s p =
      after_confirm-Fine (with_events s (confirm_injected d m u).0) (confirm_injected d m u).1 p
        refl
