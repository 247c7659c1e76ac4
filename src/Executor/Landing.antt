-- ===== src/Executor/Landing.antt =====
-- pkg/executor/executor.go: the part of Apply from the driver on: the lease, the release, the gates
-- behind it, and the back-out.
use simian_agent.Executor.Safety.{error_at, refused, passed}
use simian_agent.Executor.History.{push}
use simian_agent.Lease.Registry.{Registry, register}
use simian_agent.Executor.Budget.{Booking, release, record_apply}
use simian_agent.Prelude.{String, Option, none, some, List, ◌++◌, if◌then◌else◌}
use simian_agent.Executor.Host.{fault_event, Ended, ApplyDriver, State, Host, emit}
use simian_agent.Executor.Probing.{settle, confirm_injected}
use simian_agent.Simian.Targets.{target_namespaces}
use simian_agent.Lease.Reaper.{forget_quietly}
use simian_agent.Simian.Types.{
  add_time, ExecutorError, reason_text, RejectionReason, FaultManifest, ExecutorStage, AuditEvent,
}

unfoldable pub with_events : State → List AuditEvent → State
with_events s evs = record s { events = s.events ++ evs }

unfoldable pub with_lease : State → Registry → State
with_lease s r = record s { books = record s.books { registry = r } }

-- When the clear fails the lease stays, for the reaper.
unfoldable pub abandon : ApplyDriver → State → FaultManifest → String → ExecutorError → State
unfolding emit with_lease forget_quietly reason_text
abandon d s m engine_uid cause =
    emit (if d.clears engine_uid then with_lease s (forget_quietly s.books.registry m.uid) else s)
      (fault_event "lease.cleared" m (reason_text cause.reason))

-- The lease, the cooldown and the release, after the driver took the fault.
unfoldable pub land : Host → State → FaultManifest → String → Booking → State
unfolding with_lease emit register record_apply release
land h s m engine_uid k =
    let leased =
      with_lease s
        (register s.books.registry h.registered_at m.uid engine_uid m
          (add_time h.applied_at m.duration)).0 in
    let recorded = record_apply leased.books h.recorded_at (target_namespaces m) in
    let released = record leased { books = (release recorded k).0 } in
    emit (emit released (fault_event "driver.applied" m "")) (fault_event "lease.registered" m "")

unfoldable pub remember : Host → State → FaultManifest → State
unfolding push
remember h s m = elim s.history [
  | none ↦ s
  | some hist ↦ record s {
    history = some (
        push hist (record {
          fault_uid = m.uid;
          manifest = m;
          applied_at = h.applied_at;
          cleared_at = 0;
          clear_reason = "";
        }));
  }
]

unfoldable pub after_settle :
    Host → ApplyDriver → State → FaultManifest → String → Option ExecutorError → Ended String
unfolding abandon remember
after_settle h d s m engine_uid (some e) = record {
  state = abandon d s m engine_uid e;
  manifest = m;
  outcome = refused e;
}
after_settle h d s m engine_uid none = record {
  state = remember h s m;
  manifest = m;
  outcome = passed m.uid;
}

unfoldable pub after_confirm :
    Host → ApplyDriver → State → FaultManifest → String → Option ExecutorError → Ended String
unfolding abandon settle with_events after_settle
after_confirm h d s m engine_uid (some e) = record {
  state = abandon d s m engine_uid e;
  manifest = m;
  outcome = refused e;
}
after_confirm h d s m engine_uid none =
    let (events, error) = settle h m in after_settle h d (with_events s events) m engine_uid error

-- The fault is in the cluster and leased; what follows decides whether it counts.
unfoldable pub verify : Host → ApplyDriver → State → FaultManifest → String → Ended String
unfolding confirm_injected with_events after_confirm
verify h d s m engine_uid =
    let (events, error) = confirm_injected d m engine_uid in
    after_confirm h d (with_events s events) m engine_uid error

-- The deferred release.
unfoldable pub release_in : State → Booking → State
unfolding release
release_in s k = record s { books = (release s.books k).0 }

unfoldable pub driver_failed : State → FaultManifest → Ended String
unfolding emit reason_text
driver_failed s m = record {
  state = emit s (fault_event "driver.failed" m (reason_text RejectionReason.driver_failed));
  manifest = m;
  outcome = refused (error_at ExecutorStage.driver RejectionReason.driver_failed);
}

-- The booking is given back on every path: here when the driver refuses, in `land` when it does not.
unfoldable pub run_driver : Host → ApplyDriver → State → FaultManifest → Booking → Ended String
unfolding land verify release_in driver_failed
run_driver h d s m k = elim (d.apply m) [
  | none ↦ driver_failed (release_in s k) m
  | some engine_uid ↦ verify h d (land h s m engine_uid k) m engine_uid
]
