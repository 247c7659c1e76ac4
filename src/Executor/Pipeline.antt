-- ===== src/Executor/Pipeline.antt =====
-- pkg/executor/executor.go: Apply, from the manifest to the driver, and Clear.
pub mod Fates
pub mod Settled
pub mod Admitting
pub mod Answers
use simian_agent.Simian.Interfaces.{Answer, answered, failed, cancelled}
use simian_agent.Executor.Safety.{
  validate_safety, validate_schema, Config, error_at, Exclusions, Gated, Outcome, refused, passed,
}
use simian_agent.Executor.History.{
  History, push, push_refused, update_cleared, refusal_worth_remembering,
}
use simian_agent.Lease.Registry.{Registry, register, get}
use simian_agent.Executor.Budget.{Books, Booking, reserve, release, record_apply}
use simian_agent.Executor.Probing.{precheck}
use simian_agent.Prelude.{
  ℕ, String, Bool, true, false, not, Option, none, some, List, [], ◌∷◌, ◌++◌, ◌==◌, if◌then◌else◌,
  nat_Eq, string_Eq,
}
use simian_agent.Executor.Landing.{with_events, run_driver, with_lease, release_in}
use simian_agent.Executor.Host.{
  fault_event, attach_default_probes, narrow_pods, State, resolve_target_labels, Ended, emit, Host,
  ApplyDriver, rejected,
}
use simian_agent.Executor.Pods.{narrow_pod_selector}
use simian_agent.Simian.Targets.{target_namespaces}
use simian_agent.Executor.Scope.{Eligibility}
use simian_agent.Prelude.Assoc.{lookup}
use simian_agent.Lease.Reaper.{forget_quietly}
use simian_agent.Catalog.Tiers.{Net}
use simian_agent.Simian.Types.{
  sot_probes, settle_probes, add_time, ActiveFault, ExecutorError, ProbeSpec, Engine, reason_text,
  RejectionReason, FaultManifest, ExecutorStage, TargetRef, AuditEvent,
}

-- Every target namespace's exclusions can be read.
unfoldable pub exclusions_known : Exclusions → List String → Bool
exclusions_known ex [] = true
exclusions_known ex (ns ∷ nss) =
    let rest = exclusions_known ex nss in elim (ex ns) [ none ↦ false | some l ↦ rest ]

unfoldable pub before_driver : Host → ApplyDriver → FaultManifest → Option ExecutorError
unfolding exclusions_known
before_driver h d m =
    if not (exclusions_known h.exclusions (target_namespaces m))
    then some (error_at ExecutorStage.safety RejectionReason.workload_excluded)
    else elim (h.compat m) [
      | some e ↦ some e
      | none ↦
          if d.is_incompatible m
          then some (error_at ExecutorStage.precheck RejectionReason.target_incompatible)
          else none
    ]

unfoldable pub after_precheck :
    Host → ApplyDriver → State → FaultManifest → Booking → Option ExecutorError → Ended String
unfolding rejected release_in run_driver
after_precheck h d s m k (some e) = rejected (release_in s k) m e
after_precheck h d s m k none = run_driver h d s m k

unfoldable pub after_checks :
    Host → ApplyDriver → State → FaultManifest → Booking → Option ExecutorError → Ended String
unfolding rejected release_in precheck with_events after_precheck
after_checks h d s m k (some e) = rejected (release_in s k) m e
after_checks h d s m k none =
    let (events, error) = precheck h m in after_precheck h d (with_events s events) m k error

unfoldable pub with_driver : Host → State → FaultManifest → Booking → Ended String
unfolding lookup rejected release_in after_checks before_driver
with_driver h s m k = elim (lookup m.engine h.drivers) [
  | none ↦ rejected (release_in s k) m (error_at ExecutorStage.driver RejectionReason.driver_failed)
  | some d ↦ after_checks h d s m k (before_driver h d m)
]

unfoldable pub after_narrowing : Host → State → Booking → Gated → Ended String
unfolding rejected release_in attach_default_probes emit with_driver
after_narrowing h s k g = elim g.error [
  | some e ↦ rejected (release_in s k) g.manifest e
  | none ↦
      let m = attach_default_probes h g.manifest in
      with_driver h (emit s (fault_event "executor.validated" m "")) m k
]

unfoldable pub after_booking :
    Host → State → FaultManifest → Option (Books × Booking) → Ended String
unfolding rejected after_narrowing resolve_target_labels narrow_pods
after_booking h s m none =
    rejected s m (error_at ExecutorStage.safety RejectionReason.budget_exceeded)
after_booking h s m (some (b, k)) =
    after_narrowing h (record s { books = b }) k (narrow_pods h (resolve_target_labels h m))

module _ {Ip : Type 0} {Cidr : Type 0} (net : Net Ip Cidr) (cfg : Config Cidr) where
  unfoldable pub after_safety : Host → State → Gated → Ended String
  unfolding rejected after_booking reserve
  after_safety h s g = elim g.error [
    | some e ↦ rejected s g.manifest e
    | none ↦
        after_booking h s g.manifest
          (reserve cfg.limits s.books h.reserved_at (target_namespaces g.manifest))
  ]

  unfoldable pub after_schema : Host → State → FaultManifest → Option ExecutorError → Ended String
  unfolding rejected after_safety validate_safety
  after_schema h s m (some e) = rejected s m e
  after_schema h s m none = after_safety h s (validate_safety net cfg h.eligibility h.exclusions m)

  unfoldable pub apply_checked : Host → State → FaultManifest → Ended String
  unfolding emit after_schema validate_schema
  apply_checked h s m =
      after_schema h (emit s (fault_event "executor.received" m "")) m (validate_schema m)

  -- The manifest of the record is the caller's, whose spec and targets the call shares.
  unfoldable pub remember_refusal : Host → FaultManifest → Ended String → ExecutorError → State
  unfolding push_refused refusal_worth_remembering reason_text
  remember_refusal h m r e = elim r.state.history [
    | none ↦ r.state
    | some hist ↦
        if refusal_worth_remembering (some e)
        then record r.state {
          history = some (
              push_refused hist (record {
                fault_uid = m.uid;
                manifest = record m { spec = r.manifest.spec; targets = r.manifest.targets };
                refused_at = h.refused_at;
                stage = some e.stage;
                reason = reason_text e.reason;
              }));
        }
        else r.state
  ]

  unfoldable pub state_after : Host → FaultManifest → Ended String → Outcome String → State
  unfolding remember_refusal
  state_after h m r (passed uid) = r.state
  state_after h m r (refused e) = remember_refusal h m r e

  unfoldable pub after_call : Host → FaultManifest → Ended String → State × Outcome String
  unfolding state_after
  after_call h m r = (state_after h m r r.outcome, r.outcome)

  unfoldable pub named : Host → FaultManifest → FaultManifest
  named h m = if m.uid == "" then record m { uid = h.new_uid } else m

  unfoldable pub apply : Host → State → FaultManifest → State × Outcome String
  unfolding named apply_checked after_call
  apply h s m = after_call h (named h m) (apply_checked h s (named h m))

unfoldable pub clear_with : Option ApplyDriver → ActiveFault → State → ℕ → String → State × Bool
unfolding emit with_lease forget_quietly update_cleared
clear_with none af s now fault_uid = (s, false)
clear_with (some d) af s now fault_uid =
    if d.clears af.engine_uid
    then (
      record (with_lease s (forget_quietly s.books.registry fault_uid)) {
        history = elim s.history [
          | none ↦ none
          | some hist ↦ some (update_cleared hist fault_uid now "explicit-clear")
        ];
        events =
            s.events
            ++ record {
              event = "lease.cleared";
              fault_uid = fault_uid;
              plan_id = "";
              mode = "";
              reason = "explicit-clear";
            }
              ∷ [];
      },
      true,
    )
    else (s, false)

-- `false` is an error.
unfoldable pub clear : List (Engine × ApplyDriver) → State → ℕ → String → State × Bool
unfolding clear_with get lookup
clear drivers s now fault_uid = elim (get s.books.registry fault_uid) [
  | none ↦ (s, false)
  | some af ↦ clear_with (lookup af.manifest.engine drivers) af s now fault_uid
]
