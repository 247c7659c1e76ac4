-- ===== src/Executor/Probing.antt =====
-- pkg/executor/executor.go: the probes before and after the driver, and the engine's own word on
-- whether the fault took effect.
use simian_agent.Simian.Interfaces.{Answer, answered, failed, cancelled}
use simian_agent.Executor.Safety.{error_at}
use simian_agent.Prelude.{String, Bool, Option, none, some, List, [], ◌∷◌, if◌then◌else◌}
use simian_agent.Executor.Host.{ProbeResult, fault_event, ApplyDriver, Host}
use simian_agent.Simian.Types.{
  sot_probes, settle_probes, ExecutorError, ProbeSpec, reason_text, RejectionReason, FaultManifest,
  ExecutorStage, TargetRef, AuditEvent,
}

pub record ProbeStage : Type 0 where
  pub event : String
  pub stage : ExecutorStage
  pub reason : RejectionReason
  pub unrunnable : Option RejectionReason

unfoldable pub why_failed : ProbeStage → ProbeResult → RejectionReason
why_failed st res =
    if res.is_cut_short
    then RejectionReason.interrupted
    else if res.has_error
    then elim st.unrunnable [ none ↦ st.reason | some r ↦ r ]
    else st.reason

abbrev pub no_target : TargetRef
no_target = record { ns = ""; kind = ""; name = ""; labels = [] }

-- The probes' target: the first target's namespace and labels.
unfoldable pub probe_target : FaultManifest → TargetRef
probe_target m = elim m.targets [
  | [] ↦ no_target
  | t ∷ ts ↦ record no_target { ns = t.ns; labels = t.labels }
]

-- The events, and the error of the first probe that does not pass.
unfoldable pub probe_each :
    (ProbeSpec → TargetRef → ProbeResult)
    → FaultManifest
    → ProbeStage
    → List ProbeSpec
    → List AuditEvent × Option ExecutorError
unfolding why_failed probe_target reason_text
probe_each run m st [] = ([], none)
probe_each run m st (p ∷ ps) =
    let (events, error) = probe_each run m st ps in
    let res = run p (probe_target m) in
    if res.is_passed then (fault_event st.event m "" ∷ events, error) else (
      fault_event st.event m (reason_text (why_failed st res)) ∷ [],
      some (error_at st.stage (why_failed st res)),
    )

unfoldable pub run_probes :
    Host → FaultManifest → List ProbeSpec → ProbeStage → List AuditEvent × Option ExecutorError
unfolding probe_each
run_probes h m [] st = ([], none)
run_probes h m (p ∷ ps) st = elim h.prober [
  | none ↦ ([], some (error_at st.stage RejectionReason.probe_not_configured))
  | some run ↦ probe_each run m st (p ∷ ps)
]

unfoldable pub precheck : Host → FaultManifest → List AuditEvent × Option ExecutorError
unfolding run_probes
precheck h m = run_probes h m (sot_probes m) (record {
  event = "fault.precheck";
  stage = ExecutorStage.precheck;
  reason = RejectionReason.precheck_failed;
  unrunnable = some RejectionReason.cannot_gate;
})

unfoldable pub settle : Host → FaultManifest → List AuditEvent × Option ExecutorError
unfolding run_probes
settle h m = run_probes h m (settle_probes m) (record {
  event = "fault.efficacy";
  stage = ExecutorStage.probe;
  reason = RejectionReason.probe_failed;
  unrunnable = none;
})

unfoldable pub judge : FaultManifest → Answer Bool → List AuditEvent × Option ExecutorError
unfolding reason_text
judge m (answered u) = (fault_event "fault.injected" m "" ∷ [], none)
judge m failed = (
  fault_event "fault.injected" m (reason_text RejectionReason.injection_failed) ∷ [],
  some (error_at ExecutorStage.driver RejectionReason.injection_failed),
)
judge m cancelled = (
  fault_event "fault.injected" m (reason_text RejectionReason.interrupted) ∷ [],
  some (error_at ExecutorStage.driver RejectionReason.interrupted),
)

unfoldable pub confirm_injected :
    ApplyDriver → FaultManifest → String → List AuditEvent × Option ExecutorError
unfolding judge
confirm_injected d m engine_uid = elim d.confirms [
  | none ↦ ([], none)
  | some ask ↦ judge m (ask engine_uid)
]
