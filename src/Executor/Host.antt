-- ===== src/Executor/Host.antt =====
-- pkg/executor/executor.go: what a call of Apply asks of the driver, the probes, the cluster and the
-- clock, as a record of their answers; the state of the executor; and pkg/executor/workloads.go, the
-- labels of a target. The text of an audit event's payload is left out.
use simian_agent.Simian.Interfaces.{Answer}
use simian_agent.Executor.Safety.{Exclusions, Gated, Outcome, refused}
use simian_agent.Executor.History.{History}
use simian_agent.Executor.Budget.{Books}
use simian_agent.Prelude.{
  length, ℕ, String, Bool, true, false, not, Option, none, some, List, map, [], ◌||◌, ◌∷◌, ◌++◌,
  ◌==◌, if◌then◌else◌, nat_Eq, string_Eq,
}
use simian_agent.Executor.Pods.{narrow_pod_selector}
use simian_agent.Executor.Scope.{Eligibility}
use simian_agent.Simian.Types.{
  ExecutorError, ProbeSpec, Engine, reason_text, FaultManifest, TargetRef, AuditEvent,
}

-- probe.Result, with whether the context was done when it came.
pub record ProbeResult : Type 0 where
  pub is_passed : Bool
  pub has_error : Bool
  pub is_cut_short : Bool

-- A driver during one call of Apply. `apply` answers the engine's name for the fault. `confirms` is
-- its InjectionConfirmer half, whose answer
-- without an error is any observation, and `is_incompatible` whether its TargetChecker half, if it has one,
-- says that the fault would act on nothing.
pub record ApplyDriver : Type 0 where
  pub apply : FaultManifest → Option String
  pub confirms : Option (String → Answer Bool)
  pub is_incompatible : FaultManifest → Bool
  pub clears : String → Bool

-- The cluster and the executor's options during one call. `compat` is checkTargetCompat of
-- pkg/executor/compat.go, of which nothing is assumed.
pub record Host : Type 0 where
  pub drivers : List (Engine × ApplyDriver)
  pub eligibility : Eligibility
  pub exclusions : Exclusions
  pub workloads : Option (TargetRef → Option (List (String × String)))
  pub compat : FaultManifest → Option ExecutorError
  pub prober : Option (ProbeSpec → TargetRef → ProbeResult)
  pub default_probes : Option (FaultManifest → List ProbeSpec)
  pub new_uid : String
  pub reserved_at : ℕ
  pub applied_at : ℕ
  pub registered_at : ℕ
  pub recorded_at : ℕ
  pub refused_at : ℕ

-- The executor's state, with the audit trail.
pub record State : Type 0 where
  pub books : Books
  pub history : Option History
  pub events : List AuditEvent

abbrev pub fault_event : String → FaultManifest → String → AuditEvent
fault_event name m reason = record {
  event = name;
  fault_uid = m.uid;
  plan_id = m.plan_id;
  mode = m.source;
  reason = reason;
}

unfoldable pub emit : State → AuditEvent → State
emit s ev = record s { events = s.events ++ ev ∷ [] }

-- How a call ended: the state, the manifest as the call left it, and the answer.
pub record Ended {ℓ} (A : Type ℓ) : Type ℓ where
  pub state : State
  pub manifest : FaultManifest
  pub outcome : Outcome A

unfoldable pub rejected {ℓ} : {A : Type ℓ} → State → FaultManifest → ExecutorError → Ended A
unfolding emit reason_text
rejected s m e = record {
  state = emit s (fault_event "executor.rejected" m (reason_text e.reason));
  manifest = m;
  outcome = refused e;
}

unfoldable pub label_target :
    Option (TargetRef → Option (List (String × String))) → TargetRef → TargetRef
label_target none t = t
label_target (some f) t =
    if t.name == "" || not (length t.labels == 0)
    then t
    else elim (f t) [ none ↦ t | some labels ↦ record t { labels = labels } ]

unfoldable pub resolve_target_labels : Host → FaultManifest → FaultManifest
unfolding label_target
resolve_target_labels h m = record m { targets = map (label_target h.workloads) m.targets }

unfoldable pub has_resolver : Option (TargetRef → Option (List (String × String))) → Bool
has_resolver none = false
has_resolver (some f) = true

unfoldable pub narrow_pods : Host → FaultManifest → Gated
unfolding narrow_pod_selector has_resolver
narrow_pods h m = narrow_pod_selector h.exclusions (has_resolver h.workloads) m

unfoldable pub attach_default_probes : Host → FaultManifest → FaultManifest
attach_default_probes h m = elim h.default_probes [
  | none ↦ m
  | some f ↦ record m { probes = m.probes ++ f m }
]
