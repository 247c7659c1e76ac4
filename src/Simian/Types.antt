-- ===== src/Simian/Types.antt =====
-- pkg/simian/types.go, pkg/simian/errors.go: the vocabulary that the components share. Times are
-- nanoseconds since Go's zero time, which is 0; durations are signed nanoseconds.
use simian_agent.Prelude.{
  keep, ℤ, pos, negsuc, ℕ, String, refl, Bool, Option, none, some, List, [], ◌+◌, ◌-◌, ◌≡◌, ◌∷◌,
  ◌==◌, if◌then◌else◌, nat_Eq, string_Eq,
}
use simian_agent.Simian.Text.{trim_space}

-- A value of type `any`, as JSON has it. A number is kept as its text.
mutual
  pub data Value : Type 0 where
    null : Value
    bool : Bool → Value
    num : String → Value
    str : String → Value
    arr : Items → Value
    obj : Fields → Value

  -- map[string]any.
  pub data Fields : Type 0 where
    end : Fields
    field : String → Value → Fields → Fields

  pub data Items : Type 0 where
    nil : Items
    cons : Value → Items → Items

-- Blast-radius tiers and engines are texts in the source: a manifest may carry any text.
abbrev pub BlastRadiusTier : Type 0
BlastRadiusTier = String

abbrev pub tier_namespace : BlastRadiusTier
tier_namespace = "namespace"

abbrev pub tier_node : BlastRadiusTier
tier_node = "node"

abbrev pub tier_external : BlastRadiusTier
tier_external = "external"

abbrev pub all_tiers : List BlastRadiusTier
all_tiers = tier_namespace ∷ tier_node ∷ tier_external ∷ []

find_tier : String → List BlastRadiusTier → Option BlastRadiusTier
find_tier t [] = none
find_tier t (known ∷ r) = if t == known then some t else find_tier t r

-- An unknown name is an error, never a default.
unfoldable pub parse_blast_radius_tier : String → Option BlastRadiusTier
unfolding find_tier
parse_blast_radius_tier name = find_tier (trim_space name) all_tiers

abbrev pub Engine : Type 0
Engine = String

abbrev pub engine_chaos_mesh : Engine
engine_chaos_mesh = "chaos-mesh"

abbrev pub engine_litmus : Engine
engine_litmus = "litmus"

abbrev pub engine_network_policy : Engine
engine_network_policy = "network-policy"

abbrev pub engine_envoy_fault : Engine
engine_envoy_fault = "envoy-fault"

abbrev pub engine_kube_state : Engine
engine_kube_state = "kube-state"

pub record TargetRef : Type 0 where
  pub ns : String
  pub kind : String
  pub name : String
  pub labels : List (String × String)

abbrev pub probe_mode_settle : String
probe_mode_settle = "Settle"

abbrev pub probe_mode_sot : String
probe_mode_sot = "SOT"

pub record ProbeSpec : Type 0 where
  pub name : String
  pub type : String
  pub mode : String
  pub spec : Option Fields

-- `spec = none` is the nil map.
pub record FaultManifest : Type 0 where
  pub uid : String
  pub source : String
  pub engine : Engine
  pub api_version : String
  pub resource_kind : String
  pub spec : Option Fields
  pub targets : List TargetRef
  pub duration : ℤ
  pub blast_radius_tier : BlastRadiusTier
  pub probes : List ProbeSpec
  pub rationale : String
  pub plan_id : String
  pub annotations : List (String × String)

abbrev pub probes_in_mode : FaultManifest → String → List ProbeSpec
probes_in_mode m mode = keep (λ p. p.mode == mode) m.probes

abbrev pub settle_probes : FaultManifest → List ProbeSpec
settle_probes m = probes_in_mode m probe_mode_settle

abbrev pub sot_probes : FaultManifest → List ProbeSpec
sot_probes m = probes_in_mode m probe_mode_sot

pub record PlanStep : Type 0 where
  pub order : ℕ
  pub manifest : FaultManifest
  pub depends_on : List ℕ
  pub duration_rationale : String

pub record AttackPlan : Type 0 where
  pub plan_id : String
  pub hypothesis : String
  pub steps : List PlanStep

pub record ActiveFault : Type 0 where
  pub fault_uid : String
  pub engine_uid : String
  pub manifest : FaultManifest
  pub applied_at : ℕ
  pub deadline : ℕ
  pub holder : String
  pub last_beat : ℕ

-- time.Time.Add.
abbrev pub add_time : ℕ → ℤ → ℕ
add_time t (pos n) = t + n
add_time t (negsuc n) = t - (n + 1)

pub data ExecutorStage : Type 0 where
  schema safety audit driver lease probe precheck : ExecutorStage

pub data RejectionReason : Type 0 where
  unknown_gvk schema_invalid namespace_not_eligible workload_excluded rbac_denied tier_not_permitted
        duration_over_ceiling budget_exceeded driver_failed lease_failed probe_failed
        injection_failed interrupted precheck_failed target_incompatible cannot_gate
        probe_not_configured :
      RejectionReason

-- The text of a reason, as the audit trail has it.
unfoldable pub reason_text : RejectionReason → String
reason_text unknown_gvk = "unknown-gvk"
reason_text schema_invalid = "schema-invalid"
reason_text namespace_not_eligible = "namespace-not-eligible"
reason_text workload_excluded = "workload-excluded"
reason_text rbac_denied = "rbac-denied"
reason_text tier_not_permitted = "tier-not-permitted"
reason_text duration_over_ceiling = "duration-over-ceiling"
reason_text budget_exceeded = "budget-exceeded"
reason_text driver_failed = "driver-failed"
reason_text lease_failed = "lease-failed"
reason_text probe_failed = "probe-failed"
reason_text injection_failed = "injection-failed"
reason_text interrupted = "interrupted"
reason_text precheck_failed = "precheck-failed"
reason_text target_incompatible = "target-incompatible"
reason_text cannot_gate = "cannot-gate"
reason_text probe_not_configured = "probe-not-configured"

-- The message and the wrapped cause are texts for a reader, and are left out.
pub record ExecutorError : Type 0 where
  pub stage : ExecutorStage
  pub reason : RejectionReason

-- The event's payload is left out; the executor's and the reaper's events carry these.
pub record AuditEvent : Type 0 where
  pub event : String
  pub fault_uid : String
  pub plan_id : String
  pub mode : String
  pub reason : String

parse_test : parse_blast_radius_tier " node" ≡ some tier_node
unfolding parse_blast_radius_tier trim_space
parse_test = refl
