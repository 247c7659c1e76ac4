-- ===== src/Executor/Safety.antt =====
-- pkg/executor/executor.go, validateSchema and validateSafety; pkg/executor/config.go. A cap or a
-- ceiling that is not positive is off; it is 0 here.
pub mod Gates
use simian_agent.Prelude.{
  contains, ℤ, pos, ltb_ℤ, leb_ℤ, ℕ, String, Bool, true, false, not, Option, none, some, List, ltb,
  [], ◌&&◌, ◌||◌, ◌∷◌, ◌++◌, ◌==◌, if◌then◌else◌, nat_Eq, string_Eq,
}
use simian_agent.Executor.Budget.{Limits}
use simian_agent.Catalog.Tiers.{reclassify_for_spec, Net}
use simian_agent.Simian.Types.{
  RejectionReason, Fields, BlastRadiusTier, FaultManifest, ExecutorError, ExecutorStage, TargetRef,
}
use simian_agent.Prelude.Results.{Result, ok, err}
use simian_agent.Executor.Scope.{validate_spec_namespace_scope, Scoped, Eligibility, is_eligible}
use simian_agent.Catalog.Outage.{check_outage_manifest}

pub record Config (Cidr : Type 0) : Type 0 where
  pub duration_ceiling : ℕ
  pub permitted_tiers : List BlastRadiusTier
  pub limits : Limits
  pub cluster_pod_cidrs : List Cidr
  pub cluster_service_cidrs : List Cidr
  pub cluster_domains : List String

unfoldable pub all_cidrs : {Cidr : Type 0} → Config Cidr → List Cidr
all_cidrs cfg = cfg.cluster_pod_cidrs ++ cfg.cluster_service_cidrs

pub data Outcome {ℓ} (A : Type ℓ) : Type ℓ where
  refused : ExecutorError → Outcome A
  passed : A → Outcome A

abbrev pub error_at : ExecutorStage → RejectionReason → ExecutorError
error_at stage reason = record { stage = stage; reason = reason }

abbrev pub schema_invalid_error : ExecutorError
schema_invalid_error = error_at ExecutorStage.schema RejectionReason.schema_invalid

unfoldable pub has_spec : Option Fields → Bool
has_spec none = false
has_spec (some fs) = true

unfoldable pub has_targets : List TargetRef → Bool
has_targets [] = false
has_targets (t ∷ ts) = true

unfoldable pub is_valid_schema : FaultManifest → Bool
unfolding has_spec has_targets check_outage_manifest
is_valid_schema m =
    not (m.engine == "")
    && not (m.resource_kind == "")
    && not (m.api_version == "")
    && has_targets m.targets
    && has_spec m.spec
    && check_outage_manifest m

-- Every failure is the same error.
unfoldable pub validate_schema : FaultManifest → Option ExecutorError
unfolding is_valid_schema
validate_schema m = if is_valid_schema m then none else some schema_invalid_error

-- The excluded workloads of a namespace, or a failed lookup.
abbrev pub Exclusions : Type 0
Exclusions = String → Option (List String)

unfoldable pub check_excluded : Option (List String) → TargetRef → Option ExecutorError
check_excluded none t = some (error_at ExecutorStage.safety RejectionReason.workload_excluded)
check_excluded (some l) t =
    if not (t.name == "") && contains l t.name
    then some (error_at ExecutorStage.safety RejectionReason.workload_excluded)
    else none

unfoldable pub check_target : Eligibility → Exclusions → TargetRef → Option ExecutorError
unfolding check_excluded is_eligible
check_target el ex t =
    if t.ns == "" || not (is_eligible el t.ns)
    then some (error_at ExecutorStage.safety RejectionReason.namespace_not_eligible)
    else check_excluded (ex t.ns) t

unfoldable pub first_of : Option ExecutorError → Option ExecutorError → Option ExecutorError
first_of (some e) next = some e
first_of none next = next

unfoldable pub check_targets : Eligibility → Exclusions → List TargetRef → Option ExecutorError
unfolding check_target first_of
check_targets el ex [] = none
check_targets el ex (t ∷ ts) = first_of (check_target el ex t) (check_targets el ex ts)

unfoldable pub check_duration : ℕ → ℤ → Option ExecutorError
check_duration ceiling d =
    if leb_ℤ d (pos 0) || (ltb 0 ceiling && ltb_ℤ (pos ceiling) d)
    then some (error_at ExecutorStage.safety RejectionReason.duration_over_ceiling)
    else none

-- The manifest as the gates leave it, with how they ended: the spec that was narrowed stays narrowed
-- when a later gate refuses.
pub record Gated : Type 0 where
  pub manifest : FaultManifest
  pub error : Option ExecutorError

module _ {Ip : Type 0} {Cidr : Type 0} (net : Net Ip Cidr) (cfg : Config Cidr) where
  unfoldable pub check_tier : FaultManifest → Gated
  unfolding reclassify_for_spec all_cidrs
  check_tier m =
      let tier = reclassify_for_spec net m (all_cidrs cfg) cfg.cluster_domains in
      record {
        manifest = record m { blast_radius_tier = tier };
        error =
            if contains cfg.permitted_tiers tier
            then none
            else some (error_at ExecutorStage.safety RejectionReason.tier_not_permitted);
      }

  unfoldable pub after_scope : Result FaultManifest Scoped → Gated
  unfolding check_tier
  after_scope (err m) = record {
    manifest = m;
    error = some (error_at ExecutorStage.safety RejectionReason.namespace_not_eligible);
  }
  after_scope (ok s) = check_tier s.manifest

  unfoldable pub after_targets : Eligibility → FaultManifest → Option ExecutorError → Gated
  unfolding after_scope
  after_targets el m (some e) = record { manifest = m; error = some e }
  after_targets el m none = after_scope (validate_spec_namespace_scope el m)

  unfoldable pub validate_safety : Eligibility → Exclusions → FaultManifest → Gated
  unfolding check_duration check_targets after_targets first_of
  validate_safety el ex m =
      after_targets el m
        (first_of (check_duration cfg.duration_ceiling m.duration) (check_targets el ex m.targets))
