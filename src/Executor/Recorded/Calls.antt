-- ===== src/Executor/Recorded/Calls.antt =====
-- The records of one call of Apply, and the row that they make (pkg/executor/executor.go,
-- pkg/audit/faults.go).
use simian_agent.Prelude.{
  length, All, ℤ, ℕ, String, refl, ap, Bool, true, false, none, some, List, arith, [], ◌≡◌, ◌∙◌,
  ◌∷◌, ◌++◌, ◌==◌, nat_Eq, string_Eq,
}
use simian_agent.Executor.Scope.{get_field}
use simian_agent.Simian.Types.{TargetRef, Fields, FaultManifest}
use simian_agent.Audit.Closing.{manifest_from}
use simian_agent.Executor.Safety.{has_targets, is_valid_schema, validate_schema}
use simian_agent.Simian.Record.{target_items, copy_spec}
use simian_agent.Executor.Recorded.{received_record, applied_record}
use simian_agent.Executor.Recorded.Payloads.{
  described_as, describe-HasFields, with_actor-HasFields, applied_payload-HasFields,
  applied_payload-lease,
}
use simian_agent.Executor.Recorded.Rebuilt.{filled_same, IsQuiet, Core, core, core-run}
use simian_agent.Audit.Closing.Ended.{run-append}
use simian_agent.Audit.Faults.{
  Description, FaultRow, on_applied, on_received, apply, identified, describe, no_description,
  noted, new_row, still_open,
}
use simian_agent.Audit.Faults.Rows.{run}
use simian_agent.Audit.Records.{Reading, Record}

-- What the readers promise of the texts that are written of a manifest.
pub record ReadsBack (rd : Reading) (duration_text : ℤ → String) (m : FaultManifest) : Type 0 where
  pub targets : rd.read_targets (target_items m.targets) ≡ some m.targets
  pub duration : rd.parse_duration (duration_text m.duration) ≡ m.duration

-- A manifest as the trail keeps it.
unfoldable pub kept : FaultManifest → FaultManifest
unfolding copy_spec
kept m = record m {
  api_version = "";
  spec = some (copy_spec m.spec);
  probes = [];
  rationale = "";
  annotations = [];
}

-- One call of Apply that the driver took: what was asked for, and what the gates made of it.
pub record Call : Type 0 where
  pub scenario : String
  pub actor : String
  pub asked : FaultManifest
  pub given : FaultManifest
  pub engine_uid : String
  pub deadline : ℕ
  pub can_confirm : Bool
  pub details : Fields
  pub received_at : ℕ
  pub applied_at : ℕ

-- The gates keep the identifier, the plan and the source and name a tier if one was asked for, both
-- manifests pass the schema, and the driver's details have no tier.
pub record IsCall (c : Call) : Type 0 where
  pub uid : c.asked.uid ≡ c.given.uid
  pub plan : c.asked.plan_id ≡ c.given.plan_id
  pub source : c.asked.source ≡ c.given.source
  pub tier : (c.given.blast_radius_tier == "") ≡ true → c.asked.blast_radius_tier ≡ ""
  pub asked_valid : validate_schema c.asked ≡ none
  pub given_valid : validate_schema c.given ≡ none
  pub free : get_field "blast_radius_tier" c.details ≡ none

has_targets-some : (ts : List TargetRef) → has_targets ts ≡ true → (length ts == 0) ≡ false
unfolding has_targets
has_targets-some [] h = absurd (cc)
has_targets-some (t ∷ ts) h = ground arith

pub validate_schema-parts :
    (m : FaultManifest)
    → validate_schema m ≡ none
    → ((length m.targets == 0) ≡ false)
      × ((m.resource_kind == "") ≡ false)
      × ((m.engine == "") ≡ false)
unfolding validate_schema is_valid_schema
validate_schema-parts m valid = (
  has_targets-some m.targets (ground (arith, valid)),
  ground (arith, valid),
  ground (arith, valid),
)

module _ (rd : Reading) (duration_text : ℤ → String) where
  pub manifest_from-described :
      (m : FaultManifest)
      → ReadsBack rd duration_text m
      → validate_schema m ≡ none
      → {uid plan source : String} → uid ≡ m.uid
      → plan ≡ m.plan_id
      → source ≡ m.source
      → manifest_from rd uid plan source (described_as duration_text m) ≡ some (kept m)
  unfolding manifest_from kept
  manifest_from-described m back valid u p s =
      let (some_target, some_kind, some_engine) = validate_schema-parts m valid in
      rw (back.targets, some_target, some_kind, u, p, s, back.duration, manifest_from) refl

  module _ (time_text : ℕ → String) (c : Call) where
    abbrev received : Record
    received = received_record duration_text time_text c.scenario c.received_at c.actor c.asked

    abbrev applied : Record
    applied =
        applied_record duration_text time_text c.scenario c.applied_at c.given c.engine_uid
          c.deadline c.can_confirm c.details

    -- What a fault's records are to have been: the two of the call, and quiet ones.
    pub data Recorded : List Record → Type 0 where
      recorded :
          (between after : List Record)
          → All (IsQuiet c.given) between
          → All (IsQuiet c.given) after
          → Recorded (received ∷ between ++ applied ∷ after)

    unfoldable pub core_after : Core
    core_after = record {
      uid = c.given.uid;
      plan = c.given.plan_id;
      source = c.given.source;
      described = described_as duration_text c.given;
      requested = some (record {
        fault_uid = c.given.uid;
        plan_id = c.given.plan_id;
        source = c.given.source;
        described = described_as duration_text c.asked;
      });
      applied_at = c.applied_at;
      engine_uid = c.engine_uid;
      deadline = time_text c.deadline;
      outcome = still_open;
    }

    core-received :
        IsCall c
        → core (noted rd (new_row c.given.uid) received) ≡ record core_after {
          described = described_as duration_text c.asked;
          applied_at = 0;
          engine_uid = "";
          deadline = "";
        }
    unfolding noted identified apply on_received received_record new_row core_after
    core-received h =
        let d : describe no_description received.payload ≡ described_as duration_text c.asked =
          describe-HasFields duration_text c.asked no_description received.payload
            (with_actor-HasFields duration_text c.asked c.actor) (λ blank. refl) in
        rw (d, h.plan, h.source) refl

    core-applied :
        (row : FaultRow)
        → IsCall c
        → core row ≡ record core_after {
          described = described_as duration_text c.asked;
          applied_at = 0;
          engine_uid = "";
          deadline = "";
        }
        → core (noted rd row applied) ≡ core_after
    unfolding noted identified apply on_applied applied_record core_after
    core-applied row h e =
        let p : row.plan_id ≡ c.given.plan_id = ap (λ (x : Core). x.plan) e in
        let s : row.source ≡ c.given.source = ap (λ (x : Core). x.source) e in
        let told : row.described ≡ described_as duration_text c.asked =
          ap (λ (x : Core). x.described) e in
        let d : describe row.described applied.payload ≡ described_as duration_text c.given =
          describe-HasFields duration_text c.given row.described applied.payload
            (applied_payload-HasFields duration_text c.given time_text c.engine_uid c.deadline
              c.can_confirm c.details h.free)
            (λ blank. ap (λ (x : Description). x.tier) told ∙ h.tier blank) in
        let (engine, until) =
          applied_payload-lease duration_text c.given time_text c.engine_uid c.deadline
            c.can_confirm c.details in
        rw
          (
            ap (λ (x : Core). x.uid) e,
            filled_same c.given.plan_id row.plan_id c.given.plan_id p refl,
            filled_same c.given.source row.source c.given.source s refl,
            d,
            ap (λ (x : Core). x.requested) e,
            engine,
            until,
            ap (λ (x : Core). x.outcome) e,
          )
          refl

    pub core-Recorded :
        (rs : List Record)
        → IsCall c
        → Recorded rs
        → core (run rd (new_row c.given.uid) rs) ≡ core_after
    unfolding run core_after
    core-Recorded rs h (recorded between after quiet quiet_after) =
        let first = noted rd (new_row c.given.uid) received in
        let middle = run rd first between in
        let second = noted rd middle applied in
        let e1 = core-received h in
        let e2 =
          core-run rd c.given between first quiet (ap (λ (x : Core). x.plan) e1)
            (ap (λ (x : Core). x.source) e1)
          ∙ e1 in
        let e3 = core-applied middle h e2 in
        ap core (run-append rd first between (applied ∷ after))
        ∙ core-run rd c.given after second quiet_after (ap (λ (x : Core). x.plan) e3)
            (ap (λ (x : Core). x.source) e3)
        ∙ e3
