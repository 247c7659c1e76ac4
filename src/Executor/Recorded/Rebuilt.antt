-- ===== src/Executor/Recorded/Rebuilt.antt =====
-- The way of a fault through the audit trail: recorded by Apply (pkg/executor/executor.go), read back
-- as a row and as the lease of a restarted controller (pkg/audit/faults.go).
use simian_agent.Prelude.{
  All, ℕ, String, refl, ap, inl, inr, false, Option, List, Bool-cases, [], ◌≡◌, ◌∙◌, ◌∷◌, ◌==◌,
  if◌then◌else◌, nat_Eq, string_Eq,
}
use simian_agent.Simian.Types.{FaultManifest}
use simian_agent.Audit.Faults.{
  on_recovered, Outcome, apply, Requested, identified, FaultRow, Description, noted,
}
use simian_agent.Audit.Faults.Rows.{run}
use simian_agent.Audit.Records.{
  event_lease_expired, event_lease_cleared, event_fault_efficacy, event_driver_failed,
  event_fault_recovered, event_executor_rejected, event_fault_injected, event_driver_applied,
  event_executor_received, Reading, Record,
}

pub filled_same : (p a b : String) → a ≡ p → b ≡ p → (if a == "" then b else a) ≡ p
filled_same p a b e f = elim (Bool-cases (a == "")) [
  | inl blank ↦ rw blank f
  | inr given ↦ rw given e
]

-- A record of the fault that says nothing of its manifest, its lease or its end.
pub record IsQuiet (m : FaultManifest) (r : Record) : Type 0 where
  pub plan : r.plan_id ≡ m.plan_id
  pub mode : r.mode ≡ m.source
  pub not_received : (r.event == event_executor_received) ≡ false
  pub not_applied : (r.event == event_driver_applied) ≡ false
  pub not_rejected : (r.event == event_executor_rejected) ≡ false
  pub not_failed : (r.event == event_driver_failed) ≡ false
  pub not_cleared : (r.event == event_lease_cleared) ≡ false
  pub not_expired : (r.event == event_lease_expired) ≡ false

-- What of a row the lease and the manifests are made from.
pub record Core : Type 0 where
  pub uid : String
  pub plan : String
  pub source : String
  pub described : Description
  pub requested : Option Requested
  pub applied_at : ℕ
  pub engine_uid : String
  pub deadline : String
  pub outcome : Outcome

abbrev pub core : FaultRow → Core
core row = record {
  uid = row.fault_uid;
  plan = row.plan_id;
  source = row.source;
  described = row.described;
  requested = row.requested;
  applied_at = row.applied_at;
  engine_uid = row.engine_uid;
  deadline = row.deadline;
  outcome = row.outcome;
}

module _ (rd : Reading) (m : FaultManifest) where
  core-identified :
      (row : FaultRow) (r : Record)
      → row.plan_id ≡ m.plan_id
      → row.source ≡ m.source
      → r.plan_id ≡ m.plan_id
      → r.mode ≡ m.source
      → core (identified rd row r) ≡ core row
  unfolding identified
  core-identified row r p s q t =
      rw
        (
          filled_same m.plan_id row.plan_id r.plan_id p q,
          filled_same m.source row.source r.mode s t,
          p,
          s,
        )
        refl

  core-apply : (row : FaultRow) (r : Record) → IsQuiet m r → core (apply rd row r) ≡ core row
  unfolding apply on_recovered
  core-apply row r q = elim (Bool-cases (r.event == event_fault_injected)) [
    | inl i ↦ rw (q.not_received, q.not_applied, i) refl
    | inr j ↦ elim (Bool-cases (r.event == event_fault_recovered)) [
      | inl i ↦ rw (q.not_received, q.not_applied, j, i) refl
      | inr k ↦ elim (Bool-cases (r.event == event_fault_efficacy)) [
        | inl i ↦ rw (q.not_received, q.not_applied, j, k, i) refl
        | inr l ↦
            rw
              (
                q.not_received, q.not_applied, j, k, l, q.not_rejected, q.not_failed, q.not_cleared,
                q.not_expired,
              )
              refl
      ]
    ]
  ]

  -- Quiet records leave the row as it was, as far as the core goes.
  pub core-run :
      (rs : List Record) (row : FaultRow)
      → All (IsQuiet m) rs
      → row.plan_id ≡ m.plan_id
      → row.source ≡ m.source
      → core (run rd row rs) ≡ core row
  unfolding run noted
  core-run [] row q p s = refl
  core-run (r ∷ rs) row q p s =
      let same : core (noted rd row r) ≡ core row =
        core-apply (identified rd row r) r q.0 ∙ core-identified row r p s q.0.plan q.0.mode in
      core-run rs (noted rd row r) q.1 (ap (λ (c : Core). c.plan) same ∙ p)
        (ap (λ (c : Core). c.source) same ∙ s)
      ∙ same
