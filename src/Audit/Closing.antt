-- ===== src/Audit/Closing.antt =====
-- pkg/audit/faults.go: what a restarted controller makes of the rows: the manifests and leases that
-- it can rebuild, and the closing events for what nobody tracks any more. How these two meet is in
-- cmd/simian/serve.go, openAuditFile; `adopt` there is a parameter, with the answers that it gives.
pub mod Ended
use simian_agent.Prelude.{
  length, keep, sort_by, ℕ, String, Bool, true, false, not, Option, none, some, List, map, ltb, leb,
  [], ◌&&◌, ◌||◌, ◌++◌, ◌==◌, if◌then◌else◌, nat_Eq, string_Eq,
}
use simian_agent.Simian.Text.{text_below}
use simian_agent.Simian.Types.{
  end, bool, str, field, FaultManifest, ActiveFault, Fields, AuditEvent,
}
use simian_agent.Audit.Records.{
  event_lease_adopted, event_lease_expired, map_value, Record, Reading,
}
use simian_agent.Audit.Faults.{
  reason_untracked_after_restart, FaultRow, Outcome, still_open, Description, Requested,
}

unfoldable pub is_open : Outcome → Bool
is_open still_open = true
is_open _ = false

-- When the fault was first seen; 0 if the records do not say.
unfoldable pub first_seen : FaultRow → ℕ
first_seen r = if r.received_at == 0 then r.applied_at else r.received_at

unfoldable pub since : List FaultRow → ℕ → List FaultRow
unfolding first_seen
since rows t = keep (λ r. first_seen r == 0 || leb t (first_seen r)) rows

-- Open in the records, and in the cluster.
unfoldable pub is_untracked : FaultRow → Bool
unfolding is_open
is_untracked r = is_open r.outcome && not (r.applied_at == 0)

module _ (rd : Reading) where
  -- `still_running` is in the payload if the deadline is ahead.
  unfoldable pub is_still_running : FaultRow → ℕ → Bool
  is_still_running r now = elim (rd.parse_time r.deadline) [ none ↦ false | some d ↦ ltb now d ]

  unfoldable pub closing_payload : FaultRow → ℕ → Fields
  unfolding is_still_running
  closing_payload r now = field "deadline" (str r.deadline) (
      field "engine_uid" (str r.engine_uid)
        (if is_still_running r now then field "still_running" (bool true) end else end))

  unfoldable pub closing_record : ℕ → FaultRow → Record
  unfolding closing_payload
  closing_record now r = record {
    ts = now;
    event = event_lease_expired;
    fault_uid = r.fault_uid;
    plan_id = r.plan_id;
    scenario_id = r.scenario_id;
    mode = r.source;
    reason = reason_untracked_after_restart;
    payload = closing_payload r now;
  }

  abbrev pub by_fault_uid : Record → Record → Bool
  by_fault_uid a b = text_below a.fault_uid b.fault_uid

  unfoldable pub closing_events : List FaultRow → ℕ → List Record
  unfolding is_untracked closing_record sort_by
  closing_events rows now = sort_by by_fault_uid (map (closing_record now) (keep is_untracked rows))

  -- The fields of a manifest that the records do not have are empty.
  unfoldable pub manifest_from : String → String → String → Description → Option FaultManifest
  unfolding map_value
  manifest_from uid plan_id source d = elim (rd.read_targets d.targets) [
    | none ↦ none
    | some targets ↦
        if length targets == 0 || d.kind == ""
        then none
        else some (record {
          uid = uid;
          source = source;
          engine = d.engine;
          api_version = "";
          resource_kind = d.kind;
          spec = map_value (some d.spec);
          targets = targets;
          duration = rd.parse_duration d.duration;
          blast_radius_tier = d.tier;
          probes = [];
          rationale = "";
          plan_id = plan_id;
          annotations = [];
        })
  ]

  unfoldable pub manifest : FaultRow → Option FaultManifest
  unfolding manifest_from
  manifest r = manifest_from r.fault_uid r.plan_id r.source r.described

  -- As it was submitted, if the records have that.
  unfoldable pub requested_manifest : FaultRow → Option FaultManifest
  unfolding manifest manifest_from
  requested_manifest r = elim r.requested [
    | none ↦ manifest r
    | some req ↦ manifest_from req.fault_uid r.plan_id r.source req.described
  ]

  unfoldable pub lease_of : FaultRow → ℕ → Option FaultManifest → Option ActiveFault
  lease_of r deadline none = none
  lease_of r deadline (some m) = some (record {
    fault_uid = r.fault_uid;
    engine_uid = r.engine_uid;
    manifest = m;
    applied_at = r.applied_at;
    deadline = deadline;
    holder = "";
    last_beat = 0;
  })

  unfoldable pub running_lease : FaultRow → ℕ → Option ℕ → Option ActiveFault
  unfolding lease_of manifest
  running_lease r now none = none
  running_lease r now (some deadline) =
      if not (ltb now deadline) then none else lease_of r deadline (manifest r)

  unfoldable pub active_fault : FaultRow → ℕ → Option ActiveFault
  unfolding is_open running_lease
  active_fault r now =
      if not (is_open r.outcome)
        || r.applied_at == 0
        || r.engine_uid == ""
        || r.described.engine == ""
      then none
      else running_lease r now (rd.parse_time r.deadline)

  -- A fault that was adopted, as the audit trail has it; the payload is a text for a reader.
  unfoldable pub adopted_event : FaultRow → AuditEvent
  adopted_event r = record {
    event = event_lease_adopted;
    fault_uid = r.fault_uid;
    plan_id = r.plan_id;
    mode = r.source;
    reason = reason_untracked_after_restart;
  }

  unfoldable pub closed_event : Record → AuditEvent
  closed_event c = record {
    event = c.event;
    fault_uid = c.fault_uid;
    plan_id = c.plan_id;
    mode = c.mode;
    reason = c.reason;
  }

  -- The start-up of a controller, over the rows of its audit file.
  unfoldable pub take_over : (FaultRow → Bool) → List FaultRow → ℕ → List AuditEvent
  unfolding is_open adopted_event closed_event closing_events
  take_over adopt rows now =
      map adopted_event (keep (λ r. is_open r.outcome && adopt r) rows)
      ++ map closed_event (closing_events (keep (λ r. is_open r.outcome && not (adopt r)) rows) now)
