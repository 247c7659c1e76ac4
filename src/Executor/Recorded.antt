-- ===== src/Executor/Recorded.antt =====
-- pkg/executor/executor.go: the two records of Apply from which a restarted controller rebuilds a
-- fault. `time_text` is Format(time.RFC3339) of the time in UTC; `at` is when the sink stamps the
-- event (pkg/audit/file.go). `scenario` is the one of the context.
use simian_agent.Prelude.{
  ℤ, ℕ, String, Bool, Option, none, some, List, map, [], ◌∷◌, ◌==◌, if◌then◌else◌, nat_Eq,
  string_Eq,
}
pub mod Payloads
pub mod Rebuilt
pub mod Calls
pub mod Leases
use simian_agent.Simian.Types.{
  ProbeSpec, settle_probes, Items, nil, cons, arr, FaultManifest, Fields, Value, end, field, str,
}
use simian_agent.Simian.Record.{audit_record}
use simian_agent.Executor.Scope.{get_field, set_field}
use simian_agent.Audit.Records.{Record, event_executor_received, event_driver_applied}

unfoldable pub with_actor : String → Fields → Fields
unfolding set_field
with_actor actor p = if actor == "" then p else set_field "actor" (str actor) p

-- A key that is taken keeps its value.
unfoldable pub add_detail : String → Value → Option Value → Fields → Fields
unfolding set_field
add_detail k v (some taken) p = p
add_detail k v none p = set_field k v p

unfoldable pub add_details : Fields → Fields → Fields
unfolding add_detail get_field
add_details end p = p
add_details (field k v r) p = add_details r (add_detail k v (get_field k p) p)

pub text_items : List String → Items
text_items [] = nil
text_items (s ∷ ss) = cons (str s) (text_items ss)

-- The driver can confirm an injection itself.
unfoldable pub verified_by : Bool → FaultManifest → Value
unfolding text_items
verified_by can_confirm m =
    let names = map (λ (p : ProbeSpec). p.name) (settle_probes m) in
    arr (text_items (if can_confirm then "engine-status" ∷ names else names))

module _ (duration_text : ℤ → String) (time_text : ℕ → String) where
  unfoldable pub applied_payload : FaultManifest → String → ℕ → Bool → Fields → Fields
  unfolding audit_record set_field add_details verified_by
  applied_payload m engine_uid deadline can_confirm details = add_details details (
      set_field "verified_by" (verified_by can_confirm m) (
        set_field "deadline" (str (time_text deadline))
          (set_field "engine_uid" (str engine_uid) (audit_record duration_text m))))

  module _ (scenario : String) where
    unfoldable pub received_record : ℕ → String → FaultManifest → Record
    unfolding with_actor audit_record
    received_record at actor m = record {
      ts = at;
      event = event_executor_received;
      fault_uid = m.uid;
      plan_id = m.plan_id;
      scenario_id = scenario;
      mode = m.source;
      reason = "";
      payload = with_actor actor (audit_record duration_text m);
    }

    unfoldable pub applied_record : ℕ → FaultManifest → String → ℕ → Bool → Fields → Record
    unfolding applied_payload
    applied_record at m engine_uid deadline can_confirm details = record {
      ts = at;
      event = event_driver_applied;
      fault_uid = m.uid;
      plan_id = m.plan_id;
      scenario_id = scenario;
      mode = m.source;
      reason = "";
      payload = applied_payload m engine_uid deadline can_confirm details;
    }
