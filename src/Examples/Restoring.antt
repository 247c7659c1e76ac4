-- ===== src/Examples/Restoring.antt =====
-- A fault that a former process left running, and one that it was refused (pkg/executor, pkg/audit).
use simian_agent.Prelude.{
  keep, In, InOrder, ℤ, pos, ℕ, String, refl, true, false, none, some, List, map, arith, [], ◌≡◌,
  ◌↔◌, ◌∷◌, ◌==◌, if◌then◌else◌, nat_Eq, string_Eq,
}
use simian_agent.Executor.Scope.{get_field}
use simian_agent.Loop.Cycle.Refusing.{Ascending}
use simian_agent.Loop.Cycle.{seed_refusals, times_of}
use simian_agent.Audit.Closing.{requested_manifest, active_fault}
use simian_agent.Audit.Faults.Rows.{row_of, is_about}
use simian_agent.Executor.Seeding.{
  seeded, refused_earlier, is_refusal_since, refusal_of, refusals_from_audit,
}
use simian_agent.Executor.Safety.{validate_schema}
use simian_agent.Executor.History.{list_refused, new_history, RefusedFault}
use simian_agent.Simian.Types.{null, nil, FaultManifest, end}
use simian_agent.Prelude.Latest.{latest}
use simian_agent.Examples.Data.{pod_kill, web}
use simian_agent.Audit.Records.{Reading, Record}
use simian_agent.Audit.Faults.{FaultRow, new_row, refused}
use simian_agent.Executor.Recorded.Leases.{active_fault-Recorded, lease}
use simian_agent.Executor.Recorded.Calls.{ReadsBack, kept, Call, IsCall, Recorded, recorded}
use simian_agent.Executor.Recorded.{received_record, applied_record}
use simian_agent.Loop.Cycle.Restored.{seed_refusals-seeded, under}
use simian_agent.Executor.Seeding.Refusals.{refusals_from_audit_exact, MadeOf}

abbrev reading : Reading
reading = record {
  parse_time = λ s. if s == "then" then some 5000 else none;
  parse_duration = λ s. pos 60;
  read_targets = λ xs. some (web ∷ []);
  read_int = λ s. pos 1;
}

abbrev sixty : ℤ → String
sixty d = "60ns"

abbrev then_text : ℕ → String
then_text t = "then"

abbrev call : Call
call = record {
  scenario = "";
  actor = "ops";
  asked = pod_kill;
  given = pod_kill;
  engine_uid = "e-1";
  deadline = 5060;
  can_confirm = false;
  details = end;
  received_at = 990;
  applied_at = 1000;
}

pod_kill-ReadsBack : ReadsBack reading sixty pod_kill
pod_kill-ReadsBack = record { targets = refl; duration = refl }

call-IsCall : IsCall call
unfolding validate_schema get_field
call-IsCall = record {
  uid = refl;
  plan = refl;
  source = refl;
  tier = λ e. refl;
  asked_valid = refl;
  given_valid = refl;
  free = refl;
}

abbrev validated : Record
validated = record {
  ts = 995;
  event = "executor.validated";
  fault_uid = "f-1";
  plan_id = "p-1";
  scenario_id = "";
  mode = "autonomous";
  reason = "";
  payload = end;
}

abbrev told : List Record
told =
    received_record sixty then_text "" 990 "ops" pod_kill
    ∷ validated
    ∷ applied_record sixty then_text "" 1000 pod_kill "e-1" 5060 false end
    ∷ []

told-Recorded : Recorded reading sixty then_text call (keep (is_about "f-1") told)
unfolding received_record applied_record
told-Recorded =
    recorded (validated ∷ []) []
      (
        record {
          plan = refl;
          mode = refl;
          not_received = refl;
          not_applied = refl;
          not_rejected = refl;
          not_failed = refl;
          not_cleared = refl;
          not_expired = refl;
        },
        tt,
      )
      tt

active_fault-Recorded_example :
    (active_fault reading (row_of reading told "f-1") 2000
      ≡ some (lease reading sixty then_text call 5000))
    × (requested_manifest reading (row_of reading told "f-1") ≡ some (kept pod_kill))
active_fault-Recorded_example =
    active_fault-Recorded reading sixty then_text call told 2000 5000 call-IsCall told-Recorded
      pod_kill-ReadsBack pod_kill-ReadsBack (λ e. cc) (omega arith) refl (omega arith)

abbrev refused_row : FaultRow
refused_row = record (new_row "f-2") {
  described = record {
    engine = "chaos-mesh";
    kind = "PodChaos";
    targets = nil;
    spec = null;
    duration = "60ns";
    tier = "";
  };
  outcome = refused;
  reason = "tier-not-permitted";
  ended_at = 800;
}

abbrev put_back : RefusedFault
put_back = refusal_of reading refused_row (record pod_kill { uid = "f-2" })

abbrev kind_key : FaultManifest → String
kind_key m = m.resource_kind

put_back_test :
    map (λ (rf : RefusedFault). rf.refused_at) (refusals_from_audit reading (refused_row ∷ []) 100)
    ≡ 800 ∷ []
unfolding refusals_from_audit new_row
put_back_test = refl

refusals_from_audit_exact_example :
    (In put_back (refusals_from_audit reading (refused_row ∷ []) 100) ↔ (
      (r : FaultRow) × In r (refused_row ∷ [])
      × (is_refusal_since 100 r ≡ true)
      × MadeOf reading r put_back))
    × InOrder refused_earlier (refusals_from_audit reading (refused_row ∷ []) 100)
refusals_from_audit_exact_example =
    refusals_from_audit_exact reading (refused_row ∷ []) 100 put_back

seed_refusals-seeded_example :
    let h = new_history (pos 10) in
    let back = latest h.capacity (refusals_from_audit reading (refused_row ∷ []) 100) in
    let listed = list_refused (seeded reading h (refused_row ∷ []) 100 2000 100) "" 0 in
    let times = times_of (seed_refusals kind_key [] listed) "PodChaos" in
    (times ≡ map (λ (rf : RefusedFault). rf.refused_at) (keep (under kind_key "PodChaos") back))
    × Ascending times
seed_refusals-seeded_example =
    seed_refusals-seeded kind_key reading (pos 10) (refused_row ∷ []) "PodChaos" 100 2000 100
      (λ e. cc)
