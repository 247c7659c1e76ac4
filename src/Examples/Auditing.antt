-- ===== src/Examples/Auditing.antt =====
-- An audit trail of two faults and two cycles (pkg/audit), folded, closed and logged.
use simian_agent.Prelude.{
  length, keep, dedupe_from, pos, ℕ, String, refl, true, false, none, some, List, map, [], ◌≡◌, ◌∙◌,
  ◌∷◌, ◌++◌, ◌==◌, if◌then◌else◌, nat_Eq, string_Eq,
}
use simian_agent.Audit.Cycles.Separate.{cycles_exact, no_cycles}
use simian_agent.Audit.Closing.Ended.{closing_events_settle, closed_row}
use simian_agent.Audit.Faults.Rows.{faults_named, faults_exact, row_of, run}
use simian_agent.Audit.Logs.{
  is_fault_record, new_fault_log, add_fault_record, is_cycle_record, new_cycle_log,
  add_cycle_record,
}
use simian_agent.Audit.Faults.{new_row, apply, identified, noted, FaultRow, faults}
use simian_agent.Audit.Cycles.{on_cycle, is_cycle_event, cycles}
use simian_agent.Audit.Logs.Latest.{logs_hold_latest, add_all}
use simian_agent.Prelude.Latest.{latest}
use simian_agent.Audit.Closing.{closing_events, is_untracked}
use simian_agent.Audit.Records.{text_at, Reading, Record}
use simian_agent.Simian.Types.{Fields, end, field, str}
use simian_agent.Audit.Cycles.Single.{is_of, is_in, single, rows_of}

abbrev reading : Reading
reading = record {
  parse_time = λ s. if s == "soon" then some 500 else none;
  parse_duration = λ s. pos 60;
  read_targets = λ xs. none;
  read_int = λ s. pos 1;
}

abbrev event_at : ℕ → String → String → Fields → Record
event_at ts event uid payload = record {
  ts = ts;
  event = event;
  fault_uid = uid;
  plan_id = "p-1";
  scenario_id = "";
  mode = "autonomous";
  reason = "";
  payload = payload;
}

abbrev applied_fields : Fields
applied_fields = field "deadline" (str "soon") (field "engine_uid" (str "e-1") end)

abbrev trail : List Record
trail =
    event_at 100 "executor.received" "f-1" end
    ∷ event_at 110 "executor.received" "f-2" end
    ∷ event_at 120 "driver.applied" "f-1" applied_fields
    ∷ event_at 130 "executor.rejected" "f-2" end
    ∷ []

faults_exact_example : faults reading trail ≡ some (map (row_of reading trail) (faults_named trail))
faults_exact_example = faults_exact reading trail

trail_rows :
    faults reading trail ≡ some (row_of reading trail "f-1" ∷ row_of reading trail "f-2" ∷ [])
trail_rows = faults_exact reading trail ∙ unfold dedupe_from in refl

abbrev rows : List FaultRow
rows = row_of reading trail "f-1" ∷ row_of reading trail "f-2" ∷ []

outcomes_test : map is_untracked rows ≡ true ∷ false ∷ []
unfolding is_untracked run noted identified apply new_row
outcomes_test = refl

closing_events_settle_example :
    (faults reading (trail ++ closing_events reading rows 900)
      ≡ some (map (closed_row reading 900) rows))
    × (closing_events reading (map (closed_row reading 900) rows) 1000 ≡ [])
closing_events_settle_example = closing_events_settle reading trail 900 1000 trail_rows

abbrev shop : Fields
shop = field "namespace" (str "shop") end

abbrev bank : Fields
bank = field "namespace" (str "bank") end

abbrev turns : List Record
turns =
    event_at 100 "cycle.started" "" shop
    ∷ event_at 110 "cycle.started" "" bank
    ∷ event_at 120 "cycle.completed" "" shop
    ∷ event_at 130 "cycle.started" "" shop
    ∷ []

cycles_exact_example :
    keep (is_in "shop") (cycles reading turns)
    ≡ rows_of (single reading "shop" no_cycles (keep (is_of "shop") turns))
unfolding single is_cycle_event text_at
cycles_exact_example = cycles_exact reading turns "shop" refl

shop_cycles : length (keep (is_in "shop") (cycles reading turns)) ≡ 2
unfolding cycles is_cycle_event on_cycle text_at
shop_cycles = refl

logs_hold_latest_example :
    ((add_all add_cycle_record (new_cycle_log (pos 2)) turns).records
      ≡ latest (new_cycle_log (pos 2)).max (keep is_cycle_record turns))
    × ((add_all add_fault_record (new_fault_log (pos 2)) turns).records
        ≡ latest (new_fault_log (pos 2)).max (keep is_fault_record turns))
logs_hold_latest_example = logs_hold_latest (pos 2) turns
