-- ===== src/Audit/Faults.antt =====
-- pkg/audit/faults.go: one row for each fault in the records. A row and what `describe` writes of it
-- are two records here; the pointer in byUID is the entry of a map, which each record updates.
pub mod Rows
use simian_agent.Prelude.{
  ℕ, String, Bool, false, not, Option, none, some, List, ltb, [], ◌||◌, ◌∷◌, ◌++◌, ◌==◌,
  if◌then◌else◌, nat_Eq, string_Eq,
}
use simian_agent.Prelude.Assoc.{insert, lookup}
use simian_agent.Executor.Scope.{get_field}
use simian_agent.Simian.Types.{null, nil, Fields, Value, Items}
use simian_agent.Audit.Records.{
  event_lease_expired, event_lease_cleared, event_driver_failed, texts_of, event_executor_rejected,
  event_fault_efficacy, event_fault_recovered, event_fault_injected, event_driver_applied, value_or,
  event_executor_received, list_value, text_value, bool_value, text_at, Reading, Record,
}

abbrev pub reason_untracked_after_restart : String
reason_untracked_after_restart = "untracked-after-restart"

pub data Outcome : Type 0 where
  refused driver_failed cleared expired still_open : Outcome

-- What `describe` writes.
pub record Description : Type 0 where
  pub engine : String
  pub kind : String
  pub targets : Items
  pub spec : Value
  pub duration : String
  pub tier : String

-- The fields that the row in `requested` ever has.
pub record Requested : Type 0 where
  pub fault_uid : String
  pub plan_id : String
  pub source : String
  pub described : Description

pub record FaultRow : Type 0 where
  pub fault_uid : String
  pub plan_id : String
  pub scenario_id : String
  pub source : String
  pub received_at : ℕ
  pub requested_by : String
  pub cleared_by : String
  pub described : Description
  pub applied_at : ℕ
  pub engine_uid : String
  pub deadline : String
  pub injected : Option Bool
  pub efficacy : Option Bool
  pub recovered : Option Bool
  pub unready : List String
  pub requested : Option Requested
  pub outcome : Outcome
  pub reason : String
  pub ended_at : ℕ
  pub error : String

abbrev pub no_description : Description
no_description = record {
  engine = "";
  kind = "";
  targets = nil;
  spec = null;
  duration = "";
  tier = "";
}

unfoldable pub new_row : String → FaultRow
new_row uid = record {
  fault_uid = uid;
  plan_id = "";
  scenario_id = "";
  source = "";
  received_at = 0;
  requested_by = "";
  cleared_by = "";
  described = no_description;
  applied_at = 0;
  engine_uid = "";
  deadline = "";
  injected = none;
  efficacy = none;
  recovered = none;
  unready = [];
  requested = none;
  outcome = still_open;
  reason = "";
  ended_at = 0;
  error = "";
}

unfoldable pub describe : Description → Fields → Description
unfolding text_value list_value get_field
describe d p = record {
  engine = value_or (text_value (get_field "engine" p)) d.engine;
  kind = value_or (text_value (get_field "kind" p)) d.kind;
  targets = value_or (list_value (get_field "targets" p)) d.targets;
  spec = value_or (get_field "spec" p) d.spec;
  duration = value_or (text_value (get_field "duration" p)) d.duration;
  tier = value_or (text_value (get_field "blast_radius_tier" p)) d.tier;
}

unfoldable pub ended : FaultRow → Record → Outcome → FaultRow
unfolding text_value get_field
ended row r outcome = record row {
  outcome = outcome;
  reason = r.reason;
  ended_at = r.ts;
  error = value_or (text_value (get_field "error" r.payload)) row.error;
}

unfoldable pub on_received : FaultRow → Record → FaultRow
unfolding text_at describe
on_received row r = record row {
  received_at = r.ts;
  requested_by = text_at r.payload "actor";
  described = describe row.described r.payload;
  requested = some (record {
    fault_uid = row.fault_uid;
    plan_id = row.plan_id;
    source = row.source;
    described = describe no_description r.payload;
  });
}

unfoldable pub on_applied : FaultRow → Record → FaultRow
unfolding text_at describe
on_applied row r = record row {
  applied_at = r.ts;
  described = describe row.described r.payload;
  engine_uid = text_at r.payload "engine_uid";
  deadline = text_at r.payload "deadline";
}

-- `if b, ok := r.Payload["passed"].(bool); ok`.
abbrev pub passed : Record → Option Bool
passed r = bool_value (get_field "passed" r.payload)

abbrev pub some_or {ℓ} : {A : Type ℓ} → Option A → Option A → Option A
some_or none old = old
some_or (some new) old = some new

unfoldable pub unready_in : Option Items → List String
unfolding texts_of
unready_in none = []
unready_in (some xs) = texts_of xs

unfoldable pub on_recovered : FaultRow → Record → FaultRow
unfolding bool_value get_field list_value unready_in
on_recovered row r = record row {
  recovered = some_or (passed r) row.recovered;
  unready = row.unready ++ unready_in (list_value (get_field "unready" r.payload));
}

-- Every probe has to pass; one failure is the verdict.
unfoldable pub with_verdict : Option Bool → Option Bool → Option Bool
with_verdict old none = old
with_verdict none (some b) = some b
with_verdict (some old) (some b) = if not b then some b else some old

unfoldable pub left_to_reaper : Record → Bool
unfolding bool_value get_field
left_to_reaper r = value_or (bool_value (get_field "left_to_reaper" r.payload)) false

unfoldable pub on_cleared : FaultRow → Record → FaultRow
unfolding ended text_at left_to_reaper
on_cleared row r =
    if left_to_reaper r || r.reason == "driver-clear-failed"
    then row
    else record (ended row r cleared) { cleared_by = text_at r.payload "actor" }

-- byUID and order.
pub record Table : Type 0 where
  pub by_uid : List (String × FaultRow)
  pub order : List String

abbrev pub put_row : FaultRow → Option (List FaultRow) → Option (List FaultRow)
put_row row none = none
put_row row (some rows) = some (row ∷ rows)

-- `none` is a nil pointer dereferenced.
unfoldable pub rows_in : List (String × FaultRow) → List String → Option (List FaultRow)
unfolding lookup
rows_in by_uid [] = some []
rows_in by_uid (uid ∷ rest) = elim (lookup uid by_uid) [
  | none ↦ none
  | some row ↦ put_row row (rows_in by_uid rest)
]

module _ (rd : Reading) where
  -- When an untracked fault ended: at its deadline, if that passed.
  unfoldable pub own_end : FaultRow → Record → ℕ
  own_end row r = elim (rd.parse_time row.deadline) [
    | none ↦ r.ts
    | some d ↦ if ltb d r.ts then d else r.ts
  ]

  unfoldable pub on_expired : FaultRow → Record → FaultRow
  unfolding ended own_end
  on_expired row r =
      if r.reason == reason_untracked_after_restart
      then record (ended row r expired) { ended_at = own_end row r }
      else ended row r expired

  unfoldable pub apply : FaultRow → Record → FaultRow
  unfolding on_received on_applied on_recovered on_cleared on_expired with_verdict ended bool_value
      get_field
  apply row r =
      if r.event == event_executor_received
      then on_received row r
      else if r.event == event_driver_applied
      then on_applied row r
      else if r.event == event_fault_injected
      then record row { injected = some_or (passed r) row.injected }
      else if r.event == event_fault_recovered
      then on_recovered row r
      else if r.event == event_fault_efficacy
      then record row { efficacy = with_verdict row.efficacy (passed r) }
      else if r.event == event_executor_rejected
      then ended row r refused
      else if r.event == event_driver_failed
      then ended row r driver_failed
      else if r.event == event_lease_cleared
      then on_cleared row r
      else if r.event == event_lease_expired
      then on_expired row r
      else row

  -- A text that is empty is filled in.
  abbrev pub filled : String → String → String
  filled old new = if old == "" then new else old

  unfoldable pub identified : FaultRow → Record → FaultRow
  identified row r = record row {
    plan_id = filled row.plan_id r.plan_id;
    scenario_id = filled row.scenario_id r.scenario_id;
    source = filled row.source r.mode;
  }

  -- What one record does to the row of its fault.
  unfoldable pub noted : FaultRow → Record → FaultRow
  noted row r = apply (identified row r) r

  unfoldable pub file_record : Table → Record → Table
  unfolding lookup insert
  file_record t r = elim (lookup r.fault_uid t.by_uid) [
    | some row ↦ record t { by_uid = insert r.fault_uid (noted row r) t.by_uid }
    | none ↦ record {
      by_uid = insert r.fault_uid (noted (new_row r.fault_uid) r) t.by_uid;
      order = t.order ++ r.fault_uid ∷ [];
    }
  ]

  unfoldable pub file_records : Table → List Record → Table
  unfolding file_record
  file_records t [] = t
  file_records t (r ∷ rs) = file_records (if r.fault_uid == "" then t else file_record t r) rs

  unfoldable pub faults : List Record → Option (List FaultRow)
  unfolding file_records rows_in
  faults rs =
      let t = file_records (record { by_uid = []; order = [] }) rs in rows_in t.by_uid t.order
