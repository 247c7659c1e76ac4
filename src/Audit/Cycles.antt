-- ===== src/Audit/Cycles.antt =====
-- pkg/audit/cycles.go: one row for each cycle of the autonomous mode. A pointer to a row is its place
-- in `rows`.
pub mod Single
pub mod Pointers
pub mod Own
pub mod Foreign
pub mod Separate
use simian_agent.Prelude.{
  length, contains, ℤ, pos, ℕ, zero, suc, String, Bool, true, false, not, Option, none, some, List,
  [], ◌&&◌, ◌||◌, ◌∷◌, ◌++◌, ◌==◌, if◌then◌else◌, nat_Eq, string_Eq,
}
use simian_agent.Executor.Scope.{get_field}
use simian_agent.Prelude.Assoc.{insert, delete, lookup}
use simian_agent.Simian.Types.{nil, obj, cons, str, Items, Fields, Value}
use simian_agent.Audit.Records.{
  event_step_skipped, event_plan_generated, value_or, event_llm_unavailable, event_cycle_completed,
  map_value, event_cycle_skipped, list_value, event_health_gate_failed, number_value, texts_of,
  event_cycle_started, Reading, text_at, Record,
}

pub data CycleOutcome : Type 0 where
  cycle_completed cycle_skipped cycle_unfinished cycle_open : CycleOutcome

pub record CycleStep : Type 0 where
  pub order : ℤ
  pub kind : String
  pub target : String
  pub duration : String
  pub rationale : String
  pub duration_rationale : String

pub record StepRefusal : Type 0 where
  pub order : ℤ
  pub reason : String
  pub error : String

pub record CycleRow : Type 0 where
  pub ns : String
  pub started_at : ℕ
  pub ended_at : ℕ
  pub outcome : CycleOutcome
  pub reason : String
  pub detail : String
  pub plan_id : String
  pub hypothesis : String
  pub steps : List CycleStep
  pub applied : List String
  pub refused : List StepRefusal

unfoldable pub new_cycle : String → ℕ → CycleRow
new_cycle ns ts = record {
  ns = ns;
  started_at = ts;
  ended_at = 0;
  outcome = cycle_open;
  reason = "";
  detail = "";
  plan_id = "";
  hypothesis = "";
  steps = [];
  applied = [];
  refused = [];
}

abbrev pub cycle_events : List String
cycle_events =
    event_cycle_started ∷ event_cycle_skipped ∷ event_cycle_completed ∷ event_health_gate_failed
    ∷ event_llm_unavailable ∷ event_step_skipped ∷ event_plan_generated ∷ []

unfoldable pub is_cycle_event : String → Bool
is_cycle_event event = contains cycle_events event

-- `s, _ = v.(string)` where `v` may be missing, as in a nil map.
unfoldable pub text_in_map : Option Fields → String → String
unfolding text_at
text_in_map none k = ""
text_in_map (some fs) k = text_at fs k

abbrev pub entry : String → Option Fields → Option Value
entry k none = none
entry k (some fs) = get_field k fs

unfoldable pub first_item : Option Items → Option Value
first_item none = none
first_item (some nil) = none
first_item (some (cons v r)) = some v

unfoldable pub is_text : Option Value → Bool
is_text (some (str s)) = true
is_text _ = false

unfoldable pub with_detail : Record → CycleRow → CycleRow
with_detail r c = record c { detail = r.reason }

-- The outcome and the end that closeAs writes.
unfoldable pub closed_as : CycleOutcome → ℕ → CycleRow → CycleRow
closed_as outcome ts c = record c { outcome = outcome; ended_at = ts }

unfoldable pub change_at : ℕ → (CycleRow → CycleRow) → List CycleRow → List CycleRow
change_at i f [] = []
change_at zero f (x ∷ xs) = f x ∷ xs
change_at (suc i) f (x ∷ xs) = x ∷ change_at i f xs

pub record Folding : Type 0 where
  pub rows : List CycleRow
  pub in_progress : List (String × ℕ)

unfoldable pub begin : Folding → String → ℕ → Folding
unfolding insert new_cycle
begin t ns ts = record {
  rows = t.rows ++ new_cycle ns ts ∷ [];
  in_progress = insert ns (length t.rows) t.in_progress;
}

-- `get`: the cycle in progress, or a new one, as the records may begin mid-cycle.
unfoldable pub ensure : Folding → String → ℕ → Folding
unfolding begin lookup
ensure t ns ts = elim (lookup ns t.in_progress) [ none ↦ begin t ns ts | some i ↦ t ]

unfoldable pub change : Folding → String → (CycleRow → CycleRow) → Folding
unfolding change_at lookup
change t ns f = elim (lookup ns t.in_progress) [
  | none ↦ t
  | some i ↦ record t { rows = change_at i f t.rows }
]

-- A change of the cycle in progress, and its end.
unfoldable pub close_as : Folding → String → CycleOutcome → ℕ → Folding
unfolding change closed_as delete
close_as t ns outcome ts = record (change t ns (closed_as outcome ts)) {
  in_progress = delete ns t.in_progress;
}

abbrev pub namespace_of : Record → String
namespace_of r = text_at r.payload "namespace"

unfoldable pub with_skip : Record → CycleRow → CycleRow
unfolding text_at is_text get_field
with_skip r c = record c {
  reason = r.reason;
  detail =
      if is_text (get_field "error" r.payload) && c.detail == ""
      then text_at r.payload "error"
      else c.detail;
}

unfoldable pub with_applied : Record → CycleRow → CycleRow
unfolding texts_of list_value get_field
with_applied r c = record c {
  plan_id = if c.plan_id == "" then r.plan_id else c.plan_id;
  applied = c.applied ++ texts_of (value_or (list_value (get_field "applied_uids" r.payload)) nil);
}

module _ (rd : Reading) where
  -- `int(o)` if the value is a number, and 0 if not.
  unfoldable pub int_or_zero : Option Value → ℤ
  unfolding number_value
  int_or_zero v = elim (number_value v) [ none ↦ pos 0 | some s ↦ rd.read_int s ]

  unfoldable pub cycle_step : Fields → CycleStep
  unfolding int_or_zero text_at text_in_map map_value list_value first_item get_field
  cycle_step m =
      let fault = map_value (get_field "fault" m) in
      let target = first_item (list_value (entry "targets" fault)) in
      record {
        order = int_or_zero (get_field "order" m);
        kind = text_in_map fault "kind";
        target = text_in_map (map_value target) "name";
        duration = text_in_map fault "duration";
        rationale = text_at m "rationale";
        duration_rationale = text_at m "duration_rationale";
      }

  unfoldable pub steps_in : Items → List CycleStep
  unfolding cycle_step
  steps_in nil = []
  steps_in (cons (obj m) r) = cycle_step m ∷ steps_in r
  steps_in (cons _ r) = steps_in r

  unfoldable pub cycle_steps : Option Value → List CycleStep
  unfolding steps_in list_value
  cycle_steps raw = steps_in (value_or (list_value raw) nil)

  unfoldable pub with_plan : Record → CycleRow → CycleRow
  unfolding cycle_steps text_at get_field
  with_plan r c = record c {
    plan_id = r.plan_id;
    hypothesis = text_at r.payload "hypothesis";
    steps = cycle_steps (get_field "steps" r.payload);
  }

  unfoldable pub with_refusal : Record → CycleRow → CycleRow
  unfolding int_or_zero text_at get_field
  with_refusal r c = record c {
    refused =
        c.refused
        ++ record {
          order = int_or_zero (get_field "order" r.payload);
          reason = r.reason;
          error = text_at r.payload "error";
        }
          ∷ [];
  }

  unfoldable pub on_cycle : Folding → String → Record → Folding
  unfolding begin ensure change close_as with_plan with_refusal with_detail with_skip with_applied
  on_cycle t ns r =
      if r.event == event_cycle_started
      then begin (close_as t ns cycle_unfinished r.ts) ns r.ts
      else if r.event == event_health_gate_failed || r.event == event_llm_unavailable
      then change (ensure t ns r.ts) ns (with_detail r)
      else if r.event == event_plan_generated
      then change (ensure t ns r.ts) ns (with_plan r)
      else if r.event == event_step_skipped
      then change (ensure t ns r.ts) ns (with_refusal r)
      else if r.event == event_cycle_skipped
      then close_as (change (ensure t ns r.ts) ns (with_skip r)) ns cycle_skipped r.ts
      else if r.event == event_cycle_completed
      then close_as (change (ensure t ns r.ts) ns (with_applied r)) ns cycle_completed r.ts
      else t

  unfoldable pub fold_record : Folding → Record → Folding
  fold_record t r =
      if not (is_cycle_event r.event)
      then t
      else if namespace_of r == ""
      then t
      else on_cycle t (namespace_of r) r

  unfoldable pub fold_records : Folding → List Record → Folding
  unfolding fold_record
  fold_records t [] = t
  fold_records t (r ∷ rs) = fold_records (fold_record t r) rs

  unfoldable pub cycles : List Record → List CycleRow
  unfolding fold_records
  cycles rs = (fold_records (record { rows = []; in_progress = [] }) rs).rows
