-- ===== src/Audit/Cycles/Single.antt =====
-- The cycles of one namespace in pkg/audit/cycles.go, described with no pointers and no map: those
-- that have ended, and the one in progress, if there is one.
use simian_agent.Prelude.{
  ℕ, String, Bool, Option, none, some, List, map, [], ◌&&◌, ◌||◌, ◌∷◌, ◌++◌, ◌==◌, if◌then◌else◌,
  nat_Eq, string_Eq,
}
use simian_agent.Audit.Records.{value_or, Record, Reading}
use simian_agent.Audit.Cycles.{
  with_applied, cycle_completed, event_cycle_completed, with_skip, cycle_skipped,
  event_cycle_skipped, with_refusal, event_step_skipped, with_plan, event_plan_generated,
  with_detail, event_llm_unavailable, event_health_gate_failed, namespace_of, closed_as,
  is_cycle_event, event_cycle_started, new_cycle, CycleRow, cycle_unfinished, CycleOutcome,
}

pub record Single : Type 0 where
  pub ended : List CycleRow
  pub current : Option CycleRow

abbrev pub current_list : Option CycleRow → List CycleRow
current_list none = []
current_list (some c) = c ∷ []

abbrev pub rows_of : Single → List CycleRow
rows_of s = s.ended ++ current_list s.current

-- The cycle in progress ends.
unfoldable pub finish : CycleOutcome → ℕ → Single → Single
finish outcome ts s = record {
  ended = s.ended ++ map (closed_as outcome ts) (current_list s.current);
  current = none;
}

-- Something is noted of the cycle in progress; one starts if there is none.
unfoldable pub note : String → ℕ → (CycleRow → CycleRow) → Single → Single
note ns ts f s = record s { current = some (f (value_or s.current (new_cycle ns ts))) }

unfoldable pub start : String → ℕ → Single → Single
start ns ts s = record (finish cycle_unfinished ts s) { current = some (new_cycle ns ts) }

module _ (rd : Reading) where
  unfoldable pub single_step : String → Single → Record → Single
  single_step ns s r =
      if r.event == event_cycle_started
      then start ns r.ts s
      else if r.event == event_health_gate_failed || r.event == event_llm_unavailable
      then note ns r.ts (with_detail r) s
      else if r.event == event_plan_generated
      then note ns r.ts (with_plan rd r) s
      else if r.event == event_step_skipped
      then note ns r.ts (with_refusal rd r) s
      else if r.event == event_cycle_skipped
      then finish cycle_skipped r.ts (note ns r.ts (with_skip r) s)
      else if r.event == event_cycle_completed
      then finish cycle_completed r.ts (note ns r.ts (with_applied r) s)
      else s

  unfoldable pub single : String → Single → List Record → Single
  unfolding single_step
  single ns s [] = s
  single ns s (r ∷ rs) = single ns (single_step ns s r) rs

abbrev pub is_in : String → CycleRow → Bool
is_in ns c = c.ns == ns

abbrev pub is_of : String → Record → Bool
is_of ns r = is_cycle_event r.event && namespace_of r == ns
