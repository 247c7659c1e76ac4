-- ===== src/Audit/Cycles/Separate.antt =====
-- Cycles of pkg/audit/cycles.go, one namespace at a time.
use simian_agent.Prelude.{
  keep, String, refl, inl, inr, Bool, true, false, none, List, arith, Bool-cases, [], ◌≡◌, ◌||◌,
  ◌∷◌, ◌==◌, if◌then◌else◌, nat_Eq, string_Eq,
}
use simian_agent.Prelude.Assoc.{lookup}
use text.Mathlib.TextEquality.{eq_iff}
use simian_agent.Audit.Cycles.Pointers.{KeepsNs, Shows}
use simian_agent.Audit.Cycles.Single.{rows_of, is_in, single, single_step, is_of, Single}
use simian_agent.Audit.Records.{Reading}
use simian_agent.Audit.Cycles.{
  cycles, fold_records, with_applied, cycle_completed, event_cycle_completed, cycle_skipped,
  with_skip, event_cycle_skipped, with_refusal, event_step_skipped, with_plan, event_plan_generated,
  with_detail, event_llm_unavailable, cycle_unfinished, change, CycleOutcome,
  event_health_gate_failed, close_as, ensure, namespace_of, CycleRow, event_cycle_started, begin,
  on_cycle, is_cycle_event, fold_record, Record, Folding,
}
use simian_agent.Audit.Cycles.Own
use simian_agent.Audit.Cycles.Foreign
use simian_agent.Audit.Cycles.Foreign.{Shows-IsPlaced}

if_both {ℓ κ μ} :
    {A : Type ℓ} {B : Type κ} (R : A → B → Type μ) (b : Bool) {x y : A} {u v : B}
    → R x u
    → R y v
    → R (if b then x else y) (if b then u else v)
if_both R true p q = p
if_both R false p q = q

module _ (rd : Reading) (r : Record) where
  own_cycle :
      (ns : String) (t : Folding) (s : Single)
      → Shows ns t s
      → Shows ns (on_cycle rd t ns r) (single_step rd ns s r)
  unfolding on_cycle single_step
  own_cycle ns t s h =
      let noted =
        λ (f : CycleRow → CycleRow). λ (k : KeepsNs f). Own.note-Shows ns t s r.ts f k h in
      if_both (Shows ns) (r.event == event_cycle_started) (Own.start-Shows ns t s r.ts h) (
        if_both (Shows ns) (r.event == event_health_gate_failed || r.event == event_llm_unavailable)
          (noted (with_detail r) (λ c. refl))
          (if_both (Shows ns) (r.event == event_plan_generated) (noted (with_plan rd r) (λ c. refl))
            (if_both (Shows ns) (r.event == event_step_skipped)
              (noted (with_refusal rd r) (λ c. refl))
              (if_both (Shows ns) (r.event == event_cycle_skipped)
                (Own.close_as-Shows ns _ _ cycle_skipped r.ts (noted (with_skip r) (λ c. refl)))
                (if_both (Shows ns) (r.event == event_cycle_completed)
                  (Own.close_as-Shows ns _ _ cycle_completed r.ts
                    (noted (with_applied r) (λ c. refl)))
                  h)))))

  module _ (ns n : String) (apart : (n == ns) ≡ false) (t : Folding) (s own : Single)
      (h : Shows ns t s) (k : Shows n t own) where
    foreign_note : (f : CycleRow → CycleRow) → KeepsNs f → Shows ns (change (ensure t n r.ts) n f) s
    foreign_note f keeps =
        Foreign.change-Shows ns n apart (ensure t n r.ts) s
          (Foreign.ensure-Shows ns n apart t s h r.ts) f keeps
          (Shows-IsPlaced n (ensure t n r.ts) _ (Own.ensure-Shows n t own r.ts k))

    foreign_end :
        (f : CycleRow → CycleRow) (outcome : CycleOutcome)
        → KeepsNs f
        → Shows ns (close_as (change (ensure t n r.ts) n f) n outcome r.ts) s
    foreign_end f outcome keeps =
        Foreign.close_as-Shows ns n apart (change (ensure t n r.ts) n f) s (foreign_note f keeps)
          outcome r.ts
          (Shows-IsPlaced n (change (ensure t n r.ts) n f) _
            (Own.note-Shows n t own r.ts f keeps k))

    foreign_start : Shows ns (begin (close_as t n cycle_unfinished r.ts) n r.ts) s
    foreign_start =
        Foreign.begin-Shows ns n apart (close_as t n cycle_unfinished r.ts) s
          (Foreign.close_as-Shows ns n apart t s h cycle_unfinished r.ts (Shows-IsPlaced n t own k))
          r.ts

    foreign_cycle : Shows ns (on_cycle rd t n r) s
    unfolding on_cycle
    foreign_cycle =
        let R = λ (x : Folding). λ (y : Folding). Shows ns x s in
        if_both R (r.event == event_cycle_started) {u = t} {v = t} foreign_start (
          if_both R (r.event == event_health_gate_failed || r.event == event_llm_unavailable)
            {u = t} {v = t} (foreign_note (with_detail r) (λ c. refl))
            (if_both R (r.event == event_plan_generated) {u = t} {v = t}
              (foreign_note (with_plan rd r) (λ c. refl))
              (if_both R (r.event == event_step_skipped) {u = t} {v = t}
                (foreign_note (with_refusal rd r) (λ c. refl))
                (if_both R (r.event == event_cycle_skipped) {u = t} {v = t}
                  (foreign_end (with_skip r) cycle_skipped (λ c. refl))
                  (if_both R (r.event == event_cycle_completed) {u = t} {v = t}
                    (foreign_end (with_applied r) cycle_completed (λ c. refl)) h)))))

-- Every namespace with a name sees its own cycles.
abbrev AllShow : Folding → (String → Single) → Type 0
AllShow t σ = (ns : String) → (ns == "") ≡ false → Shows ns t (σ ns)

abbrev pub no_cycles : Single
no_cycles = record { ended = []; current = none }

module _ (rd : Reading) where
  abbrev stepped : (String → Single) → Record → String → Single
  stepped σ r ns = if is_of ns r then single_step rd ns (σ ns) r else σ ns

  apart_from : (n ns : String) → (n == "") ≡ true → (ns == "") ≡ false → (n == ns) ≡ false
  apart_from n ns e d = ground (arith, eq_iff n "", eq_iff n ns, e, d)

  fold_record-AllShow :
      (t : Folding) (σ : String → Single) (r : Record)
      → AllShow t σ
      → AllShow (fold_record rd t r) (stepped σ r)
  unfolding fold_record
  fold_record-AllShow t σ r h ns named = elim (Bool-cases (is_cycle_event r.event)) [
    | inr out ↦ rw out (h ns named)
    | inl cycle ↦ elim (Bool-cases (namespace_of r == "")) [
      | inl unnamed ↦
          rw (cycle, unnamed) (rw (apart_from (namespace_of r) ns unnamed named) (h ns named))
      | inr known ↦ elim (Bool-cases (namespace_of r == ns)) [
        | inl mine ↦
            let p : namespace_of r ≡ ns = (eq_iff (namespace_of r) ns).0 mine in
            rw (cycle, known, mine, p) (own_cycle rd r ns t (σ ns) (h ns named))
        | inr other ↦
            rw (cycle, known, other)
              (foreign_cycle rd r ns (namespace_of r) other t (σ ns) (σ (namespace_of r))
                (h ns named) (h (namespace_of r) known))
      ]
    ]
  ]

  fold_records-AllShow :
      (t : Folding) (σ : String → Single) (rs : List Record)
      → AllShow t σ
      → AllShow (fold_records rd t rs) (λ ns. single rd ns (σ ns) (keep (is_of ns) rs))
  unfolding fold_records single
  fold_records-AllShow t σ [] h ns named = h ns named
  fold_records-AllShow t σ (r ∷ rs) h ns named =
      let rest =
        fold_records-AllShow (fold_record rd t r) (stepped σ r) rs (fold_record-AllShow t σ r h) ns
          named in
      elim (Bool-cases (is_of ns r)) [
        | inl mine ↦ rw mine (rw mine at rest)
        | inr other ↦ rw other (rw other at rest)
      ]

  -- The rows that Cycles returns for a namespace are the namespace's own cycles, oldest first, those
  -- that ended before the one in progress: what the namespace's own records make of them, one after
  -- another, whatever records of other namespaces stand between them.
  pub cycles_exact :
      (rs : List Record) (ns : String)
      → (ns == "") ≡ false
      → keep (is_in ns) (cycles rd rs) ≡ rows_of (single rd ns no_cycles (keep (is_of ns) rs))
  unfolding cycles lookup
  cycles_exact rs ns named =
      (fold_records-AllShow (record { rows = []; in_progress = [] }) (λ n. no_cycles) rs
        (λ n h. record { rows = refl; points = tt }) ns named).rows
