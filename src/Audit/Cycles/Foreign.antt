-- ===== src/Audit/Cycles/Foreign.antt =====
-- One step of Cycles in pkg/audit/cycles.go, as another namespace sees it.
use simian_agent.Prelude.{
  length, keep, ℕ, String, refl, inl, inr, false, Option, none, some, List, Option-cases, [], ◌≡◌,
  ◌∙◌, ◌∷◌, ◌++◌, ◌==◌, nat_Eq, string_Eq,
}
use mathlib.Core.List.{append-nil}
use simian_agent.Prelude.Kept.{keep-append}
use simian_agent.Audit.Cycles.Own.{
  LastAt-append_other, in_progress-change, change-some, change-none, ensure-some, ensure-none,
}
use simian_agent.Prelude.Assoc.{lookup-insert, lookup-delete, lookup}
use simian_agent.Audit.Cycles.Pointers.{
  LastAt-change_other, keep-change_other, KeepsNs, Shows, LastAt, Points,
}
use simian_agent.Audit.Cycles.Single.{is_in, Single}
use simian_agent.Audit.Cycles.{
  change_at, new_cycle, CycleOutcome, change, closed_as, ensure, begin, close_as, Folding, CycleRow,
}

-- The pointer of a namespace, if it has one, is to its last row.
abbrev pub IsPlaced : String → Folding → Type 0
IsPlaced n t = (i : ℕ) → lookup n t.in_progress ≡ some i → LastAt n t.rows i

placed_at :
    (n : String) (rows : List CycleRow) (place : Option ℕ) (cur : Option CycleRow)
    → Points n rows place cur
    → (i : ℕ) → place ≡ some i
    → LastAt n rows i
placed_at n rows none none p i e = cc
placed_at n rows none (some c) p i e = absurd p
placed_at n rows (some j) none p i e = absurd p
placed_at n rows (some j) (some c) p i e = let same : i ≡ j = cc in rw same p

pub Shows-IsPlaced : (n : String) (t : Folding) (s : Single) → Shows n t s → IsPlaced n t
Shows-IsPlaced n t s h = placed_at n t.rows (lookup n t.in_progress) s.current h.points

module _ (ns n : String) (apart : (n == ns) ≡ false) where
  Points-weaken :
      (rows rows' : List CycleRow)
      → ((i : ℕ) → LastAt ns rows i → LastAt ns rows' i)
      → (place : Option ℕ) (cur : Option CycleRow) → Points ns rows place cur
      → Points ns rows' place cur
  Points-weaken rows rows' f none none p = p
  Points-weaken rows rows' f (some i) (some c) p = f i p
  Points-weaken rows rows' f none (some c) p = absurd p
  Points-weaken rows rows' f (some i) none p = absurd p

  module _ (t : Folding) (s : Single) (h : Shows ns t s) where
    pub change-Shows :
        (f : CycleRow → CycleRow) → KeepsNs f → IsPlaced n t → Shows ns (change t n f) s
    change-Shows f k p = elim (Option-cases (lookup n t.in_progress)) [
      | inl e ↦ rw (change-none n t f e) h
      | inr (i, e) ↦ rw (change-some n t f i e) (record {
        rows = keep-change_other ns n i f t.rows k apart (p i e) ∙ h.rows;
        points =
            Points-weaken t.rows (change_at i f t.rows)
              (λ j m. LastAt-change_other ns n i j f t.rows k apart (p i e) m)
              (lookup ns t.in_progress) s.current h.points;
      })
    ]

    pub begin-Shows : (ts : ℕ) → Shows ns (begin t n ts) s
    unfolding begin
    begin-Shows ts = record {
      rows =
          keep-append (is_in ns) t.rows (new_cycle n ts ∷ [])
          ∙ rw (apart, append-nil (keep (is_in ns) t.rows)) h.rows;
      points =
          rw (lookup-insert n ns (length t.rows) t.in_progress, apart)
            (Points-weaken t.rows (t.rows ++ new_cycle n ts ∷ [])
              (λ j m. LastAt-append_other ns (new_cycle n ts) t.rows j apart m)
              (lookup ns t.in_progress) s.current h.points);
    }

    pub ensure-Shows : (ts : ℕ) → Shows ns (ensure t n ts) s
    ensure-Shows ts = elim (Option-cases (lookup n t.in_progress)) [
      | inl e ↦ rw (ensure-none n t ts e) (begin-Shows ts)
      | inr (i, e) ↦ rw (ensure-some n t ts i e) h
    ]

    pub close_as-Shows :
        (outcome : CycleOutcome) (ts : ℕ) → IsPlaced n t → Shows ns (close_as t n outcome ts) s
    unfolding close_as closed_as
    close_as-Shows outcome ts p =
        let done = change-Shows (closed_as outcome ts) (λ c. refl) p in
        record {
          rows = done.rows;
          points =
              rw (lookup-delete n ns t.in_progress, apart)
                (rw (in_progress-change n t (closed_as outcome ts)) at done.points);
        }
