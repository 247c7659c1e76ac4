-- ===== src/Audit/Cycles/Own.antt =====
-- One step of Cycles in pkg/audit/cycles.go, as its own namespace sees it.
use simian_agent.Prelude.{
  length, ℕ, zero, suc, String, refl, sym, ap, true, false, Option, none, some, List, map, arith,
  ==_refl, [], ◌≡◌, ◌∙◌, ◌∷◌, ◌++◌, nat_Eq, string_Eq,
}
use simian_agent.Audit.Records.{value_or}
use mathlib.Core.List.{append-nil}
use simian_agent.Prelude.Kept.{keep-append}
use simian_agent.Audit.Cycles.Pointers.{LastAt-change, keep-change, Points, Shows, LastAt, KeepsNs}
use simian_agent.Prelude.Assoc.{lookup-insert, lookup-delete, delete, lookup}
use simian_agent.Audit.Cycles.Single.{finish, note, start, current_list, rows_of, Single, is_in}
use simian_agent.Audit.Cycles.{
  CycleOutcome, cycle_unfinished, closed_as, close_as, new_cycle, change_at, ensure, CycleRow,
  change, begin, Folding,
}

-- A change of the cycle in progress.
abbrev pub change_current : (CycleRow → CycleRow) → Option CycleRow → Option CycleRow
change_current f none = none
change_current f (some c) = some (f c)

abbrev pub changed : (CycleRow → CycleRow) → Single → Single
changed f s = record s { current = change_current f s.current }

pub change-none :
    (ns : String) (t : Folding) (f : CycleRow → CycleRow)
    → lookup ns t.in_progress ≡ none
    → change t ns f ≡ t
unfolding change
change-none ns t f e = ground (arith, e)

pub change-some :
    (ns : String) (t : Folding) (f : CycleRow → CycleRow) (i : ℕ)
    → lookup ns t.in_progress ≡ some i
    → change t ns f ≡ record t { rows = change_at i f t.rows }
unfolding change
change-some ns t f i e = ground (arith, e)

pub ensure-some :
    (ns : String) (t : Folding) (ts : ℕ) (i : ℕ)
    → lookup ns t.in_progress ≡ some i
    → ensure t ns ts ≡ t
unfolding ensure
ensure-some ns t ts i e = ground (arith, e)

pub ensure-none :
    (ns : String) (t : Folding) (ts : ℕ)
    → lookup ns t.in_progress ≡ none
    → ensure t ns ts ≡ begin t ns ts
unfolding ensure
ensure-none ns t ts e = ground (arith, e)

pub LastAt-append :
    (ns : String) (c : CycleRow) (xs : List CycleRow)
    → is_in ns c ≡ true
    → LastAt ns (xs ++ c ∷ []) (length xs)
LastAt-append ns c [] m = (m, refl)
LastAt-append ns c (x ∷ xs) m = LastAt-append ns c xs m

pub LastAt-append_other :
    (ns : String) (c : CycleRow) (xs : List CycleRow) (i : ℕ)
    → is_in ns c ≡ false
    → LastAt ns xs i
    → LastAt ns (xs ++ c ∷ []) i
LastAt-append_other ns c [] i m l = absurd l
LastAt-append_other ns c (x ∷ xs) zero m l =
    (l.0, keep-append (is_in ns) xs (c ∷ []) ∙ rw (l.1, m) refl)
LastAt-append_other ns c (x ∷ xs) (suc i) m l = LastAt-append_other ns c xs i m l

module _ (ns : String) where
  change-Shows_at :
      (t : Folding) (s : Single) (f : CycleRow → CycleRow)
      → KeepsNs f
      → Shows ns t s
      → (place : Option ℕ) (cur : Option CycleRow) → lookup ns t.in_progress ≡ place
      → s.current ≡ cur
      → Points ns t.rows place cur
      → Shows ns (change t ns f) (changed f s)
  change-Shows_at t s f k h none none e q p = rw (change-none ns t f e) (record {
    rows = h.rows ∙ ap (λ o. s.ended ++ current_list o) (q ∙ rw q refl);
    points = rw (e, q) tt;
  })
  change-Shows_at t s f k h (some i) (some c) e q p = rw (change-some ns t f i e) (record {
    rows =
        keep-change ns i f t.rows s.ended c k p (h.rows ∙ ap (λ o. s.ended ++ current_list o) q)
        ∙ rw q refl;
    points = rw (e, q) (LastAt-change ns i f t.rows k p);
  })
  change-Shows_at t s f k h none (some c) e q p = absurd p
  change-Shows_at t s f k h (some i) none e q p = absurd p

  pub change-Shows :
      (t : Folding) (s : Single) (f : CycleRow → CycleRow)
      → KeepsNs f
      → Shows ns t s
      → Shows ns (change t ns f) (changed f s)
  change-Shows t s f k h =
      change-Shows_at t s f k h (lookup ns t.in_progress) s.current refl refl h.points

  delete-Shows :
      (t : Folding) (s : Single)
      → Shows ns t s
      → Shows ns
          (record t { in_progress = delete ns t.in_progress })
          (record { ended = rows_of s; current = none })
  delete-Shows t s h = record {
    rows = h.rows ∙ sym (append-nil (rows_of s));
    points = rw (lookup-delete ns ns t.in_progress, ==_refl ns) tt;
  }

  -- A new row, after which what was in progress is a row like the others.
  begin-Shows :
      (t : Folding) (s : Single) (ts : ℕ)
      → Shows ns t s
      → Shows ns (begin t ns ts) (record { ended = rows_of s; current = some (new_cycle ns ts) })
  unfolding begin
  begin-Shows t s ts h = record {
    rows = keep-append (is_in ns) t.rows (new_cycle ns ts ∷ []) ∙ rw (h.rows, ==_refl ns) refl;
    points =
        rw (lookup-insert ns ns (length t.rows) t.in_progress, ==_refl ns)
          (LastAt-append ns (new_cycle ns ts) t.rows (==_refl ns));
  }

  abbrev pub ensured : ℕ → Single → Single
  ensured ts s = record s { current = some (value_or s.current (new_cycle ns ts)) }

  ensure-Shows_at :
      (t : Folding) (s : Single) (ts : ℕ)
      → Shows ns t s
      → (place : Option ℕ) (cur : Option CycleRow) → lookup ns t.in_progress ≡ place
      → s.current ≡ cur
      → Points ns t.rows place cur
      → Shows ns (ensure t ns ts) (ensured ts s)
  ensure-Shows_at t s ts h none none e q p =
      let begun = begin-Shows t s ts h in
      rw (ensure-none ns t ts e)
        (record { rows = begun.rows ∙ rw (q, append-nil s.ended) refl; points = rw q begun.points })
  ensure-Shows_at t s ts h (some i) (some c) e q p =
      rw (ensure-some ns t ts i e) (record { rows = h.rows ∙ rw q refl; points = rw e p })
  ensure-Shows_at t s ts h none (some c) e q p = absurd p
  ensure-Shows_at t s ts h (some i) none e q p = absurd p

  pub ensure-Shows :
      (t : Folding) (s : Single) (ts : ℕ) → Shows ns t s → Shows ns (ensure t ns ts) (ensured ts s)
  ensure-Shows t s ts h =
      ensure-Shows_at t s ts h (lookup ns t.in_progress) s.current refl refl h.points

  pub in_progress-change :
      (t : Folding) (f : CycleRow → CycleRow) → (change t ns f).in_progress ≡ t.in_progress
  unfolding change
  in_progress-change t f = ground arith

  current_list-change :
      (f : CycleRow → CycleRow) (o : Option CycleRow)
      → current_list (change_current f o) ≡ map f (current_list o)
  current_list-change f none = refl
  current_list-change f (some c) = refl

  pub close_as-Shows :
      (t : Folding) (s : Single) (outcome : CycleOutcome) (ts : ℕ)
      → Shows ns t s
      → Shows ns (close_as t ns outcome ts) (finish outcome ts s)
  unfolding close_as finish closed_as
  close_as-Shows t s outcome ts h =
      let f : CycleRow → CycleRow = closed_as outcome ts in
      let done = delete-Shows (change t ns f) (changed f s) (change-Shows t s f (λ c. refl) h) in
      record {
        rows = done.rows ∙ rw (current_list-change f s.current) refl;
        points = rw (in_progress-change t f) at done.points;
      }

  pub start-Shows :
      (t : Folding) (s : Single) (ts : ℕ)
      → Shows ns t s
      → Shows ns (begin (close_as t ns cycle_unfinished ts) ns ts) (start ns ts s)
  unfolding start finish
  start-Shows t s ts h =
      let begun =
        begin-Shows (close_as t ns cycle_unfinished ts) (finish cycle_unfinished ts s) ts
          (close_as-Shows t s cycle_unfinished ts h) in
      record {
        rows =
            begun.rows
            ∙ rw
                (append-nil
                  (s.ended ++ map (closed_as cycle_unfinished ts) (current_list s.current)))
                refl;
        points = begun.points;
      }

  pub note-Shows :
      (t : Folding) (s : Single) (ts : ℕ) (f : CycleRow → CycleRow)
      → KeepsNs f
      → Shows ns t s
      → Shows ns (change (ensure t ns ts) ns f) (note ns ts f s)
  unfolding note
  note-Shows t s ts f k h = change-Shows (ensure t ns ts) (ensured ts s) f k (ensure-Shows t s ts h)
