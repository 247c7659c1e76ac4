-- ===== src/Audit/Closing/Ended.antt =====
-- The closing events of pkg/audit/faults.go, folded back into the rows that they were made from.
use simian_agent.Prelude.{
  length, keep, contains, In-keep, In-map, In-map_inv, contains→In, In→contains, In-sort_by,
  Distinct, contains-dedupe_from, ℕ, String, refl, sym, ap, inl, inr, true, false, none, some, List,
  map, arith, ltb, Bool-cases, [], ◌≤◌, ◌≡◌, ◌∙◌, ◌&&◌, ◌∷◌, ◌++◌, ◌==◌, if◌then◌else◌, nat_Eq,
  string_Eq,
}
use mathlib.Core.List.{map-map, map-append}
use simian_agent.Prelude.Kept.{
  map-cong, dedupe_from-append, keep-sort_by, keep-append, dedupe_from-Distinct,
}
use text.Mathlib.TextEquality.{eq_iff}
use simian_agent.Audit.Closing.{
  by_fault_uid, closing_events, reason_untracked_after_restart, closing_record, is_untracked,
}
use simian_agent.Audit.Faults.Rows.{
  faults_exact, is_named, faults_named, row_of, uid_of, is_about, run,
}
use simian_agent.Audit.Faults.{
  faults, new_row, expired, on_cleared, FaultRow, on_expired, apply, filled, identified, noted,
}
use simian_agent.Audit.Records.{Record, Reading}

module _ (rd : Reading) where
  -- How an untracked row ends: at its own deadline if that is past, and now if not.
  abbrev pub end_time : ℕ → FaultRow → ℕ
  end_time now row = elim (rd.parse_time row.deadline) [
    | none ↦ now
    | some d ↦ if ltb d now then d else now
  ]

  -- The row that the closing event leaves; another row is as it was.
  abbrev pub closed_row : ℕ → FaultRow → FaultRow
  closed_row now row =
      if is_untracked row
      then record row {
        outcome = expired;
        reason = reason_untracked_after_restart;
        ended_at = end_time now row;
      }
      else row

  on_cleared-fault_uid :
      (row : FaultRow) (r : Record) → (on_cleared row r).fault_uid ≡ row.fault_uid
  unfolding on_cleared
  on_cleared-fault_uid row r = ground arith

  on_expired-fault_uid :
      (row : FaultRow) (r : Record) → (on_expired rd row r).fault_uid ≡ row.fault_uid
  unfolding on_expired
  on_expired-fault_uid row r = ground arith

  apply-fault_uid : (row : FaultRow) (r : Record) → (apply rd row r).fault_uid ≡ row.fault_uid
  unfolding apply
  apply-fault_uid row r = ground (arith, on_cleared-fault_uid row r, on_expired-fault_uid row r)

  noted-fault_uid : (row : FaultRow) (r : Record) → (noted rd row r).fault_uid ≡ row.fault_uid
  unfolding noted identified
  noted-fault_uid row r = apply-fault_uid (identified rd row r) r

  run-fault_uid : (row : FaultRow) (rs : List Record) → (run rd row rs).fault_uid ≡ row.fault_uid
  unfolding run
  run-fault_uid row [] = refl
  run-fault_uid row (r ∷ rs) = run-fault_uid (noted rd row r) rs ∙ noted-fault_uid row r

  pub run-append :
      (row : FaultRow) (rs more : List Record)
      → run rd row (rs ++ more) ≡ run rd (run rd row rs) more
  unfolding run
  run-append row [] more = refl
  run-append row (r ∷ rs) more = run-append (noted rd row r) rs more

  filled_same : (s : String) → filled rd s s ≡ s
  filled_same s = ground arith

  identified_closing :
      (now : ℕ) (row : FaultRow) → identified rd row (closing_record rd now row) ≡ row
  unfolding identified closing_record
  identified_closing now row =
      rw (filled_same row.plan_id, filled_same row.scenario_id, filled_same row.source) refl

  apply-closing_record :
      (now : ℕ) (row : FaultRow)
      → is_untracked row ≡ true
      → apply rd row (closing_record rd now row) ≡ closed_row now row
  unfolding apply closing_record
  apply-closing_record now row u = ground (arith, u)

  noted-closing_record :
      (now : ℕ) (row : FaultRow)
      → is_untracked row ≡ true
      → noted rd row (closing_record rd now row) ≡ closed_row now row
  unfolding noted
  noted-closing_record now row u =
      ap (λ x. apply rd x (closing_record rd now row)) (identified_closing now row)
      ∙ apply-closing_record now row u

  is_untracked-closed_row : (now : ℕ) (row : FaultRow) → is_untracked (closed_row now row) ≡ false
  unfolding is_untracked
  is_untracked-closed_row now row = ground arith

  is_about-closing_record :
      (uid : String) (now : ℕ) (row : FaultRow)
      → is_about uid (closing_record rd now row) ≡ (row.fault_uid == uid)
  unfolding closing_record
  is_about-closing_record uid now row = refl

  -- The closing record of one fault among those of all.
  keep-closing_record :
      (now : ℕ) (f : String → FaultRow) (uid : String) (uids : List String)
      → ((u : String) → (f u).fault_uid ≡ u)
      → Distinct uids
      → keep (is_about uid) (map (closing_record rd now) (keep is_untracked (map f uids))) ≡ (
          if contains uids uid && is_untracked (f uid)
          then closing_record rd now (f uid) ∷ []
          else [])
  keep-closing_record now f uid [] named d = refl
  keep-closing_record now f uid (u ∷ uids) named d = ground (
    arith,
    d,
    keep-closing_record now f uid uids named d.1,
    named u,
    eq_iff u uid,
    is_about-closing_record uid now (f u),
  )

  length-keep-closing_record :
      (now : ℕ) (f : String → FaultRow) (uid : String) (uids : List String)
      → ((u : String) → (f u).fault_uid ≡ u)
      → Distinct uids
      → length (keep (is_about uid) (map (closing_record rd now) (keep is_untracked (map f uids))))
        ≤ 1
  length-keep-closing_record now f uid uids named d =
      ground (arith, keep-closing_record now f uid uids named d)

  closing_named :
      (now : ℕ) (f : String → FaultRow) (uid : String) (uids : List String)
      → ((u : String) → (f u).fault_uid ≡ u)
      → contains (map uid_of (map (closing_record rd now) (keep is_untracked (map f uids)))) uid
        ≡ true
      → contains uids uid ≡ true
  unfolding closing_record
  closing_named now f uid [] named h = h
  closing_named now f uid (u ∷ uids) named h =
      ground (arith, h, named u, closing_named now f uid uids named)

  -- One row after its fault's closing event, if there is one.
  run-closing :
      (now : ℕ) (row : FaultRow)
      → run rd row (if is_untracked row then closing_record rd now row ∷ [] else [])
        ≡ closed_row now row
  unfolding run
  run-closing now row = elim (Bool-cases (is_untracked row)) [
    | inl t ↦ rw t (noted-closing_record now row t ∙ rw t refl)
    | inr f ↦ rw f refl
  ]

  module _ (rs : List Record) (now : ℕ) where
    abbrev rows_of : List FaultRow
    rows_of = map (row_of rd rs) (faults_named rs)

    row_named : (uid : String) → (row_of rd rs uid).fault_uid ≡ uid
    unfolding new_row
    row_named uid = run-fault_uid (new_row uid) (keep (is_about uid) rs)

    faults_named-Distinct : Distinct (faults_named rs)
    faults_named-Distinct = dedupe_from-Distinct [] (keep is_named (map uid_of rs))

    keep-closing_events :
        (uid : String)
        → contains (faults_named rs) uid ≡ true
        → keep (is_about uid) (closing_events rd rows_of now) ≡ (
            if is_untracked (row_of rd rs uid)
            then closing_record rd now (row_of rd rs uid) ∷ []
            else [])
    unfolding closing_events
    keep-closing_events uid c =
        keep-sort_by (by_fault_uid rd) (is_about uid) _ (
          length-keep-closing_record now (row_of rd rs) uid (faults_named rs) row_named
            faults_named-Distinct)
        ∙ keep-closing_record now (row_of rd rs) uid (faults_named rs) row_named
            faults_named-Distinct
        ∙ rw c refl

    closing_events-named :
        (uid : String)
        → contains (map uid_of (closing_events rd rows_of now)) uid ≡ true
        → contains (faults_named rs) uid ≡ true
    unfolding closing_events
    closing_events-named uid h =
        let (r, i, e) =
          In-map_inv uid_of uid (closing_events rd rows_of now) (contains→In _ uid h) in
        let j =
          (In-sort_by (by_fault_uid rd) r
              (map (closing_record rd now) (keep is_untracked rows_of))).0
            i in
        closing_named now (row_of rd rs) uid (faults_named rs) row_named
          (In→contains _ uid (rw e (In-map uid_of r _ j)))

    faults_named-closing : faults_named (rs ++ closing_events rd rows_of now) ≡ faults_named rs
    faults_named-closing =
        let more = closing_events rd rows_of now in
        rw (map-append uid_of rs more, keep-append is_named (map uid_of rs) (map uid_of more))
          (dedupe_from-append [] (keep is_named (map uid_of rs)) (keep is_named (map uid_of more))
            λ a h.
              sym (contains-dedupe_from a [] (keep is_named (map uid_of rs)))
              ∙ closing_events-named a
                  (In→contains _ a (In-keep is_named a _ (contains→In _ a h)).0))

    row_of-closing :
        (uid : String)
        → contains (faults_named rs) uid ≡ true
        → row_of rd (rs ++ closing_events rd rows_of now) uid ≡ closed_row now (row_of rd rs uid)
    row_of-closing uid c =
        rw
          (
            keep-append (is_about uid) rs (closing_events rd rows_of now),
            run-append (new_row uid) (keep (is_about uid) rs)
                (keep (is_about uid) (closing_events rd rows_of now)),
            keep-closing_events uid c,
          )
          (run-closing now (row_of rd rs uid))

    faults-closing :
        faults rd (rs ++ closing_events rd rows_of now) ≡ some (map (closed_row now) rows_of)
    faults-closing =
        faults_exact rd (rs ++ closing_events rd rows_of now)
        ∙ rw
            (
              faults_named-closing,
              map-cong (row_of rd (rs ++ closing_events rd rows_of now))
                  (λ uid. closed_row now (row_of rd rs uid)) (faults_named rs) row_of-closing,
              map-map (closed_row now) (row_of rd rs) (faults_named rs),
            )
            refl

  none_untracked :
      (now : ℕ) (rows : List FaultRow) → keep is_untracked (map (closed_row now) rows) ≡ []
  none_untracked now [] = refl
  none_untracked now (row ∷ rows) = rw (is_untracked-closed_row now row) (none_untracked now rows)

  -- Appended to the records that they were made from, the closing events end every row that was open
  -- and in the cluster, as expired and untracked, at its own deadline if that is past and now if not.
  -- They change no other row, they add none, and for the rows after them there is nothing to close,
  -- at whatever time.
  pub closing_events_settle :
      (rs : List Record) (now later : ℕ) {rows : List FaultRow}
      → faults rd rs ≡ some rows
      → (faults rd (rs ++ closing_events rd rows now) ≡ some (map (closed_row now) rows))
        × (closing_events rd (map (closed_row now) rows) later ≡ [])
  unfolding closing_events
  closing_events_settle rs now later {rows} e =
      let p : rows ≡ rows_of rs now = cc (faults_exact rd rs, e) in
      rw p (faults-closing rs now, rw (none_untracked now (rows_of rs now)) refl)
