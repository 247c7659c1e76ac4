-- ===== src/Audit/Faults/Rows.antt =====
-- Faults of pkg/audit/faults.go beside a plain description of its rows: the map of pointers and the
-- order are gone, and each row is read off the records of its own fault.
use simian_agent.Prelude.{
  keep, contains, In-keep, contains→In, In→contains, dedupe_from, contains-dedupe_from, String,
  refl, sym, inl, inr, Bool, true, false, not, Option, none, some, List, map, arith, Bool-cases,
  ==_refl, [], ◌≡◌, ◌∙◌, ◌∷◌, ◌++◌, ◌==◌, if◌then◌else◌, nat_Eq, string_Eq,
}
use mathlib.Core.List.{append_assoc, append-nil}
use simian_agent.Prelude.Assoc.{lookup-insert, lookup, insert}
use text.Mathlib.TextEquality.{eq_iff}
use simian_agent.Audit.Faults.{
  noted, new_row, FaultRow, file_records, faults, file_record, Table, rows_in,
}
use simian_agent.Audit.Records.{value_or, Record, Reading}

abbrev pub is_about : String → Record → Bool
is_about uid r = r.fault_uid == uid

-- The identifiers that the records name, each where it comes first.
abbrev pub uid_of : Record → String
uid_of r = r.fault_uid

abbrev pub is_named : String → Bool
is_named uid = not (uid == "")

abbrev pub faults_named : List Record → List String
faults_named rs = dedupe_from [] (keep is_named (map uid_of rs))

module _ (rd : Reading) where
  -- The records of one fault, applied to its row one after another.
  unfoldable pub run : FaultRow → List Record → FaultRow
  run row [] = row
  run row (r ∷ rs) = run (noted rd row r) rs

  -- The row that a fault has, from its own records alone.
  abbrev pub row_of : List Record → String → FaultRow
  row_of rs uid = run (new_row uid) (keep (is_about uid) rs)

  abbrev after : String → Option FaultRow → List Record → Option FaultRow
  after uid old [] = old
  after uid old (r ∷ rs) = some (run (value_or old (new_row uid)) (r ∷ rs))

  after_step :
      (uid : String) (old : Option FaultRow) (r : Record) (rs : List Record)
      → after uid (some (noted rd (value_or old (new_row uid)) r)) rs ≡ after uid old (r ∷ rs)
  unfolding run
  after_step uid old r [] = refl
  after_step uid old r (next ∷ rs) = refl

  abbrev is_held : Option FaultRow → Bool
  is_held none = false
  is_held (some row) = true

  by_uid-file_record :
      (t : Table) (r : Record)
      → (file_record rd t r).by_uid
        ≡ insert r.fault_uid
            (noted rd (value_or (lookup r.fault_uid t.by_uid) (new_row r.fault_uid)) r)
            t.by_uid
  unfolding file_record
  by_uid-file_record t r = ground arith

  lookup-file_record :
      (uid : String) (t : Table) (r : Record)
      → lookup uid (file_record rd t r).by_uid ≡ (
          if r.fault_uid == uid
          then some (noted rd (value_or (lookup uid t.by_uid) (new_row uid)) r)
          else lookup uid t.by_uid)
  lookup-file_record uid t r = rw (by_uid-file_record t r) (
      ground (
        arith,
        eq_iff r.fault_uid uid,
        lookup-insert r.fault_uid uid
            (noted rd (value_or (lookup r.fault_uid t.by_uid) (new_row r.fault_uid)) r) t.by_uid,
      ))

  file_records_unnamed :
      (t : Table) (r : Record) (rs : List Record)
      → (r.fault_uid == "") ≡ true
      → file_records rd t (r ∷ rs) ≡ file_records rd t rs
  unfolding file_records
  file_records_unnamed t r rs e = ground (arith, e)

  file_records_named :
      (t : Table) (r : Record) (rs : List Record)
      → (r.fault_uid == "") ≡ false
      → file_records rd t (r ∷ rs) ≡ file_records rd (file_record rd t r) rs
  unfolding file_records
  file_records_named t r rs e = ground (arith, e)

  lookup-file_records :
      (uid : String) (t : Table) (rs : List Record)
      → (uid == "") ≡ false
      → lookup uid (file_records rd t rs).by_uid
        ≡ after uid (lookup uid t.by_uid) (keep (is_about uid) rs)
  unfolding file_records
  lookup-file_records uid t [] h = refl
  lookup-file_records uid t (r ∷ rs) h = elim (Bool-cases (r.fault_uid == "")) [
    | inl unnamed ↦ rw (file_records_unnamed t r rs unnamed) (
        ground
          (arith, eq_iff r.fault_uid "", eq_iff r.fault_uid uid, lookup-file_records uid t rs h))
    | inr named ↦ rw (file_records_named t r rs named) (elim (Bool-cases (r.fault_uid == uid)) [
      | inl mine ↦ rw mine (
          lookup-file_records uid (file_record rd t r) rs h
          ∙ rw (lookup-file_record uid t r, mine)
              (after_step uid (lookup uid t.by_uid) r (keep (is_about uid) rs)))
      | inr other ↦ rw other (
          lookup-file_records uid (file_record rd t r) rs h
          ∙ rw (lookup-file_record uid t r, other) refl)
    ])
  ]

  -- The table and what has been named so far agree.
  abbrev Knows : Table → List String → Type 0
  Knows t seen = (uid : String) → contains seen uid ≡ is_held (lookup uid t.by_uid)

  order-file_record :
      (t : Table) (r : Record)
      → (file_record rd t r).order
        ≡ (if is_held (lookup r.fault_uid t.by_uid) then t.order else t.order ++ r.fault_uid ∷ [])
  unfolding file_record
  order-file_record t r = ground arith

  file_record-Knows_old :
      (t : Table) (r : Record) (seen : List String)
      → Knows t seen
      → contains seen r.fault_uid ≡ true
      → Knows (file_record rd t r) seen
  file_record-Knows_old t r seen k old uid =
      ground (arith, k uid, lookup-file_record uid t r, eq_iff r.fault_uid uid)

  file_record-Knows_new :
      (t : Table) (r : Record) (seen : List String)
      → Knows t seen
      → Knows (file_record rd t r) (r.fault_uid ∷ seen)
  file_record-Knows_new t r seen k uid =
      ground (arith, k uid, lookup-file_record uid t r, eq_iff r.fault_uid uid)

  order-file_records :
      (t : Table) (seen : List String) (rs : List Record)
      → Knows t seen
      → (file_records rd t rs).order ≡ t.order ++ dedupe_from seen (keep is_named (map uid_of rs))
  unfolding file_records dedupe_from
  order-file_records t seen [] k = sym (append-nil t.order)
  order-file_records t seen (r ∷ rs) k = elim (Bool-cases (r.fault_uid == "")) [
    | inl unnamed ↦
        rw (file_records_unnamed t r rs unnamed, unnamed) (order-file_records t seen rs k)
    | inr named ↦
        rw (file_records_named t r rs named, named)
          (elim (Bool-cases (contains seen r.fault_uid)) [
            | inl old ↦ rw old (
                order-file_records (file_record rd t r) seen rs
                  (file_record-Knows_old t r seen k old)
                ∙ rw (order-file_record t r, sym (k r.fault_uid), old) refl)
            | inr new ↦ rw new (
                order-file_records (file_record rd t r) (r.fault_uid ∷ seen) rs
                  (file_record-Knows_new t r seen k)
                ∙ rw (order-file_record t r, sym (k r.fault_uid), new)
                    (append_assoc t.order (r.fault_uid ∷ []) _))
          ])
  ]

  rows_in-all :
      (m : List (String × FaultRow)) (f : String → FaultRow) (uids : List String)
      → ((uid : String) → contains uids uid ≡ true → lookup uid m ≡ some (f uid))
      → rows_in m uids ≡ some (map f uids)
  unfolding rows_in
  rows_in-all m f [] h = refl
  rows_in-all m f (uid ∷ uids) h =
      rw (h uid (rw (==_refl uid) refl), rows_in)
        (rw (rows_in-all m f uids (λ u i. h u (ground arith))) refl)

  after_named :
      (uid : String) (rs : List Record)
      → contains (map uid_of rs) uid ≡ true
      → after uid none (keep (is_about uid) rs) ≡ some (row_of rs uid)
  after_named uid [] h = cc
  after_named uid (r ∷ rs) h = elim (Bool-cases (r.fault_uid == uid)) [
    | inl mine ↦ rw mine refl
    | inr other ↦ rw other (after_named uid rs (rw other at h))
  ]

  pub faults_named-named :
      (rs : List Record) (uid : String)
      → contains (faults_named rs) uid ≡ true
      → (contains (map uid_of rs) uid ≡ true) × ((uid == "") ≡ false)
  faults_named-named rs uid h =
      let listed : contains (keep is_named (map uid_of rs)) uid ≡ true =
        sym (contains-dedupe_from uid [] (keep is_named (map uid_of rs))) ∙ h in
      let (i, n) = In-keep is_named uid (map uid_of rs) (contains→In _ uid listed) in
      (In→contains _ uid i, ground (arith, n))

  -- Faults never follows a nil pointer, and it returns one row for each fault that the records name,
  -- in the order in which the faults come first: the row that the fault's own records make of it, one
  -- after another, whatever records of other faults stand between them.
  pub faults_exact : (rs : List Record) → faults rd rs ≡ some (map (row_of rs) (faults_named rs))
  unfolding faults lookup
  faults_exact rs =
      let start : Table = record { by_uid = []; order = [] } in
      let order : (file_records rd start rs).order ≡ faults_named rs =
        order-file_records start [] rs (λ uid. refl) in
      rw order (
        rows_in-all (file_records rd start rs).by_uid (row_of rs) (faults_named rs) λ uid h.
          let (listed, named) = faults_named-named rs uid h in
          lookup-file_records uid start rs named ∙ after_named uid rs listed)
