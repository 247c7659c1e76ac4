-- ===== src/Audit/Logs/Latest.antt =====
-- The logs of pkg/audit beside a log with no limit.
use simian_agent.Prelude.{
  length, keep, ℤ, pos, negsuc, ℕ, zero, suc, refl, sym, ap, inl, inr, Bool, true, not, List, arith,
  ltb, Bool-cases, [], ◌-◌, ◌<◌, ◌≡◌, ◌∙◌, ◌∷◌, ◌++◌, if◌then◌else◌,
}
use mathlib.Core.List.{append_assoc, append-nil}
use simian_agent.Audit.Records.{Record}
use simian_agent.Prelude.Latest.{latest, latest-append, drop_none}
use simian_agent.Audit.Logs.{
  new_fault_log, is_fault_record, is_cycle_record, add_fault_record, limit_or, add_cycle_record,
  new_cycle_log, append_record, Log, trimmed,
}

trimmed_lem : (max : ℕ) (rs : List Record) → trimmed max rs ≡ latest max rs
unfolding trimmed
trimmed_lem max rs = elim (Bool-cases (ltb max (length rs))) [
  | inl over ↦ rw over refl
  | inr fits ↦
      let none_over : length rs - max ≡ 0 = ground (arith, fits) in rw (fits, none_over) refl
]

-- All records, added one after another.
module _ (add : Log → Record → Log) where
  abbrev pub add_all : Log → List Record → Log
  add_all l [] = l
  add_all l (r ∷ rs) = add_all (add l r) rs

module _ (takes : Record → Bool) (add : Log → Record → Log)
    (adds : (l : Log) (r : Record)
      → add l r ≡ (if not (takes r) then l else append_record l r)) where
  -- The log holds the newest of what it has taken so far.
  abbrev Holds : Log → List Record → Type 0
  Holds l sofar = (l.records ≡ latest l.max sofar) × (0 < l.max)

  add-Holds_taken :
      (l : Log) (sofar : List Record) (r : Record)
      → takes r ≡ true
      → Holds l sofar
      → Holds (add l r) (sofar ++ r ∷ []) × ((add l r).max ≡ l.max)
  unfolding append_record
  add-Holds_taken l sofar r t h =
      let e : add l r ≡ append_record l r = adds l r ∙ rw t refl in
      rw e (
        (
          trimmed_lem l.max (l.records ++ r ∷ [])
              ∙ ap (λ x. latest l.max (x ++ r ∷ [])) h.0
              ∙ latest-append l.max sofar r h.1,
          h.1,
        ),
        refl,
      )

  add_all-Holds :
      (l : Log) (sofar rs : List Record)
      → Holds l sofar
      → (add_all add l rs).records ≡ latest l.max (sofar ++ keep takes rs)
  add_all-Holds l sofar [] h = h.0 ∙ ap (latest l.max) (sym (append-nil sofar))
  add_all-Holds l sofar (r ∷ rs) h = elim (Bool-cases (takes r)) [
    | inl t ↦
        let (held, same) = add-Holds_taken l sofar r t h in
        add_all-Holds (add l r) (sofar ++ r ∷ []) rs held
        ∙ rw (same, t) (ap (latest l.max) (append_assoc sofar (r ∷ []) (keep takes rs)))
    | inr f ↦
        let e : add l r ≡ l = adds l r ∙ rw f refl in
        ap (λ x. (add_all add x rs).records) e ∙ rw f (add_all-Holds l sofar rs h)
  ]

limit_or-pos : (default : ℕ) (max : ℤ) → 0 < default → 0 < limit_or default max
limit_or-pos default (negsuc n) h = h
limit_or-pos default (pos zero) h = h
limit_or-pos default (pos (suc n)) h = omega arith

add_cycle_record_lem :
    (l : Log) (r : Record)
    → add_cycle_record l r ≡ (if not (is_cycle_record r) then l else append_record l r)
unfolding add_cycle_record
add_cycle_record_lem l r = refl

add_fault_record_lem :
    (l : Log) (r : Record)
    → add_fault_record l r ≡ (if not (is_fault_record r) then l else append_record l r)
unfolding add_fault_record
add_fault_record_lem l r = refl

-- However many records are added to a new log, it holds the newest of those that it takes, as many as
-- its limit, in order: the cycle log of the events of cycles, the fault log of those that name a
-- fault.
pub logs_hold_latest :
    (max : ℤ) (rs : List Record)
    → let cycle_log = new_cycle_log max in
      let fault_log = new_fault_log max in
      ((add_all add_cycle_record cycle_log rs).records
        ≡ latest cycle_log.max (keep is_cycle_record rs))
      × ((add_all add_fault_record fault_log rs).records
          ≡ latest fault_log.max (keep is_fault_record rs))
unfolding new_cycle_log new_fault_log
logs_hold_latest max rs = (
  add_all-Holds is_cycle_record add_cycle_record add_cycle_record_lem (new_cycle_log max) [] rs
      (sym (drop_none [] _ (omega arith)), limit_or-pos 5000 max (omega arith)),
  add_all-Holds is_fault_record add_fault_record add_fault_record_lem (new_fault_log max) [] rs
      (sym (drop_none [] _ (omega arith)), limit_or-pos 20000 max (omega arith)),
)
