-- ===== src/Loop/Cycle/Timing.antt =====
-- The order of the times that pkg/loop/loop.go keeps of a step's refusals.
use simian_agent.Loop.Cycle.{applied_as, rejected, repeated_refusal_limit}
use simian_agent.Prelude.{
  reverse, subst, length, All, All-append, ℕ, String, refl, sym, ap, inl, inr, Option, none, some,
  List, arith, ltb, leb, Bool-cases, [], ◌-◌, ◌≤◌, ◌≡◌, ◌∙◌, ◌||◌, ◌∷◌, ◌++◌, ◌==◌, if◌then◌else◌,
  nat_Eq, string_Eq,
}
use simian_agent.Simian.Types.{RejectionReason, reason_text}
use simian_agent.Loop.Cycle.Capping.{after_apply-world}
use simian_agent.Loop.Cycle.Refusing.{Ascending}
use simian_agent.Executor.History.{refusal_worth_remembering, RefusedFault}
use simian_agent.Loop.Cycle.{
  repeated_refusal_limit, submitted, Applied, PlanStep, Run, after_apply, run_step, AttackPlan,
  seed_one, ExecutorError, repeated_refusal_window, FaultManifest, recent_refusals, note_outcome,
  seed_refusals, seed_all, Executing, drop_before, times_of,
}
use simian_agent.Prelude.Assoc.{lookup-delete, lookup-insert, delete, insert}

-- Under every key the times ascend, and none is after `now`.
unfoldable pub Timely : ℕ → List (String × List ℕ) → Type 0
Timely now refusals =
    (key : String) → Ascending (times_of refusals key) × All (λ t. t ≤ now) (times_of refusals key)

abbrev or_none : Option (List ℕ) → List ℕ
or_none none = []
or_none (some ts) = ts

pub times_of-insert :
    (key k : String) (ts : List ℕ) (refusals : List (String × List ℕ))
    → times_of (insert key ts refusals) k ≡ (if key == k then ts else times_of refusals k)
unfolding times_of
times_of-insert key k ts refusals =
    ap or_none (lookup-insert key k ts refusals)
    ∙ elim (Bool-cases (key == k)) [ inl same ↦ rw same refl | inr other ↦ rw other refl ]

times_of-delete :
    (key k : String) (refusals : List (String × List ℕ))
    → times_of (delete key refusals) k ≡ (if key == k then [] else times_of refusals k)
unfolding times_of
times_of-delete key k refusals =
    ap or_none (lookup-delete key k refusals)
    ∙ elim (Bool-cases (key == k)) [ inl same ↦ rw same refl | inr other ↦ rw other refl ]

Ascending-append :
    (ts : List ℕ) (t : ℕ) → Ascending ts → All (λ u. u ≤ t) ts → Ascending (ts ++ t ∷ [])
Ascending-append [] t a b = (tt, tt)
Ascending-append (u ∷ ts) t a b =
    (All-append (λ x. u ≤ x) ts (t ∷ []) a.0 (b.0, tt), Ascending-append ts t a.1 b.1)

All-later :
    (ts : List ℕ) (now later : ℕ) → now ≤ later → All (λ t. t ≤ now) ts → All (λ t. t ≤ later) ts
All-later [] now later le a = tt
All-later (t ∷ ts) now later le a = (omega (arith, a.0), All-later ts now later le a.1)

drop_before-Ascending :
    (cutoff : ℕ) (ts : List ℕ) → Ascending ts → Ascending (drop_before cutoff ts)
unfolding drop_before
drop_before-Ascending cutoff [] a = tt
drop_before-Ascending cutoff (t ∷ ts) a = elim (Bool-cases (ltb t cutoff)) [
  | inl old ↦ rw old (drop_before-Ascending cutoff ts a.1)
  | inr recent ↦ rw recent a
]

drop_before-All :
    (now cutoff : ℕ) (ts : List ℕ)
    → All (λ t. t ≤ now) ts
    → All (λ t. t ≤ now) (drop_before cutoff ts)
unfolding drop_before
drop_before-All now cutoff [] a = tt
drop_before-All now cutoff (t ∷ ts) a = elim (Bool-cases (ltb t cutoff)) [
  | inl old ↦ rw old (drop_before-All now cutoff ts a.1)
  | inr recent ↦ rw recent a
]

later-Timely :
    (now later : ℕ) (refusals : List (String × List ℕ))
    → now ≤ later
    → Timely now refusals
    → Timely later refusals
unfolding Timely
later-Timely now later refusals le h k =
    ((h k).0, All-later (times_of refusals k) now later le (h k).1)

insert-Timely :
    (now : ℕ) (key : String) (ts : List ℕ) (refusals : List (String × List ℕ))
    → Timely now refusals
    → Ascending ts
    → All (λ t. t ≤ now) ts
    → Timely now (insert key ts refusals)
unfolding Timely
insert-Timely now key ts refusals h a b k =
    subst (λ l. Ascending l × All (λ t. t ≤ now) l) (sym (times_of-insert key k ts refusals))
      (elim (Bool-cases (key == k)) [ inl same ↦ rw same (a, b) | inr other ↦ rw other (h k) ])

delete-Timely :
    (now : ℕ) (key : String) (refusals : List (String × List ℕ))
    → Timely now refusals
    → Timely now (delete key refusals)
unfolding Timely
delete-Timely now key refusals h k =
    subst (λ l. Ascending l × All (λ t. t ≤ now) l) (sym (times_of-delete key k refusals))
      (elim (Bool-cases (key == k)) [ inl same ↦ rw same (tt, tt) | inr other ↦ rw other (h k) ])

add-Timely :
    (now later : ℕ) (key : String) (refusals : List (String × List ℕ))
    → now ≤ later
    → Timely now refusals
    → Timely later (insert key (times_of refusals key ++ later ∷ []) refusals)
unfolding Timely
add-Timely now later key refusals le h =
    let (a, b) = later-Timely now later refusals le h key in
    insert-Timely later key (times_of refusals key ++ later ∷ []) refusals
      (later-Timely now later refusals le h) (Ascending-append (times_of refusals key) later a b)
      (All-append (λ t. t ≤ later) (times_of refusals key) (later ∷ []) b (omega arith, tt))

note_outcome-Timely :
    (now later : ℕ) (key : String) (refusals : List (String × List ℕ)) (o : Option ExecutorError)
    → now ≤ later
    → Timely now refusals
    → Timely later (note_outcome refusals later key o)
unfolding note_outcome
note_outcome-Timely now later key refusals none le h = elim (Bool-cases (key == "")) [
  | inl blank ↦ rw blank (later-Timely now later refusals le h)
  | inr called ↦ rw called (delete-Timely later key refusals (later-Timely now later refusals le h))
]
note_outcome-Timely now later key refusals (some e) le h = elim (Bool-cases (key == "")) [
  | inl blank ↦ rw blank (later-Timely now later refusals le h)
  | inr called ↦ elim (Bool-cases (refusal_worth_remembering (some e))) [
    | inl worth ↦ rw (called, worth) (add-Timely now later key refusals le h)
    | inr moment ↦ rw (called, moment) (later-Timely now later refusals le h)
  ]
]

recent_refusals-Timely :
    (now later : ℕ) (key : String) (refusals : List (String × List ℕ))
    → now ≤ later
    → Timely now refusals
    → Timely later (recent_refusals refusals later key).1
unfolding recent_refusals Timely
recent_refusals-Timely now later key refusals le h =
    let cutoff = later - repeated_refusal_window in
    let old = later-Timely now later refusals le h in
    elim (Bool-cases (key == "")) [
      | inl blank ↦ rw blank old
      | inr called ↦ elim (Bool-cases (length (drop_before cutoff (times_of refusals key)) == 0)) [
        | inl gone ↦ rw (called, gone) (delete-Timely later key refusals old)
        | inr left ↦
            rw (called, left)
              (insert-Timely later key (drop_before cutoff (times_of refusals key)) refusals old
                (drop_before-Ascending cutoff (times_of refusals key) (old key).0)
                (drop_before-All later cutoff (times_of refusals key) (old key).1))
      ]
    ]

-- The refusals come in the order of their times, none before `now`.
unfoldable pub InTime : ℕ → List RefusedFault → Type 0
InTime now [] = Unit
InTime now (rf ∷ rfs) = (now ≤ rf.refused_at) × InTime rf.refused_at rfs

unfoldable pub latest : ℕ → List RefusedFault → ℕ
latest now [] = now
latest now (rf ∷ rfs) = latest rf.refused_at rfs

seed_all-Timely :
    (step_key : FaultManifest → String) (now : ℕ) (refusals : List (String × List ℕ))
    (rfs : List RefusedFault)
    → InTime now rfs
    → Timely now refusals
    → Timely (latest now rfs) (seed_all step_key refusals rfs)
unfolding seed_all seed_one reason_text InTime latest
seed_all-Timely step_key now refusals [] i h = h
seed_all-Timely step_key now refusals (rf ∷ rfs) i h =
    let key = step_key rf.manifest in
    seed_all-Timely step_key rf.refused_at (seed_one step_key refusals rf) rfs i.1
      (elim (Bool-cases (key == "" || rf.reason == reason_text RejectionReason.budget_exceeded)) [
        | inl skips ↦ rw skips (later-Timely now rf.refused_at refusals i.0 h)
        | inr counts ↦ rw counts (add-Timely now rf.refused_at key refusals i.0 h)
      ])

module _ {W : Type 0} (ex : Executing W) (step_key : FaultManifest → String)
    (plan : AttackPlan) where
  after_apply-Timely :
      (now : ℕ) (r : Run W) (key : String) (a : W × Applied)
      → now ≤ ex.clock a.0
      → Timely now r.refusals
      → Timely (ex.clock a.0) (after_apply ex step_key plan r key a).refusals
  unfolding after_apply
  after_apply-Timely now r key (w, applied_as uid) le h =
      note_outcome-Timely now (ex.clock w) key r.refusals none le h
  after_apply-Timely now r key (w, rejected e) le h =
      note_outcome-Timely now (ex.clock w) key r.refusals (some e) le h

  -- With a clock that Apply does not turn back, one step of a cycle keeps the times of the refusals
  -- in their order, under every key, and none after the clock's reading.
  pub run_step-Timely :
      (r : Run W) (s : PlanStep)
      → ((w : W) (m : FaultManifest) → ex.clock w ≤ ex.clock (ex.apply w m).0)
      → Timely (ex.clock r.world) r.refusals
      → Timely
          (ex.clock (run_step ex step_key plan r s).world)
          (run_step ex step_key plan r s).refusals
  unfolding run_step
  run_step-Timely r s onward h =
      let m = submitted plan s in
      let key = step_key m in
      let seen = recent_refusals r.refusals (ex.clock r.world) key in
      let old =
        recent_refusals-Timely (ex.clock r.world) (ex.clock r.world) key r.refusals (omega arith)
          h in
      elim (Bool-cases (leb repeated_refusal_limit seen.0)) [
        | inl held ↦ rw held old
        | inr goes ↦ rw goes (
            subst
              (λ w.
                Timely (ex.clock w)
                  (after_apply ex step_key plan (record r { refusals = seen.1 }) key
                    (ex.apply r.world m)).refusals)
              (sym (
                after_apply-world ex step_key plan (record r { refusals = seen.1 }) key
                  (ex.apply r.world m)))
              (after_apply-Timely (ex.clock r.world) (record r { refusals = seen.1 }) key
                (ex.apply r.world m) (onward r.world m) old))
      ]

-- Refusals that the history lists, newest first and in the order of their times, seed an empty record with times in their order.
pub seed_refusals-Timely :
    (step_key : FaultManifest → String) (refused : List RefusedFault)
    → InTime 0 (reverse refused)
    → Timely (latest 0 (reverse refused)) (seed_refusals step_key [] refused)
unfolding seed_refusals Timely times_of
seed_refusals-Timely step_key refused i =
    seed_all-Timely step_key 0 [] (reverse refused) i (λ k. (tt, tt))
