-- ===== src/Loop/Cycle/Restored.antt =====
-- The count of refusals after a restart: from the audit trail (pkg/executor/history.go) through the
-- history to the loop (seedRefusals of pkg/loop/loop.go).
use simian_agent.Prelude.{
  reverse, subst, length, drop, keep, In, All, All-of_In, InOrder, ℤ, ℕ, zero, suc, String, refl,
  sym, ap, inl, inr, Bool, false, List, map, arith, Bool-cases, [], ◌-◌, ◌≤◌, ◌≡◌, ◌∙◌, ◌≢◌, ◌∷◌,
  ◌++◌, ◌==◌, if◌then◌else◌, nat_Eq, string_Eq,
}
use simian_agent.Audit.Faults.{FaultRow}
use text.Mathlib.TextEquality.{eq_iff}
use simian_agent.Audit.Records.{Reading}
use simian_agent.Simian.Types.{RejectionReason, reason_text, FaultManifest}
use simian_agent.Executor.History.{list_refused, new_history, RefusedFault}
use simian_agent.Loop.Cycle.{seed_refusals, seed_all, seed_one, times_of}
use simian_agent.Loop.Cycle.Timing.{times_of-insert, seed_refusals-Timely, InTime, Timely}
use simian_agent.Loop.Cycle.Refusing.{Ascending}
use simian_agent.Executor.Seeding.{
  refusal_of, is_refusal_since, seeded, refusals_from_audit, refused_earlier,
}
use simian_agent.Executor.Seeding.Restored.{list_refused-seeded}
use simian_agent.Executor.Seeding.Refusals.{refusals_from_audit_exact, InOrder-from_audit}
use simian_agent.Prelude.Latest.{latest}
use mathlib.Core.List.{append_assoc, append-nil, reverse-reverse}

In-drop : (n : ℕ) (a : RefusedFault) (rfs : List RefusedFault) → In a (drop n rfs) → In a rfs
In-drop zero a rfs i = i
In-drop (suc n) a [] i = absurd i
In-drop (suc n) a (rf ∷ rfs) i = inr (In-drop n a rfs i)

InOrder-rest :
    (rf : RefusedFault) (rfs : List RefusedFault)
    → InOrder refused_earlier (rf ∷ rfs)
    → InOrder refused_earlier rfs
InOrder-rest rf [] h = tt
InOrder-rest rf (next ∷ rfs) h = h.1

InOrder-drop :
    (n : ℕ) (rfs : List RefusedFault)
    → InOrder refused_earlier rfs
    → InOrder refused_earlier (drop n rfs)
InOrder-drop zero rfs h = h
InOrder-drop (suc n) [] h = h
InOrder-drop (suc n) (rf ∷ rfs) h = InOrder-drop n rfs (InOrder-rest rf rfs h)

InOrder→InTime :
    (now : ℕ) (rf : RefusedFault) (rfs : List RefusedFault)
    → now ≤ rf.refused_at
    → InOrder refused_earlier (rf ∷ rfs)
    → InTime now (rf ∷ rfs)
unfolding InTime refused_earlier
InOrder→InTime now rf [] le h = (le, tt)
InOrder→InTime now rf (next ∷ rfs) le h =
    (le, InOrder→InTime rf.refused_at next rfs (ground arith) h.1)

from_start : (rfs : List RefusedFault) → InOrder refused_earlier rfs → InTime 0 rfs
unfolding InTime
from_start [] h = tt
from_start (rf ∷ rfs) h = InOrder→InTime 0 rf rfs (omega arith) h

abbrev IsCounted : RefusedFault → Type 0
IsCounted rf = (rf.reason == reason_text RejectionReason.budget_exceeded) ≡ false

IsCounted-In :
    (rd : Reading) (rows : List FaultRow) (since : ℕ) (rf : RefusedFault)
    → In rf (refusals_from_audit rd rows since)
    → IsCounted rf
unfolding is_refusal_since refusal_of
IsCounted-In rd rows since rf i =
    let (r, k, told, m) = (refusals_from_audit_exact rd rows since rf).0.0 i in
    let made = m.made in subst IsCounted made (ground (arith, told))

module _ (step_key : FaultManifest → String) where
  abbrev pub under : String → RefusedFault → Bool
  under key rf = step_key rf.manifest == key

  seed_one-times :
      (key : String) (refusals : List (String × List ℕ)) (rf : RefusedFault)
      → (key == "") ≡ false
      → IsCounted rf
      → times_of (seed_one step_key refusals rf) key ≡ (
          if under key rf
          then times_of refusals key ++ rf.refused_at ∷ []
          else times_of refusals key)
  unfolding seed_one
  seed_one-times key refusals rf named counted =
      let mine = step_key rf.manifest in
      let added =
        times_of-insert mine key (times_of refusals mine ++ rf.refused_at ∷ []) refusals in
      elim (Bool-cases (mine == key)) [
        | inl same ↦
            let q : mine ≡ key = (eq_iff mine key).0 same in
            let unblank : (mine == "") ≡ false = subst (λ k. (k == "") ≡ false) (sym q) named in
            rw (unblank, counted, same)
              (added ∙ rw same (ap (λ k. times_of refusals k ++ rf.refused_at ∷ []) q))
        | inr other ↦ elim (Bool-cases (mine == "")) [
          | inl blank ↦ rw (blank, other) refl
          | inr called ↦ rw (called, counted, other) (added ∙ rw other refl)
        ]
      ]

  seed_all-times :
      (key : String) (refusals : List (String × List ℕ)) (rfs : List RefusedFault)
      → (key == "") ≡ false
      → All IsCounted rfs
      → times_of (seed_all step_key refusals rfs) key
        ≡ times_of refusals key ++ map (λ (rf : RefusedFault). rf.refused_at) (keep (under key) rfs)
  unfolding seed_all seed_one
  seed_all-times key refusals [] named counted = sym (append-nil (times_of refusals key))
  seed_all-times key refusals (rf ∷ rfs) named counted =
      seed_all-times key (seed_one step_key refusals rf) rfs named counted.1
      ∙ ap (λ ts. ts ++ map (λ (x : RefusedFault). x.refused_at) (keep (under key) rfs))
          (seed_one-times key refusals rf named counted.0)
      ∙ elim (Bool-cases (under key rf)) [
        | inl mine ↦ rw mine (
            append_assoc (times_of refusals key) (rf.refused_at ∷ [])
              (map (λ (x : RefusedFault). x.refused_at) (keep (under key) rfs)))
        | inr other ↦ rw other refl
      ]

  module _ (rd : Reading) (capacity : ℤ) (rows : List FaultRow) where
    -- A restarted controller counts against a step the refusals that the audit trail has of it: for a
    -- key that is not empty, the times of the refusals of that key, among the newest that the trail
    -- has and a new history holds, oldest first.
    pub seed_refusals-seeded :
        (key : String) (applied_since now refused_since : ℕ)
        → key ≢ ""
        → let h = new_history capacity in
          let put_back = latest h.capacity (refusals_from_audit rd rows refused_since) in
          let listed = list_refused (seeded rd h rows applied_since now refused_since) "" 0 in
          let times = times_of (seed_refusals step_key [] listed) key in
          (times ≡ map (λ (rf : RefusedFault). rf.refused_at) (keep (under key) put_back))
          × Ascending times
    unfolding seed_refusals times_of Timely
    seed_refusals-seeded key applied_since now refused_since named =
        let h = new_history capacity in
        let all = refusals_from_audit rd rows refused_since in
        let put_back = latest h.capacity all in
        let counted : All IsCounted put_back = All-of_In IsCounted put_back λ rf i.
          IsCounted-In rd rows refused_since rf (In-drop (length all - h.capacity) rf all i) in
        let ordered : InOrder refused_earlier put_back =
          InOrder-drop (length all - h.capacity) all (InOrder-from_audit rd rows refused_since) in
        let blank : (key == "") ≡ false = ground (arith, named, eq_iff key "") in
        rw (list_refused-seeded rd capacity rows applied_since now refused_since) (
          rw (reverse-reverse put_back) (seed_all-times key [] put_back blank counted),
          (seed_refusals-Timely step_key (reverse put_back)
              (rw (reverse-reverse put_back) (from_start put_back ordered)) key).0,
        )
