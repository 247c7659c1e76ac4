-- ===== src/Executor/Seeding/Restored.antt =====
-- What the history of a restarted controller lists of its refusals.
use simian_agent.Prelude.{
  reverse, length, drop, keep, length-append, ℤ, pos, negsuc, pos_part, leb_ℤ, ℕ, refl, sym, ap,
  inl, inr, false, List, arith, leb, Bool-cases, [], ◌-◌, ◌≤◌, ◌<◌, ◌≡◌, ◌∙◌, ◌∷◌, ◌++◌, ◌==◌,
  if◌then◌else◌, nat_Eq, string_Eq,
}
use simian_agent.Executor.History.Newest.{list_refused_exact}
use simian_agent.Executor.Seeding.{
  recent_from_audit, refusals_from_audit, seeded, push_all_refused, push_all,
}
use simian_agent.Executor.History.{
  add_entry, RecentFault, tail_of, push_refused, make_room, list_refused, push, evict, RefusedFault,
  History, new_history,
}
use simian_agent.Prelude.Latest.{latest, latest-append, drop-append, length-drop, drop_none}
use mathlib.Core.List.{append_assoc, append-nil}
use simian_agent.Simian.Targets.{targets_namespace}
use simian_agent.Executor.History.Newest.{list_refused_exact}
use simian_agent.Audit.Records.{Reading}
use simian_agent.Audit.Faults.{FaultRow}

evict-same :
    (h : History) (items : List RecentFault)
    → ((evict h items).refused ≡ h.refused) × ((evict h items).capacity ≡ h.capacity)
unfolding evict
evict-same h [] = (refl, refl)
evict-same h (x ∷ xs) = (refl, refl)

push-same :
    (h : History) (rf : RecentFault)
    → ((push h rf).refused ≡ h.refused) × ((push h rf).capacity ≡ h.capacity)
unfolding push make_room add_entry
push-same h rf = elim (Bool-cases (rf.fault_uid == "")) [
  | inl blank ↦ rw blank (refl, refl)
  | inr called ↦ elim (Bool-cases (leb h.capacity (length h.items))) [
    | inl full ↦ rw (called, full) (evict-same h h.items)
    | inr room ↦ rw (called, room) (refl, refl)
  ]
]

push_all-same :
    (h : History) (rfs : List RecentFault)
    → ((push_all h rfs).refused ≡ h.refused) × ((push_all h rfs).capacity ≡ h.capacity)
unfolding push_all
push_all-same h [] = (refl, refl)
push_all-same h (rf ∷ rfs) =
    let (a, b) = push_all-same (push h rf) rfs in let (c, d) = push-same h rf in (a ∙ c, b ∙ d)

-- The refusals are the newest of those that came in.
abbrev Holds : History → List RefusedFault → Type 0
Holds h sofar = (h.refused ≡ latest h.capacity sofar) × (0 < h.capacity)

abbrev pushed : ℕ → List RefusedFault → RefusedFault → List RefusedFault
pushed n rfs rf = (if leb n (length rfs) then tail_of rfs else rfs) ++ rf ∷ []

tail_of-drop : (rfs : List RefusedFault) → tail_of rfs ≡ drop 1 rfs
unfolding tail_of
tail_of-drop [] = refl
tail_of-drop (rf ∷ rfs) = refl

pushed-latest :
    (n : ℕ) (rfs : List RefusedFault) (rf : RefusedFault)
    → 0 < n
    → length rfs ≤ n
    → pushed n rfs rf ≡ latest n (rfs ++ rf ∷ [])
pushed-latest n rfs rf some_room fits = elim (Bool-cases (leb n (length rfs))) [
  | inl full ↦
      let one : length (rfs ++ rf ∷ []) - n ≡ 1 = ground (arith, length-append rfs (rf ∷ [])) in
      rw (full, one, tail_of-drop rfs) (sym (drop-append 1 rfs (rf ∷ []) (ground arith)))
  | inr room ↦
      let no_more : length (rfs ++ rf ∷ []) - n ≡ 0 = ground (arith, length-append rfs (rf ∷ [])) in
      rw (room, no_more) refl
]

push_refused-latest :
    (n : ℕ) (sofar : List RefusedFault) (rf : RefusedFault)
    → 0 < n
    → pushed n (latest n sofar) rf ≡ latest n (sofar ++ rf ∷ [])
push_refused-latest n sofar rf some_room =
    pushed-latest n (latest n sofar) rf some_room
      (omega (arith, length-drop (length sofar - n) sofar))
    ∙ latest-append n sofar rf some_room

push_all_refused-Holds :
    (h : History) (sofar rfs : List RefusedFault)
    → Holds h sofar
    → (push_all_refused h rfs).refused ≡ latest h.capacity (sofar ++ rfs)
unfolding push_all_refused push_refused
push_all_refused-Holds h sofar [] hs = hs.0 ∙ ap (latest h.capacity) (sym (append-nil sofar))
push_all_refused-Holds h sofar (rf ∷ rfs) hs =
    push_all_refused-Holds (push_refused h rf) (sofar ++ rf ∷ []) rfs
      (ap (λ l. pushed h.capacity l rf) hs.0 ∙ push_refused-latest h.capacity sofar rf hs.1, hs.1)
    ∙ ap (latest h.capacity) (append_assoc sofar (rf ∷ []) rfs)

pos_part-pos : (n : ℤ) → leb_ℤ n (pos 0) ≡ false → 0 < pos_part n
pos_part-pos (pos n) h = ground arith
pos_part-pos (negsuc n) h = ground arith

pub capacity-pos : (capacity : ℤ) → 0 < (new_history capacity).capacity
unfolding new_history
capacity-pos capacity = ground (arith, pos_part-pos capacity)

all_listed :
    (rfs : List RefusedFault)
    → keep (λ (rf : RefusedFault). targets_namespace rf.manifest "") rfs ≡ rfs
unfolding targets_namespace
all_listed [] = refl
all_listed (rf ∷ rfs) = ap (λ l. rf ∷ l) (all_listed rfs)

-- A restarted controller's history lists the newest of the refusals that the trail has, as many as it
-- has room for, newest first.
pub list_refused-seeded :
    (rd : Reading) (capacity : ℤ) (rows : List FaultRow) (applied_since now refused_since : ℕ)
    → let h = new_history capacity in
      list_refused (seeded rd h rows applied_since now refused_since) "" 0
      ≡ reverse (latest h.capacity (refusals_from_audit rd rows refused_since))
unfolding list_refused seeded new_history
list_refused-seeded rd capacity rows applied_since now refused_since =
    let h = new_history capacity in
    let before = push_all h (recent_from_audit rd rows applied_since now) in
    let (none_yet, cap) = push_all-same h (recent_from_audit rd rows applied_since now) in
    let rfs = refusals_from_audit rd rows refused_since in
    let held : Holds before [] = (
      none_yet ∙ sym (drop_none [] (length {A = RefusedFault} [] - before.capacity) (omega arith)),
      rw cap (capacity-pos capacity),
    ) in
    (list_refused_exact (push_all_refused before rfs) "" 0).0
    ∙ all_listed (reverse (push_all_refused before rfs).refused)
    ∙ ap reverse (push_all_refused-Holds before [] rfs held ∙ ap (λ n. latest n rfs) cap)
