-- ===== src/Executor/History/Clearing.antt =====
-- What UpdateCleared changes, and what it leaves alone.
use simian_agent.Prelude.{
  length, get_elem?, ℕ, zero, suc, String, refl, ap, inl, inr, true, false, some, List, arith,
  string_Eq, Option-cases, ==_refl, [], ◌≡◌, ◌∙◌, ◌≢◌, ◌⊎◌, ◌∷◌, ◌==◌, nat_Eq,
}
use simian_agent.Prelude.Assoc.{lookup, lookup-insert}
use simian_agent.Executor.History.Indexed.{Inv, uid_at}
use simian_agent.Executor.History.{
  RecentFault, History, add_entry, make_room, push, has, clear_at, update_cleared,
}

entry_at :
    (xs : List RecentFault) (i : ℕ) (k : String)
    → uid_at xs i ≡ some k
    → (rf : RecentFault) × (get_elem? xs i ≡ some rf) × (rf.fault_uid ≡ k)
entry_at [] i k e = cc
entry_at (x ∷ xs) zero k e = (x, refl, ground arith)
entry_at (x ∷ xs) (suc i) k e = entry_at xs i k e

uid_at-clear_at :
    (xs : List RecentFault) (i at : ℕ) (reason : String) (j : ℕ)
    → uid_at (clear_at xs i at reason) j ≡ uid_at xs j
unfolding clear_at
uid_at-clear_at [] i at reason j = refl
uid_at-clear_at (x ∷ xs) zero at reason zero = refl
uid_at-clear_at (x ∷ xs) zero at reason (suc j) = refl
uid_at-clear_at (x ∷ xs) (suc i) at reason zero = refl
uid_at-clear_at (x ∷ xs) (suc i) at reason (suc j) = uid_at-clear_at xs i at reason j

length-clear_at :
    (xs : List RecentFault) (i at : ℕ) (reason : String)
    → length (clear_at xs i at reason) ≡ length xs
unfolding clear_at
length-clear_at [] i at reason = refl
length-clear_at (x ∷ xs) zero at reason = refl
length-clear_at (x ∷ xs) (suc i) at reason = ap suc (length-clear_at xs i at reason)

cleared_there :
    (xs : List RecentFault) (i at : ℕ) (reason : String) (rf : RecentFault)
    → get_elem? xs i ≡ some rf
    → get_elem? (clear_at xs i at reason) i
      ≡ some (record rf { cleared_at = at; clear_reason = reason })
unfolding clear_at
cleared_there [] i at reason rf e = cc
cleared_there (x ∷ xs) zero at reason rf e = ground arith
cleared_there (x ∷ xs) (suc i) at reason rf e = cleared_there xs i at reason rf e

untouched_elsewhere :
    (xs : List RecentFault) (i at : ℕ) (reason : String) (j : ℕ)
    → j ≢ i
    → get_elem? (clear_at xs i at reason) j ≡ get_elem? xs j
unfolding clear_at
untouched_elsewhere [] i at reason j h = refl
untouched_elsewhere (x ∷ xs) zero at reason zero h = absurd (h refl)
untouched_elsewhere (x ∷ xs) zero at reason (suc j) h = refl
untouched_elsewhere (x ∷ xs) (suc i) at reason zero h = refl
untouched_elsewhere (x ∷ xs) (suc i) at reason (suc j) h =
    untouched_elsewhere xs i at reason j (λ e. h (ap suc e))

pub update_cleared-Inv :
    (h : History) (uid : String) (at : ℕ) (reason : String)
    → Inv h
    → Inv (update_cleared h uid at reason)
unfolding update_cleared
update_cleared-Inv h uid at reason v = elim (Option-cases (lookup uid h.by_uid)) [
  | inl missing ↦ rw (missing, update_cleared) v
  | inr (i, found) ↦
      rw (found, update_cleared)
        (record {
          has_room = v.has_room;
          bounded = omega (arith, v.bounded, length-clear_at h.items i at reason);
          refused_bounded = v.refused_bounded;
          indexed = λ k j e. uid_at-clear_at h.items i at reason j ∙ v.indexed k j e;
        })
]

-- Under the ring's invariant, UpdateCleared of an identifier that the history has marks exactly one
-- entry, one with that identifier, and leaves every other entry, the index and the refusals alone;
-- of one that it does not have it changes nothing.
pub update_cleared_exact :
    (h : History) (uid : String) (at : ℕ) (reason : String)
    → Inv h
    → let t = update_cleared h uid at reason in
      ((has h uid ≡ false) × (t ≡ h))
      ⊎ ((has h uid ≡ true)
          × (i : ℕ) × (rf : RecentFault) × (get_elem? h.items i ≡ some rf)
          × (rf.fault_uid ≡ uid)
          × (get_elem? t.items i ≡ some (record rf { cleared_at = at; clear_reason = reason }))
          × ((j : ℕ) → j ≢ i → get_elem? t.items j ≡ get_elem? h.items j)
          × (t.by_uid ≡ h.by_uid)
          × (t.refused ≡ h.refused))
unfolding update_cleared has
update_cleared_exact h uid at reason v = elim (Option-cases (lookup uid h.by_uid)) [
  | inl missing ↦ inl (rw missing refl, rw (missing, update_cleared) refl)
  | inr (i, found) ↦
      let (rf, there, own) = entry_at h.items i uid (v.indexed uid i found) in
      inr (
        rw found refl,
        i,
        rf,
        there,
        own,
        rw (found, update_cleared) (cleared_there h.items i at reason rf there),
        λ j away. rw (found, update_cleared) (untouched_elsewhere h.items i at reason j away),
        rw (found, update_cleared) refl,
        rw (found, update_cleared) refl,
      )
]

-- A fault with an identifier is among the recent faults as soon as it is pushed.
pub has-push :
    (h : History) (rf : RecentFault) → rf.fault_uid ≢ "" → has (push h rf) rf.fault_uid ≡ true
unfolding has push add_entry
has-push h rf named =
    let fact : (rf.fault_uid == "") ≡ false = ground (arith, string_Eq.beq_iff rf.fault_uid "") in
    rw fact (
      ground (
        arith,
        ==_refl rf.fault_uid,
        lookup-insert rf.fault_uid rf.fault_uid (length (make_room h).items) (make_room h).by_uid,
      ))
