-- ===== src/Executor/History.antt =====
-- pkg/executor/history.go: the ring of recently applied faults, with its index, and the ring of
-- recently refused ones, whose text for a reader is left out. The zero time in `cleared_at` means that the fault is still active.
pub mod Indexed
pub mod Clearing
pub mod Newest
use simian_agent.Prelude.{
  reverse, length, sort_by, ℤ, pos, pos_part, leb_ℤ, ℕ, zero, suc, String, Bool, true, false, not,
  Option, none, some, List, ltb, leb, [], ◌-◌, ◌&&◌, ◌∷◌, ◌++◌, ◌==◌, if◌then◌else◌, nat_Eq,
  string_Eq,
}
use simian_agent.Prelude.Assoc.{lookup, insert, delete}
use simian_agent.Simian.Types.{FaultManifest, ExecutorError, ExecutorStage, RejectionReason}
use simian_agent.Simian.Targets.{targets_namespace}

abbrev pub default_history_capacity : ℕ
default_history_capacity = 100

pub record RecentFault : Type 0 where
  pub fault_uid : String
  pub manifest : FaultManifest
  pub applied_at : ℕ
  pub cleared_at : ℕ
  pub clear_reason : String

pub record RefusedFault : Type 0 where
  pub fault_uid : String
  pub manifest : FaultManifest
  pub refused_at : ℕ
  pub stage : Option ExecutorStage
  pub reason : String

pub is_budget : RejectionReason → Bool
is_budget RejectionReason.budget_exceeded = true
is_budget _ = false

-- A budget refusal is about the moment. No error is nothing to remember.
unfoldable pub refusal_worth_remembering : Option ExecutorError → Bool
unfolding is_budget
refusal_worth_remembering none = false
refusal_worth_remembering (some e) = not (is_budget e.reason)

pub record History : Type 0 where
  pub capacity : ℕ
  pub items : List RecentFault
  pub by_uid : List (String × ℕ)
  pub refused : List RefusedFault

-- A capacity of 0 or less takes the default.
unfoldable pub new_history : ℤ → History
new_history capacity = record {
  capacity = if leb_ℤ capacity (pos 0) then default_history_capacity else pos_part capacity;
  items = [];
  by_uid = [];
  refused = [];
}

unfoldable pub tail_of {ℓ} : {A : Type ℓ} → List A → List A
tail_of [] = []
tail_of (x ∷ xs) = xs

unfoldable pub push_refused : History → RefusedFault → History
unfolding tail_of
push_refused h rf =
    let kept = if leb h.capacity (length h.refused) then tail_of h.refused else h.refused in
    record h { refused = kept ++ rf ∷ [] }

-- The walk from the newest: `count` entries are out already; a limit of 0 takes all.
unfoldable pub newest {ℓ} : {A : Type ℓ} → (A → Bool) → ℕ → ℕ → List A → List A
newest p limit count [] = []
newest p limit count (x ∷ xs) =
    let skip = newest p limit count xs in
    let more = x ∷ newest p limit (suc count) xs in
    if not (p x) then skip else if ltb 0 limit && leb limit (suc count) then x ∷ [] else more

unfoldable pub list_refused : History → String → ℕ → List RefusedFault
unfolding newest
list_refused h ns limit =
    newest (λ rf. targets_namespace rf.manifest ns) limit 0 (reverse h.refused)

-- Every index moves down by one.
pub shift : List (String × ℕ) → List (String × ℕ)
shift [] = []
shift ((k, v) ∷ m) = (k, v - 1) ∷ shift m

unfoldable pub evict : History → List RecentFault → History
unfolding shift delete
evict h [] = h
evict h (oldest ∷ rest) = record h {
  items = rest;
  by_uid = shift (delete oldest.fault_uid h.by_uid);
}

unfoldable pub make_room : History → History
unfolding evict
make_room h = if leb h.capacity (length h.items) then evict h h.items else h

unfoldable pub add_entry : History → RecentFault → History
unfolding insert
add_entry h rf = record h {
  items = h.items ++ rf ∷ [];
  by_uid = insert rf.fault_uid (length h.items) h.by_uid;
}

unfoldable pub push : History → RecentFault → History
unfolding make_room add_entry
push h rf = if rf.fault_uid == "" then h else add_entry (make_room h) rf

pub is_some {ℓ} : {A : Type ℓ} → Option A → Bool
is_some none = false
is_some (some a) = true

unfoldable pub has : History → String → Bool
unfolding lookup is_some
has h fault_uid = is_some (lookup fault_uid h.by_uid)

pub clear_at : List RecentFault → ℕ → ℕ → String → List RecentFault
clear_at [] i at reason = []
clear_at (x ∷ xs) zero at reason = record x { cleared_at = at; clear_reason = reason } ∷ xs
clear_at (x ∷ xs) (suc i) at reason = x ∷ clear_at xs i at reason

unfoldable pub update_cleared : History → String → ℕ → String → History
unfolding lookup clear_at
update_cleared h fault_uid at reason = elim (lookup fault_uid h.by_uid) [
  | none ↦ h
  | some i ↦ record h { items = clear_at h.items i at reason }
]

abbrev pub applied_later : RecentFault → RecentFault → Bool
applied_later a b = leb b.applied_at a.applied_at

unfoldable pub list : History → String → ℕ → List RecentFault
unfolding newest sort_by
list h ns limit =
    sort_by applied_later
      (newest (λ rf. targets_namespace rf.manifest ns) limit 0 (reverse h.items))
