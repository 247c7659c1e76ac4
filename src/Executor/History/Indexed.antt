-- ===== src/Executor/History/Indexed.antt =====
-- The index by UID of the applied-faults ring in pkg/executor/history.go.
use simian_agent.Prelude.{
  subst, length, length-append, ℤ, ℕ, zero, suc, String, refl, sym, ap, inl, inr, false, Option,
  none, some, List, arith, leb, string_Eq, Bool-cases, [], ◌-◌, ◌≤◌, ◌<◌, ◌≡◌, ◌∙◌, ◌∷◌, ◌++◌, ◌==◌,
  nat_Eq,
}
use simian_agent.Prelude.Assoc.{lookup, delete, lookup-insert, lookup-delete}
use simian_agent.Executor.History.{
  RecentFault, RefusedFault, History, new_history, tail_of, push_refused, shift, evict, make_room,
  add_entry, push,
}

-- The identifier of the entry at an index.
abbrev pub uid_at : List RecentFault → ℕ → Option String
uid_at [] i = none
uid_at (x ∷ xs) zero = some x.fault_uid
uid_at (x ∷ xs) (suc i) = uid_at xs i

abbrev pub Indexes : List (String × ℕ) → List RecentFault → Type 0
Indexes m items = (k : String) (i : ℕ) → lookup k m ≡ some i → uid_at items i ≡ some k

pub record Inv (h : History) : Type 0 where
  pub has_room : 0 < h.capacity
  pub bounded : length h.items ≤ h.capacity
  pub refused_bounded : length h.refused ≤ h.capacity
  pub indexed : Indexes h.by_uid h.items

pub new_history-Inv : (capacity : ℤ) → Inv (new_history capacity)
unfolding new_history lookup
new_history-Inv capacity = record {
  has_room = ground arith;
  bounded = omega arith;
  refused_bounded = omega arith;
  indexed = λ k i e. cc;
}

lookup-shift :
    (k : String) (m : List (String × ℕ)) (i : ℕ)
    → lookup k (shift m) ≡ some i
    → (j : ℕ) × (lookup k m ≡ some j) × (i ≡ j - 1)
unfolding lookup shift
lookup-shift k [] i e = cc
lookup-shift k ((u, v) ∷ m) i e = elim (Bool-cases (u == k)) [
  | inl t ↦ (v, rw t refl, ground arith)
  | inr f ↦ let (j, p, q) = lookup-shift k m i (rw f at e) in (j, rw f p, q)
]

evict-Indexes :
    (m : List (String × ℕ)) (x : RecentFault) (xs : List RecentFault)
    → Indexes m (x ∷ xs)
    → Indexes (shift (delete x.fault_uid m)) xs
evict-Indexes m x xs h k i e =
    let (j, found, less) = lookup-shift k (delete x.fault_uid m) i e in
    elim (Bool-cases (x.fault_uid == k)) [
      | inl t ↦
          let gone : lookup k (delete x.fault_uid m) ≡ none =
            ground (arith, lookup-delete x.fault_uid k m) in
          absurd (cc)
      | inr f ↦
          let there : lookup k m ≡ some j = ground (arith, lookup-delete x.fault_uid k m) in
          moved j i f less (h k j there)
    ]
  where
    moved :
        (j i : ℕ)
        → (x.fault_uid == k) ≡ false
        → i ≡ j - 1
        → uid_at (x ∷ xs) j ≡ some k
        → uid_at xs i ≡ some k
    moved zero i f less e =
        let no : ⊥ = ground (arith, string_Eq.beq_iff x.fault_uid k) in absurd no
    moved (suc j) i f less e = let p : i ≡ j = omega arith in rw p e

uid_at-append :
    (xs ys : List RecentFault) (i : ℕ) (k : String)
    → uid_at xs i ≡ some k
    → uid_at (xs ++ ys) i ≡ some k
uid_at-append [] ys i k e = cc
uid_at-append (x ∷ xs) ys zero k e = e
uid_at-append (x ∷ xs) ys (suc i) k e = uid_at-append xs ys i k e

uid_at_last :
    (xs : List RecentFault) (x : RecentFault) → uid_at (xs ++ x ∷ []) (length xs) ≡ some x.fault_uid
uid_at_last [] x = refl
uid_at_last (y ∷ xs) x = uid_at_last xs x

make_room-Inv :
    (h : History)
    → Inv h
    → Inv (make_room h) × (length (make_room h).items < (make_room h).capacity)
unfolding make_room evict
make_room-Inv h v = elim (Bool-cases (leb h.capacity (length h.items))) [
  | inr f ↦ rw f (v, ground arith)
  | inl t ↦ rw t (go h.items refl)
]
  where
    go :
        (l : List RecentFault)
        → h.items ≡ l
        → Inv (evict h l) × (length (evict h l).items < (evict h l).capacity)
    go [] e = (v, omega (arith, v.has_room, ap length e))
    go (x ∷ xs) e =
        let size : length h.items ≡ suc (length xs) = ap length e in
        let low : suc (length xs) ≤ h.capacity = omega (arith, v.bounded) in
        (
          record {
            has_room = v.has_room;
            bounded = omega arith;
            refused_bounded = v.refused_bounded;
            indexed = evict-Indexes h.by_uid x xs (subst (Indexes h.by_uid) e v.indexed);
          },
          omega arith,
        )

add_entry-Inv :
    (h : History) (rf : RecentFault) → Inv h → length h.items < h.capacity → Inv (add_entry h rf)
unfolding add_entry
add_entry-Inv h rf v low = record {
  has_room = v.has_room;
  bounded = omega (arith, length-append h.items (rf ∷ []));
  refused_bounded = v.refused_bounded;
  indexed = λ k i e. elim (Bool-cases (rf.fault_uid == k)) [
    | inl t ↦
        let p : some (length h.items) ≡ some i =
          sym (rw t at (lookup-insert rf.fault_uid k (length h.items) h.by_uid)) ∙ e in
        ground (arith, uid_at_last h.items rf, string_Eq.beq_iff rf.fault_uid k)
    | inr f ↦
        uid_at-append h.items (rf ∷ []) i k
          (v.indexed k i (ground (arith, lookup-insert rf.fault_uid k (length h.items) h.by_uid)))
  ];
}

-- Push keeps both rings within the capacity, and the index right: an identifier that it has leads to
-- an entry with that identifier, also after evictions have moved every entry.
pub push-Inv : (h : History) (rf : RecentFault) → Inv h → Inv (push h rf)
unfolding push
push-Inv h rf v = elim (Bool-cases (rf.fault_uid == "")) [
  | inl blank ↦ rw blank v
  | inr named ↦
      let (room, low) = make_room-Inv h v in rw named (add_entry-Inv (make_room h) rf room low)
]

length-tail_of : (xs : List RefusedFault) (n : ℕ) → length xs ≤ n → 0 < n → length (tail_of xs) < n
unfolding tail_of
length-tail_of [] n h p = p
length-tail_of (x ∷ xs) n h p = h

pub push_refused-Inv : (h : History) (rf : RefusedFault) → Inv h → Inv (push_refused h rf)
unfolding push_refused
push_refused-Inv h rf v = record {
  has_room = v.has_room;
  bounded = v.bounded;
  refused_bounded = elim (Bool-cases (leb h.capacity (length h.refused))) [
    | inl t ↦ rw t (
        omega (
          arith,
          length-append (tail_of h.refused) (rf ∷ []),
          length-tail_of h.refused h.capacity v.refused_bounded v.has_room,
        ))
    | inr f ↦
        let low : length h.refused < h.capacity = ground arith in
        rw f (omega (arith, length-append h.refused (rf ∷ [])))
  ];
  indexed = v.indexed;
}
