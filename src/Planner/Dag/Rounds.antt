-- ===== src/Planner/Dag/Rounds.antt =====
-- One round takes the ready orders off, and what the loop returns in the end.
use simian_agent.Prelude.{
  length, In, All, contains, All-of_In, In→contains, In-sort_by, Distinct, sort_by-Distinct, ℕ,
  refl, inl, inr, true, false, some, List, arith, leb, nat_eq_iff, Bool-cases, Option-cases, [],
  ◌+◌, ◌≡◌, ◌∷◌, ◌==◌, nat_Eq, string_Eq,
}
use simian_agent.Prelude.Assoc.{lookup, IsMap, Absent, lookup_of_Absent}
use simian_agent.Planner.Dag.{remove_one, remove_layer, ready, layer_of}
use simian_agent.Planner.Dag.Degrees.{
  Degrees, pending, remove_one-Degrees, remove_one-IsMap, length-remove_one,
}

-- The orders that are done after a layer, in the order in which they are removed.
abbrev pub mark : List ℕ → List ℕ → List ℕ
mark done [] = done
mark done (o ∷ os) = mark (o ∷ done) os

-- An order of the plan that is not done and waits for nothing.
abbrev pub IsReady : List ℕ → List (ℕ × List ℕ) → ℕ → Type 0
IsReady done deps o =
    (contains done o ≡ false) × ((ds : List ℕ) × (lookup o deps ≡ some ds) × (pending done ds ≡ 0))

ready-lookup :
    (indeg : List (ℕ × ℕ)) (o : ℕ) → IsMap indeg → In o (ready indeg) → lookup o indeg ≡ some 0
unfolding lookup ready
ready-lookup [] o u i = absurd i
ready-lookup ((k, n) ∷ m) o u i = elim (Bool-cases (n == 0)) [
  | inl t ↦ first t (λ r. ready-lookup m o u.1 r) (rw t at i)
  | inr f ↦ later (ready-lookup m o u.1 (rw f at i))
]
  where
    later : lookup o m ≡ some 0 → lookup o ((k, n) ∷ m) ≡ some 0
    later p = ground (arith, lookup_of_Absent k m u.0, nat_eq_iff k o)

    first :
        (n == 0) ≡ true
        → (In o (ready m) → lookup o m ≡ some 0)
        → In o (k ∷ ready m)
        → lookup o ((k, n) ∷ m) ≡ some 0
    first t ih (inl e) = ground (arith, nat_eq_iff k o)
    first t ih (inr r) = later (ih r)

contains-ready-Absent : (k : ℕ) (m : List (ℕ × ℕ)) → Absent k m → contains (ready m) k ≡ false
unfolding ready
contains-ready-Absent k [] a = refl
contains-ready-Absent k ((j, n) ∷ m) a =
    ground (arith, contains-ready-Absent k m a.1, nat_eq_iff j k)

ready-Distinct : (indeg : List (ℕ × ℕ)) → IsMap indeg → Distinct (ready indeg)
unfolding ready
ready-Distinct [] u = tt
ready-Distinct ((k, n) ∷ m) u = ground (arith, contains-ready-Absent k m u.0, ready-Distinct m u.1)

pub IsReady_of_lookup :
    (done : List ℕ) (deps : List (ℕ × List ℕ)) (indeg : List (ℕ × ℕ)) (o n : ℕ)
    → Degrees done deps indeg
    → lookup o indeg ≡ some n
    → (contains done o ≡ false)
      × ((ds : List ℕ) × (lookup o deps ≡ some ds) × (pending done ds ≡ n))
IsReady_of_lookup done deps indeg o n j e = elim (Option-cases (lookup o deps)) [
  | inl missing ↦ let no : ⊥ = ground (arith, j o) in absurd no
  | inr (ds, found) ↦ (ground (arith, j o), (ds, found, ground (arith, j o)))
]

layer-IsReady :
    (done : List ℕ) (deps : List (ℕ × List ℕ)) (indeg : List (ℕ × ℕ)) (o : ℕ)
    → IsMap indeg
    → Degrees done deps indeg
    → In o (layer_of indeg)
    → IsReady done deps o
layer-IsReady done deps indeg o u j i =
    IsReady_of_lookup done deps indeg o 0 j
      (ready-lookup indeg o u ((In-sort_by leb o (ready indeg)).0 i))

-- Not done, and in the plan: what the orders of a layer are when their turn comes.
abbrev Fresh : List (ℕ × List ℕ) → List ℕ → List ℕ → Type 0
Fresh deps done [] = Unit
Fresh deps done (o ∷ os) =
    (contains done o ≡ false)
    × ((ds : List ℕ) × (lookup o deps ≡ some ds))
    × Fresh deps (o ∷ done) os

Fresh-of_Distinct :
    (deps : List (ℕ × List ℕ)) (done l : List ℕ)
    → Distinct l
    → ((o : ℕ) → In o l → (contains done o ≡ false) × ((ds : List ℕ) × (lookup o deps ≡ some ds)))
    → Fresh deps done l
Fresh-of_Distinct deps done [] d h = tt
Fresh-of_Distinct deps done (o ∷ os) d h = (
  (h o (inl refl)).0,
  (h o (inl refl)).1,
  Fresh-of_Distinct deps (o ∷ done) os d.1 (λ x i.
      (ground (arith, (h x (inr i)).0, In→contains os x i, nat_eq_iff o x), (h x (inr i)).1)),
)

-- What holds between two rounds.
pub record Round (deps : List (ℕ × List ℕ)) (done : List ℕ) (indeg : List (ℕ × ℕ)) : Type 0 where
  pub is_map : IsMap indeg
  pub degrees : Degrees done deps indeg

remove_layer-Round :
    (deps : List (ℕ × List ℕ)) (done : List ℕ) (indeg : List (ℕ × ℕ)) (l : List ℕ)
    → IsMap deps
    → Fresh deps done l
    → Round deps done indeg
    → Round deps (mark done l) (remove_layer deps indeg l)
      × (length (remove_layer deps indeg l) + length l ≡ length indeg)
unfolding remove_layer
remove_layer-Round deps done indeg [] ud f r = (r, omega arith)
remove_layer-Round deps done indeg (o ∷ os) ud f r =
    let (ds, found) = f.1 in
    let there : lookup o indeg ≡ some (pending done ds) = ground (arith, r.degrees o) in
    let next : Round deps (o ∷ done) (remove_one deps indeg o) = record {
      is_map = remove_one-IsMap deps indeg o r.is_map;
      degrees = remove_one-Degrees deps done indeg o ud f.0 r.degrees;
    } in
    let (after, sized) =
      remove_layer-Round deps (o ∷ done) (remove_one deps indeg o) os ud f.2 next in
    (after, omega (arith, sized, length-remove_one deps indeg o (pending done ds) r.is_map there))

-- The round that the loop makes.
pub Round-Round :
    (deps : List (ℕ × List ℕ)) (done : List ℕ) (indeg : List (ℕ × ℕ))
    → IsMap deps
    → Round deps done indeg
    → Round deps (mark done (layer_of indeg)) (remove_layer deps indeg (layer_of indeg))
      × (length (remove_layer deps indeg (layer_of indeg)) + length (layer_of indeg) ≡ length indeg)
      × All (IsReady done deps) (layer_of indeg)
Round-Round deps done indeg ud r =
    let fits =
      λ (o : ℕ) (i : In o (layer_of indeg)). layer-IsReady done deps indeg o r.is_map r.degrees i in
    let fresh =
      Fresh-of_Distinct deps done (layer_of indeg)
        (sort_by-Distinct leb (ready indeg) (ready-Distinct indeg r.is_map))
        (λ o i. ((fits o i).0, ((fits o i).1.0, (fits o i).1.1))) in
    let (next, sized) = remove_layer-Round deps done indeg (layer_of indeg) ud fresh r in
    (next, sized, All-of_In (IsReady done deps) (layer_of indeg) fits)
