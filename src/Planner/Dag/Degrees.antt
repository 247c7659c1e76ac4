-- ===== src/Planner/Dag/Degrees.antt =====
-- The degrees of the graph in pkg/planner/dag.go, with the orders in `done` removed.
use simian_agent.Prelude.{
  subst, length, contains, ℕ, suc, refl, ap, inl, inr, false, Option, none, some, List, arith,
  nat_eq_iff, Bool-cases, Option-cases, [], ◌+◌, ◌-◌, ◌≡◌, ◌∙◌, ◌∷◌, ◌++◌, ◌==◌, if◌then◌else◌,
  nat_Eq, string_Eq,
}
use simian_agent.Prelude.Assoc.{
  lookup, delete, IsMap, lookup-insert, lookup-delete, insert-IsMap, delete-IsMap, length-delete,
  length-insert_known, lookup_of_Absent,
}
use simian_agent.Planner.Dag.{times, dependents, lower, lower_all, remove_one}

-- How often a number is in a list.
abbrev pub count : ℕ → List ℕ → ℕ
count x [] = 0
count x (y ∷ ys) = let rest = count x ys in if y == x then suc rest else rest

-- How many dependencies are not done, with repetitions.
abbrev pub pending : List ℕ → List ℕ → ℕ
pending done [] = 0
pending done (d ∷ ds) = let rest = pending done ds in if contains done d then rest else suc rest

abbrev pub lessen : Option ℕ → ℕ → Option ℕ
lessen none k = none
lessen (some n) k = some (n - k)

lookup-lower :
    (indeg : List (ℕ × ℕ)) (o x : ℕ)
    → lookup x (lower indeg o) ≡ (if o == x then lessen (lookup x indeg) 1 else lookup x indeg)
unfolding lower
lookup-lower indeg o x = elim (Option-cases (lookup o indeg)) [
  | inl missing ↦ rw (missing, lower) (ground (arith, nat_eq_iff o x))
  | inr (n, found) ↦
      rw (found, lower) (ground (arith, nat_eq_iff o x, lookup-insert o x (n - 1) indeg))
]

pub lookup-lower_all :
    (indeg : List (ℕ × ℕ)) (os : List ℕ) (x : ℕ)
    → lookup x (lower_all indeg os) ≡ lessen (lookup x indeg) (count x os)
unfolding lower_all
lookup-lower_all indeg [] x = ground arith
lookup-lower_all indeg (o ∷ os) x =
    ground (arith, lookup-lower_all (lower indeg o) os x, lookup-lower indeg o x)

count-append : (x : ℕ) (xs ys : List ℕ) → count x (xs ++ ys) ≡ count x xs + count x ys
count-append x [] ys = omega arith
count-append x (y ∷ xs) ys = ground (arith, count-append x xs ys)

count-times :
    (dep order x : ℕ) (ds : List ℕ)
    → count x (times dep order ds) ≡ (if order == x then count dep ds else 0)
unfolding times
count-times dep order x [] = ground arith
count-times dep order x (d ∷ ds) = ground (arith, count-times dep order x ds)

dependents_absent :
    (m : List (ℕ × List ℕ)) (dep x : ℕ) → lookup x m ≡ none → count x (dependents m dep) ≡ 0
unfolding dependents lookup
dependents_absent [] dep x e = refl
dependents_absent ((o, ds) ∷ m) dep x e = ground (
  arith,
  count-append x (times dep o ds) (dependents m dep),
  count-times dep o x ds,
  dependents_absent m dep x,
)

-- An order is among the dependents of `dep` as often as it names `dep`.
pub count-dependents :
    (m : List (ℕ × List ℕ)) (dep x : ℕ) (ds : List ℕ)
    → IsMap m
    → lookup x m ≡ some ds
    → count x (dependents m dep) ≡ count dep ds
unfolding dependents lookup
count-dependents [] dep x ds u e = cc
count-dependents ((o, es) ∷ m) dep x ds u e = elim (Bool-cases (o == x)) [
  | inl t ↦
      let p : o ≡ x = (nat_eq_iff o x).0 t in
      let gone : lookup x m ≡ none = subst (λ z. lookup z m ≡ none) p (lookup_of_Absent o m u.0) in
      let same : es ≡ ds = ground arith in
      ground (
        arith,
        count-append x (times dep o es) (dependents m dep),
        count-times dep o x es,
        dependents_absent m dep x gone,
        ap (count dep) same,
      )
  | inr f ↦ ground (
    arith,
    count-append x (times dep o es) (dependents m dep),
    count-times dep o x es,
    count-dependents m dep x ds u.1 (rw f at e),
  )
]

pub pending-cons :
    (x : ℕ) (done ds : List ℕ)
    → contains done x ≡ false
    → pending (x ∷ done) ds + count x ds ≡ pending done ds
pending-cons x done [] f = omega arith
pending-cons x done (d ∷ ds) f = ground (arith, pending-cons x done ds f)

abbrev pub expected : List ℕ → List (ℕ × List ℕ) → ℕ → Option ℕ
expected done deps o =
    if contains done o
    then none
    else elim (lookup o deps) [ none ↦ none | some ds ↦ some (pending done ds) ]

-- The loop's invariant.
abbrev pub Degrees : List ℕ → List (ℕ × List ℕ) → List (ℕ × ℕ) → Type 0
Degrees done deps indeg = (o : ℕ) → lookup o indeg ≡ expected done deps o

pub remove_one-Degrees :
    (deps : List (ℕ × List ℕ)) (done : List ℕ) (indeg : List (ℕ × ℕ)) (x : ℕ)
    → IsMap deps
    → contains done x ≡ false
    → Degrees done deps indeg
    → Degrees (x ∷ done) deps (remove_one deps indeg x)
unfolding remove_one
remove_one-Degrees deps done indeg x u f j o = elim (Option-cases (lookup o deps)) [
  | inl missing ↦
      ground (
        arith,
        lookup-lower_all (delete x indeg) (dependents deps x) o,
        lookup-delete x o indeg,
        j o,
      )
  | inr (ds, found) ↦ ground (
    arith,
    lookup-lower_all (delete x indeg) (dependents deps x) o,
    lookup-delete x o indeg,
    j o,
    count-dependents deps x o ds u found,
    pending-cons x done ds f,
    nat_eq_iff x o,
  )
]

lower-IsMap : (indeg : List (ℕ × ℕ)) (o : ℕ) → IsMap indeg → IsMap (lower indeg o)
unfolding lower
lower-IsMap indeg o h = elim (Option-cases (lookup o indeg)) [
  | inl missing ↦ rw (missing, lower) h
  | inr (n, found) ↦ rw (found, lower) (insert-IsMap o (n - 1) indeg h)
]

lower_all-IsMap : (indeg : List (ℕ × ℕ)) (os : List ℕ) → IsMap indeg → IsMap (lower_all indeg os)
unfolding lower_all
lower_all-IsMap indeg [] h = h
lower_all-IsMap indeg (o ∷ os) h = lower_all-IsMap (lower indeg o) os (lower-IsMap indeg o h)

pub remove_one-IsMap :
    (deps : List (ℕ × List ℕ)) (indeg : List (ℕ × ℕ)) (x : ℕ)
    → IsMap indeg
    → IsMap (remove_one deps indeg x)
unfolding remove_one
remove_one-IsMap deps indeg x h =
    lower_all-IsMap (delete x indeg) (dependents deps x) (delete-IsMap x indeg h)

length-lower : (indeg : List (ℕ × ℕ)) (o : ℕ) → length (lower indeg o) ≡ length indeg
unfolding lower
length-lower indeg o = elim (Option-cases (lookup o indeg)) [
  | inl missing ↦ rw (missing, lower) refl
  | inr (n, found) ↦ rw (found, lower) (length-insert_known o n (n - 1) indeg found)
]

length-lower_all : (indeg : List (ℕ × ℕ)) (os : List ℕ) → length (lower_all indeg os) ≡ length indeg
unfolding lower_all
length-lower_all indeg [] = refl
length-lower_all indeg (o ∷ os) = length-lower_all (lower indeg o) os ∙ length-lower indeg o

pub length-remove_one :
    (deps : List (ℕ × List ℕ)) (indeg : List (ℕ × ℕ)) (x n : ℕ)
    → IsMap indeg
    → lookup x indeg ≡ some n
    → suc (length (remove_one deps indeg x)) ≡ length indeg
unfolding remove_one
length-remove_one deps indeg x n h e =
    ap suc (length-lower_all (delete x indeg) (dependents deps x)) ∙ length-delete x n indeg h e
