-- ===== src/Planner/Dag/Tables.antt =====
-- The tables that PlanLayers builds from the steps of a plan.
use simian_agent.Prelude.{
  length, In, contains, Distinct, ℕ, suc, refl, sym, ap, inl, inr, true, false, Option, none, some,
  List, arith, nat_eq_iff, Bool-cases, Option-cases, ==_refl, [], ◌+◌, ◌≤◌, ◌≡◌, ◌∙◌, ◌⊎◌, ◌∷◌,
  ◌==◌, nat_Eq, string_Eq,
}
use simian_agent.Prelude.Assoc.{
  lookup, insert, IsMap, lookup-insert, insert-IsMap, length-insert-le, length-insert_new,
}
use simian_agent.Simian.Types.{PlanStep}
use simian_agent.Planner.Dag.{degrees_of, deps_of, orders_of}
use simian_agent.Planner.Dag.Degrees.{Degrees, pending}

abbrev length? : Option (List ℕ) → Option ℕ
length? none = none
length? (some ds) = some (length ds)

degrees-deps :
    (ss : List PlanStep) (m : List (ℕ × ℕ)) (n : List (ℕ × List ℕ)) (o : ℕ)
    → ((x : ℕ) → lookup x m ≡ length? (lookup x n))
    → lookup o (degrees_of ss m) ≡ length? (lookup o (deps_of ss n))
unfolding degrees_of deps_of
degrees-deps [] m n o h = h o
degrees-deps (s ∷ ss) m n o h =
    degrees-deps ss (insert s.order (length s.depends_on) m) (insert s.order s.depends_on n) o λ x.
      ground (
        arith,
        lookup-insert s.order x (length s.depends_on) m,
        lookup-insert s.order x s.depends_on n,
        h x,
      )

pending_none : (ds : List ℕ) → pending [] ds ≡ length ds
pending_none [] = refl
pending_none (d ∷ ds) = ap suc (pending_none ds)

pub start-Degrees : (steps : List PlanStep) → Degrees [] (deps_of steps []) (degrees_of steps [])
unfolding lookup
start-Degrees steps o = elim (Option-cases (lookup o (deps_of steps []))) [
  | inl missing ↦ ground (arith, degrees-deps steps [] [] o (λ x. refl))
  | inr (ds, found) ↦ ground (arith, degrees-deps steps [] [] o (λ x. refl), pending_none ds)
]

pub degrees_of-IsMap : (ss : List PlanStep) (m : List (ℕ × ℕ)) → IsMap m → IsMap (degrees_of ss m)
unfolding degrees_of
degrees_of-IsMap [] m h = h
degrees_of-IsMap (s ∷ ss) m h =
    degrees_of-IsMap ss _ (insert-IsMap s.order (length s.depends_on) m h)

pub deps_of-IsMap : (ss : List PlanStep) (m : List (ℕ × List ℕ)) → IsMap m → IsMap (deps_of ss m)
unfolding deps_of
deps_of-IsMap [] m h = h
deps_of-IsMap (s ∷ ss) m h = deps_of-IsMap ss _ (insert-IsMap s.order s.depends_on m h)

pub length-degrees_of-le :
    (ss : List PlanStep) (m : List (ℕ × ℕ)) → length (degrees_of ss m) ≤ length m + length ss
unfolding degrees_of
length-degrees_of-le [] m = omega arith
length-degrees_of-le (s ∷ ss) m = omega (
  arith,
  length-degrees_of-le ss (insert s.order (length s.depends_on) m),
  length-insert-le s.order (length s.depends_on) m,
)

pub length-degrees_of :
    (ss : List PlanStep) (m : List (ℕ × ℕ))
    → Distinct (orders_of ss)
    → ((o : ℕ) → contains (orders_of ss) o ≡ true → lookup o m ≡ none)
    → length (degrees_of ss m) ≡ length m + length ss
unfolding degrees_of
length-degrees_of [] m d h = omega arith
length-degrees_of (s ∷ ss) m d h =
    let fresh : lookup s.order m ≡ none = h s.order (rw (==_refl s.order) refl) in
    omega (
      arith,
      length-degrees_of ss (insert s.order (length s.depends_on) m) d.1 (λ o c.
          ground (
            arith,
            lookup-insert s.order o (length s.depends_on) m,
            nat_eq_iff s.order o,
            d.0,
            h o,
          )),
      length-insert_new s.order (length s.depends_on) m fresh,
    )

kept_deps :
    (ss : List PlanStep) (m : List (ℕ × List ℕ)) (o : ℕ)
    → contains (orders_of ss) o ≡ false
    → lookup o (deps_of ss m) ≡ lookup o m
unfolding deps_of
kept_deps [] m o f = refl
kept_deps (s ∷ ss) m o f =
    ground (
      arith,
      kept_deps ss (insert s.order s.depends_on m) o,
      lookup-insert s.order o s.depends_on m,
    )

-- A step of a plan with distinct orders is what the table holds under its order.
pub lookup-deps_of :
    (ss : List PlanStep) (m : List (ℕ × List ℕ)) (s : PlanStep)
    → Distinct (orders_of ss)
    → In s ss
    → lookup s.order (deps_of ss m) ≡ some s.depends_on
unfolding deps_of
lookup-deps_of [] m s d i = absurd i
lookup-deps_of (x ∷ ss) m s d (inl e) = rw e (
    kept_deps ss (insert x.order x.depends_on m) x.order d.0
    ∙ ground (arith, lookup-insert x.order x.order x.depends_on m, ==_refl x.order))
lookup-deps_of (x ∷ ss) m s d (inr i) = lookup-deps_of ss (insert x.order x.depends_on m) s d.1 i

-- And the table holds nothing else.
pub step_of_lookup :
    (ss : List PlanStep) (m : List (ℕ × List ℕ)) (o : ℕ) (ds : List ℕ)
    → lookup o (deps_of ss m) ≡ some ds
    → (lookup o m ≡ some ds) ⊎ ((s : PlanStep) × In s ss × (s.order ≡ o) × (s.depends_on ≡ ds))
unfolding deps_of
step_of_lookup [] m o ds e = inl e
step_of_lookup (s ∷ ss) m o ds e = elim (step_of_lookup ss (insert s.order s.depends_on m) o ds e) [
  | inr (x, i, p, q) ↦ inr (x, inr i, p, q)
  | inl found ↦ elim (Bool-cases (s.order == o)) [
    | inl t ↦
        let same : some s.depends_on ≡ some ds =
          sym (rw t at (lookup-insert s.order o s.depends_on m)) ∙ found in
        inr (s, inl refl, (nat_eq_iff s.order o).0 t, ground arith)
    | inr f ↦ inl (sym (rw f at (lookup-insert s.order o s.depends_on m)) ∙ found)
  ]
]
