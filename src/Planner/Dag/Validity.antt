-- ===== src/Planner/Dag/Validity.antt =====
-- validateStepDAG of pkg/planner/dag.go, beside the notion of an acyclic graph.
use simian_agent.Prelude.{
  subst, length, In, contains, In-map, In-map_inv, contains→In, In→contains, Distinct, ℕ, refl, sym,
  ap, inl, inr, true, false, Option, none, some, List, arith, nat_eq_iff, Bool-cases, ==_refl, [],
  ◌<◌, ◌≡◌, ◌≢◌, ◌∷◌, ◌==◌, nat_Eq, string_Eq,
}
use simian_agent.Prelude.Assoc.{lookup}
use simian_agent.Simian.Types.{PlanStep}
use simian_agent.Planner.Dag.{
  DagError, Layering, layers, cycle, out_of_fuel, plan_layers, check_orders, check_deps,
  check_steps, or_else, cycle_error, orders_of, validate_step_dag, deps_of, degrees_of,
}
use simian_agent.Planner.Dag.Tables.{
  start-Degrees, degrees_of-IsMap, deps_of-IsMap, length-degrees_of-le, length-degrees_of,
  lookup-deps_of, step_of_lookup,
}
use simian_agent.Planner.Dag.Rounds.{Round}
use simian_agent.Planner.Dag.Ranks.{Right, Layered, Covers, peel-Right, rank_in, rank_in-lt}
use simian_agent.Planner.Dag.Progress.{peel_fueled, peel_complete}

-- Steps with distinct orders that depend on steps of the plan, and ranks under which every step
-- stands above the steps that it depends on.
pub record IsDag (steps : List PlanStep) : Type 0 where
  pub nonempty : steps ≢ []
  pub distinct : Distinct (orders_of steps)
  pub known :
      (s : PlanStep) (d : ℕ)
      → In s steps
      → contains s.depends_on d ≡ true
      → contains (orders_of steps) d ≡ true
  pub rank : ℕ → ℕ
  pub falls :
      (s : PlanStep) (d : ℕ) → In s steps → contains s.depends_on d ≡ true → rank d < rank s.order

start-Round : (steps : List PlanStep) → Round (deps_of steps []) [] (degrees_of steps [])
start-Round steps = record { is_map = degrees_of-IsMap steps [] tt; degrees = start-Degrees steps }

-- PlanLayers always ends: the number of steps is fuel enough, for every list of steps.
pub plan_layers_ends : (steps : List PlanStep) → plan_layers steps ≢ out_of_fuel
unfolding plan_layers
plan_layers_ends steps =
    peel_fueled (length steps) (deps_of steps []) (degrees_of steps []) (length steps) (omega arith)

or_else-none : (a b : Option DagError) → or_else a b ≡ none → (a ≡ none) × (b ≡ none)
unfolding or_else
or_else-none none b e = (refl, e)
or_else-none (some x) b e = cc

check_orders_sound :
    (seen : List ℕ) (ss : List PlanStep)
    → check_orders seen ss ≡ none
    → Distinct (orders_of ss)
      × ((o : ℕ) → contains (orders_of ss) o ≡ true → contains seen o ≡ false)
unfolding check_orders
check_orders_sound seen [] e = (tt, λ o c. cc)
check_orders_sound seen (s ∷ ss) e = elim (Bool-cases (contains seen s.order)) [
  | inl t ↦ let no : ⊥ = ground arith in absurd no
  | inr f ↦
      let (d, apart) = check_orders_sound (s.order ∷ seen) ss (ground arith) in
      (
        (ground (arith, apart s.order, ==_refl s.order), d),
        λ o c. ground (arith, apart o, nat_eq_iff s.order o),
      )
]

check_orders_complete :
    (seen : List ℕ) (ss : List PlanStep)
    → Distinct (orders_of ss)
    → ((o : ℕ) → contains (orders_of ss) o ≡ true → contains seen o ≡ false)
    → check_orders seen ss ≡ none
unfolding check_orders
check_orders_complete seen [] d h = refl
check_orders_complete seen (s ∷ ss) d h =
    let first : contains seen s.order ≡ false = h s.order (rw (==_refl s.order) refl) in
    rw first (
      check_orders_complete (s.order ∷ seen) ss d.1
        (λ o c. ground (arith, h o, d.0, nat_eq_iff s.order o)))

check_deps_sound :
    (orders : List ℕ) (order : ℕ) (ds : List ℕ) (d : ℕ)
    → check_deps orders order ds ≡ none
    → contains ds d ≡ true
    → contains orders d ≡ true
unfolding check_deps
check_deps_sound orders order [] d e c = absurd (cc)
check_deps_sound orders order (x ∷ ds) d e c =
    ground (arith, check_deps_sound orders order ds d, nat_eq_iff x d)

check_deps_complete :
    (orders : List ℕ) (order : ℕ) (ds : List ℕ)
    → ((d : ℕ) → contains ds d ≡ true → (contains orders d ≡ true) × (d ≢ order))
    → check_deps orders order ds ≡ none
unfolding check_deps
check_deps_complete orders order [] h = refl
check_deps_complete orders order (x ∷ ds) h =
    let (there, other) = h x (rw (==_refl x) refl) in
    let distinct : (x == order) ≡ false = ground arith in
    rw (distinct, there) (check_deps_complete orders order ds (λ d c. h d (ground arith)))

check_steps_sound :
    (orders : List ℕ) (ss : List PlanStep) (s : PlanStep)
    → check_steps orders ss ≡ none
    → In s ss
    → check_deps orders s.order s.depends_on ≡ none
unfolding check_steps
check_steps_sound orders [] s e i = absurd i
check_steps_sound orders (x ∷ ss) s e (inl p) =
    rw p (or_else-none (check_deps orders x.order x.depends_on) _ e).0
check_steps_sound orders (x ∷ ss) s e (inr i) =
    check_steps_sound orders ss s (or_else-none (check_deps orders x.order x.depends_on) _ e).1 i

check_steps_complete :
    (orders : List ℕ) (ss : List PlanStep)
    → ((s : PlanStep) → In s ss → check_deps orders s.order s.depends_on ≡ none)
    → check_steps orders ss ≡ none
unfolding check_steps or_else
check_steps_complete orders [] h = refl
check_steps_complete orders (s ∷ ss) h =
    rw (h s (inl refl)) (check_steps_complete orders ss (λ x i. h x (inr i)))

layers_of_none : (r : Layering) → cycle_error r ≡ none → (ls : List (List ℕ)) × (r ≡ layers ls)
unfolding cycle_error
layers_of_none (layers ls) e = (ls, refl)
layers_of_none cycle e = cc
layers_of_none out_of_fuel e = cc

none_of_layers : (r : Layering) (ls : List (List ℕ)) → r ≡ layers ls → cycle_error r ≡ none
unfolding cycle_error
none_of_layers (layers ks) ls e = refl
none_of_layers cycle ls e = cc
none_of_layers out_of_fuel ls e = cc

-- What PlanLayers returns for any plan: layers in which no order comes before one that its step
-- depends on, and which hold every order.
pub plan_layers-Right : (steps : List PlanStep) → Right (deps_of steps []) [] (plan_layers steps)
unfolding plan_layers
plan_layers-Right steps =
    peel-Right (length steps) (deps_of steps []) [] (degrees_of steps []) (length steps)
      (deps_of-IsMap steps [] tt) (start-Round steps) (omega (arith, length-degrees_of-le steps []))

lookup_empty : (o : ℕ) (ds : List ℕ) → lookup {V = List ℕ} o [] ≢ some ds
unfolding lookup
lookup_empty o ds e = cc

module _ (steps : List PlanStep) (ls : List (List ℕ)) (e : plan_layers steps ≡ layers ls) where
  layered : Layered (deps_of steps []) [] ls × Covers (deps_of steps []) [] ls
  layered = subst (Right (deps_of steps []) []) e (plan_layers-Right steps)

  rank_in_falls :
      (s : PlanStep) (d : ℕ)
      → Distinct (orders_of steps)
      → In s steps
      → contains s.depends_on d ≡ true
      → rank_in ls d < rank_in ls s.order
  rank_in_falls s d distinct i c =
      let found = lookup-deps_of steps [] s distinct i in
      rank_in-lt (deps_of steps []) [] ls s.order d s.depends_on layered.0
        (layered.1 s.order s.depends_on found) found c refl

In-orders_of :
    (s : PlanStep) (ss : List PlanStep) → In s ss → contains (orders_of ss) s.order ≡ true
In-orders_of s ss i = In→contains (orders_of ss) s.order (In-map (λ (x : PlanStep). x.order) s ss i)

step_of_order :
    (d : ℕ) (ss : List PlanStep)
    → contains (orders_of ss) d ≡ true
    → (s : PlanStep) × In s ss × (d ≡ s.order)
step_of_order d ss c = In-map_inv (λ (x : PlanStep). x.order) d ss (contains→In (orders_of ss) d c)

dag_layers :
    (steps : List PlanStep) → IsDag steps → (ls : List (List ℕ)) × (plan_layers steps ≡ layers ls)
unfolding plan_layers
dag_layers steps g =
    peel_complete (deps_of steps []) g.rank
      (λ o d ds found c.
        let (s, i, p, q) = step_at o ds found in
        subst (λ x. g.rank d < g.rank x) p
          (g.falls s d i (subst (λ l. contains l d ≡ true) (sym q) c)))
      (λ o d ds found c.
        let (s, i, p, q) = step_at o ds found in
        let (t, j, r) =
          step_of_order d steps (g.known s d i (subst (λ l. contains l d ≡ true) (sym q) c)) in
        (
          t.depends_on,
          subst (λ x. lookup x (deps_of steps []) ≡ some t.depends_on) (sym r)
              (lookup-deps_of steps [] t g.distinct j),
        ))
      (length steps) [] (degrees_of steps []) (length steps) (deps_of-IsMap steps [] tt)
      (start-Round steps) (omega (arith, length-degrees_of steps [] g.distinct (λ o c. refl)))
      (omega arith)
  where
    step_at :
        (o : ℕ) (ds : List ℕ)
        → lookup o (deps_of steps []) ≡ some ds
        → (s : PlanStep) × In s steps × (s.order ≡ o) × (s.depends_on ≡ ds)
    step_at o ds found = elim (step_of_lookup steps [] o ds found) [
      | inl gone ↦ absurd (lookup_empty o ds gone)
      | inr there ↦ there
    ]

IsDag-of_valid : (steps : List PlanStep) → validate_step_dag steps ≡ none → IsDag steps
unfolding validate_step_dag
IsDag-of_valid [] e = absurd (cc)
IsDag-of_valid (s ∷ ss) e =
    let steps : List PlanStep = s ∷ ss in
    let (orders, rest) = or_else-none (check_orders [] steps) _ e in
    let (deps, acyclic) = or_else-none (check_steps (orders_of steps) steps) _ rest in
    let (ls, layered) = layers_of_none (plan_layers steps) acyclic in
    let distinct = (check_orders_sound [] steps orders).0 in
    record {
      nonempty = λ p. cc;
      distinct = distinct;
      known = λ x d i c.
          check_deps_sound (orders_of steps) x.order x.depends_on d
            (check_steps_sound (orders_of steps) steps x deps i) c;
      rank = rank_in ls;
      falls = λ x d i c. rank_in_falls steps ls layered x d distinct i c;
    }

valid_of_dag : (steps : List PlanStep) → IsDag steps → validate_step_dag steps ≡ none
unfolding validate_step_dag or_else
valid_of_dag [] g = absurd (g.nonempty refl)
valid_of_dag (s ∷ ss) g =
    let steps : List PlanStep = s ∷ ss in
    let orders = check_orders_complete [] steps g.distinct (λ o c. refl) in
    let deps = check_steps_complete (orders_of steps) steps (λ x i.
      check_deps_complete (orders_of steps) x.order x.depends_on
        (λ d c. (g.known x d i c, λ p. absurd (omega (arith, g.falls x d i c, ap g.rank p))))) in
    let (ls, e) = dag_layers steps g in rw (orders, deps) (none_of_layers (plan_layers steps) ls e)

-- validateStepDAG accepts a plan exactly when it is a non-empty acyclic graph: distinct orders,
-- dependencies on steps of the plan only, and ranks that fall along every dependency.
pub validate_step_dag_exact :
    (steps : List PlanStep)
    → (validate_step_dag steps ≡ none → IsDag steps)
      × (IsDag steps → validate_step_dag steps ≡ none)
validate_step_dag_exact steps = (IsDag-of_valid steps, valid_of_dag steps)
