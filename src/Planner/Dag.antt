-- ===== src/Planner/Dag.antt =====
-- pkg/planner/dag.go: the steps of a plan as a graph. Orders are natural numbers here; the code only
-- compares and sorts them.
pub mod Degrees
pub mod Rounds
pub mod Ranks
pub mod Progress
pub mod Tables
pub mod Validity
use simian_agent.Prelude.{
  length, contains, sort_by, ℕ, zero, suc, Option, none, some, List, map, leb, [], ◌-◌, ◌∷◌, ◌++◌,
  ◌==◌, if◌then◌else◌, nat_Eq, string_Eq,
}
use simian_agent.Prelude.Assoc.{lookup, insert, delete}
use simian_agent.Simian.Types.{PlanStep}

pub data DagError : Type 0 where
  no_steps : DagError
  duplicate_order : ℕ → DagError
  depends_on_itself : ℕ → DagError
  depends_on_unknown : ℕ → ℕ → DagError
  dependency_cycle : DagError

pub data Layering : Type 0 where
  layers : List (List ℕ) → Layering
  cycle : Layering
  out_of_fuel : Layering

-- `indeg[s.Order] = len(s.DependsOn)` and `deps[s.Order] = s.DependsOn`; a later step overwrites.
pub degrees_of : List PlanStep → List (ℕ × ℕ) → List (ℕ × ℕ)
unfolding insert
degrees_of [] m = m
degrees_of (s ∷ ss) m = degrees_of ss (insert s.order (length s.depends_on) m)

pub deps_of : List PlanStep → List (ℕ × List ℕ) → List (ℕ × List ℕ)
unfolding insert
deps_of [] m = m
deps_of (s ∷ ss) m = deps_of ss (insert s.order s.depends_on m)

-- `order` once for each time that it depends on `dep`.
pub times : ℕ → ℕ → List ℕ → List ℕ
times dep order [] = []
times dep order (d ∷ ds) = let rest = times dep order ds in if d == dep then order ∷ rest else rest

-- `dependents[dep]`.
pub dependents : List (ℕ × List ℕ) → ℕ → List ℕ
unfolding times
dependents [] dep = []
dependents ((order, ds) ∷ m) dep = times dep order ds ++ dependents m dep

pub lower : List (ℕ × ℕ) → ℕ → List (ℕ × ℕ)
unfolding lookup insert
lower indeg o = elim (lookup o indeg) [ none ↦ indeg | some n ↦ insert o (n - 1) indeg ]

pub lower_all : List (ℕ × ℕ) → List ℕ → List (ℕ × ℕ)
unfolding lower
lower_all indeg [] = indeg
lower_all indeg (o ∷ os) = lower_all (lower indeg o) os

pub remove_one : List (ℕ × List ℕ) → List (ℕ × ℕ) → ℕ → List (ℕ × ℕ)
unfolding lower_all dependents delete
remove_one deps indeg order = lower_all (delete order indeg) (dependents deps order)

pub remove_layer : List (ℕ × List ℕ) → List (ℕ × ℕ) → List ℕ → List (ℕ × ℕ)
unfolding remove_one
remove_layer deps indeg [] = indeg
remove_layer deps indeg (o ∷ os) = remove_layer deps (remove_one deps indeg o) os

-- The orders of degree 0.
pub ready : List (ℕ × ℕ) → List ℕ
ready [] = []
ready ((o, n) ∷ m) = if n == 0 then o ∷ ready m else ready m

abbrev pub layer_of : List (ℕ × ℕ) → List ℕ
layer_of indeg = sort_by leb (ready indeg)

pub add_layer : List ℕ → Layering → Layering
add_layer l (layers ls) = layers (l ∷ ls)
add_layer l cycle = cycle
add_layer l out_of_fuel = out_of_fuel

-- The loop on `remaining`, with fuel. An empty layer is a cycle.
unfoldable pub peel : ℕ → List (ℕ × List ℕ) → List (ℕ × ℕ) → ℕ → Layering
unfolding sort_by ready remove_layer add_layer
peel zero deps indeg remaining = if remaining == 0 then layers [] else out_of_fuel
peel (suc fuel) deps indeg remaining =
    let layer = layer_of indeg in
    let rest = peel fuel deps (remove_layer deps indeg layer) (remaining - length layer) in
    if remaining == 0 then layers [] else if length layer == 0 then cycle else add_layer layer rest

-- Each round takes at least one step off, so the number of steps is fuel enough.
unfoldable pub plan_layers : List PlanStep → Layering
unfolding peel degrees_of deps_of
plan_layers steps = peel (length steps) (deps_of steps []) (degrees_of steps []) (length steps)

pub check_orders : List ℕ → List PlanStep → Option DagError
check_orders seen [] = none
check_orders seen (s ∷ ss) =
    let rest = check_orders (s.order ∷ seen) ss in
    if contains seen s.order then some (duplicate_order s.order) else rest

pub check_deps : List ℕ → ℕ → List ℕ → Option DagError
check_deps orders order [] = none
check_deps orders order (d ∷ ds) =
    let rest = check_deps orders order ds in
    if d == order
    then some (depends_on_itself order)
    else if contains orders d
    then rest
    else some (depends_on_unknown order d)

pub or_else : Option DagError → Option DagError → Option DagError
or_else (some e) next = some e
or_else none next = next

pub check_steps : List ℕ → List PlanStep → Option DagError
unfolding check_deps or_else
check_steps orders [] = none
check_steps orders (s ∷ ss) =
    or_else (check_deps orders s.order s.depends_on) (check_steps orders ss)

pub cycle_error : Layering → Option DagError
cycle_error (layers ls) = none
cycle_error cycle = some dependency_cycle
cycle_error out_of_fuel = some dependency_cycle

abbrev pub orders_of : List PlanStep → List ℕ
orders_of steps = map (λ (s : PlanStep). s.order) steps

-- `none` is a valid plan.
unfoldable pub validate_step_dag : List PlanStep → Option DagError
unfolding check_orders check_steps or_else cycle_error plan_layers
validate_step_dag [] = some no_steps
validate_step_dag (s ∷ ss) =
    or_else (check_orders [] (s ∷ ss))
      (or_else (check_steps (orders_of (s ∷ ss)) (s ∷ ss)) (cycle_error (plan_layers (s ∷ ss))))
