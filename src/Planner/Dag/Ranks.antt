-- ===== src/Planner/Dag/Ranks.antt =====
-- The layers that the loop returns, seen as ranks; and when it returns layers.
use simian_agent.Prelude.{
  length, any, All, contains, All-In, contains→In, ℕ, zero, suc, refl, sym, ap, inl, inr, true,
  false, some, List, arith, nat_eq_iff, Bool-cases, [], ◌≤◌, ◌<◌, ◌≡◌, ◌∙◌, ◌||◌, ◌∷◌, ◌==◌,
  if◌then◌else◌, nat_Eq, string_Eq,
}
use simian_agent.Prelude.Assoc.{lookup, IsMap}
use simian_agent.Planner.Dag.{
  remove_layer, layer_of, Layering, layers, cycle, out_of_fuel, add_layer, peel,
}
use simian_agent.Planner.Dag.Degrees.{Degrees, pending}
use simian_agent.Planner.Dag.Rounds.{mark, IsReady, Round, Round-Round}

abbrev pub Layered : List (ℕ × List ℕ) → List ℕ → List (List ℕ) → Type 0
Layered deps done [] = Unit
Layered deps done (l ∷ ls) = All (IsReady done deps) l × Layered deps (mark done l) ls

-- Every order of the plan is in `done` or in one of the layers.
abbrev pub Covers : List (ℕ × List ℕ) → List ℕ → List (List ℕ) → Type 0
Covers deps done ls =
    (o : ℕ) (ds : List ℕ)
    → lookup o deps ≡ some ds
    → (contains done o || any (λ l. contains l o) ls) ≡ true

abbrev pub Right : List (ℕ × List ℕ) → List ℕ → Layering → Type 0
Right deps done (layers ls) = Layered deps done ls × Covers deps done ls
Right deps done cycle = Unit
Right deps done out_of_fuel = Unit

contains-mark :
    (done l : List ℕ) (o : ℕ) → contains (mark done l) o ≡ (contains l o || contains done o)
contains-mark done [] o = refl
contains-mark done (x ∷ l) o = ground (arith, contains-mark (x ∷ done) l o)

all_done :
    (deps : List (ℕ × List ℕ)) (done : List ℕ) (indeg : List (ℕ × ℕ))
    → Degrees done deps indeg
    → length indeg ≡ 0
    → Covers deps done []
unfolding lookup
all_done deps done [] j e o ds found = ground (arith, j o)
all_done deps done (x ∷ indeg) j e o ds found = let no : ⊥ = omega arith in absurd no

add_layer-Right :
    (deps : List (ℕ × List ℕ)) (done l : List ℕ) (r : Layering)
    → All (IsReady done deps) l
    → Right deps (mark done l) r
    → Right deps done (add_layer l r)
unfolding add_layer
add_layer-Right deps done l (layers ls) fits h =
    ((fits, h.0), λ o ds found. ground (arith, h.1 o ds found, contains-mark done l o))
add_layer-Right deps done l cycle fits h = tt
add_layer-Right deps done l out_of_fuel fits h = tt

pub peel-Right :
    (fuel : ℕ) (deps : List (ℕ × List ℕ)) (done : List ℕ) (indeg : List (ℕ × ℕ)) (remaining : ℕ)
    → IsMap deps
    → Round deps done indeg
    → length indeg ≤ remaining
    → Right deps done (peel fuel deps indeg remaining)
unfolding peel
peel-Right zero deps done indeg remaining ud r size = elim (Bool-cases (remaining == 0)) [
  | inl t ↦ rw t (tt, all_done deps done indeg r.degrees (ground arith))
  | inr f ↦ rw f tt
]
peel-Right (suc fuel) deps done indeg remaining ud r size = elim (Bool-cases (remaining == 0)) [
  | inl t ↦ rw t (tt, all_done deps done indeg r.degrees (ground arith))
  | inr f ↦ elim (Bool-cases (length (layer_of indeg) == 0)) [
    | inl empty ↦ rw (f, empty) tt
    | inr some_ready ↦
        let (next, sized, fits) = Round-Round deps done indeg ud r in
        rw (f, some_ready)
          (add_layer-Right deps done (layer_of indeg) _ fits (
            peel-Right fuel deps _ (remove_layer deps indeg (layer_of indeg)) _ ud next
              (omega (arith, sized))))
  ]
]

-- The place of the first layer that holds an order.
pub rank_in : List (List ℕ) → ℕ → ℕ
rank_in [] o = 0
rank_in (l ∷ ls) o = let rest = suc (rank_in ls o) in if contains l o then 0 else rest

pending_zero :
    (done ds : List ℕ) (d : ℕ) → pending done ds ≡ 0 → contains ds d ≡ true → contains done d ≡ true
pending_zero done [] d e h = absurd (cc)
pending_zero done (x ∷ ds) d e h = ground (arith, pending_zero done ds d, nat_eq_iff x d)

pub rank_in-lt :
    (deps : List (ℕ × List ℕ)) (done : List ℕ) (ls : List (List ℕ)) (o d : ℕ) (ds : List ℕ)
    → Layered deps done ls
    → any (λ l. contains l o) ls ≡ true
    → lookup o deps ≡ some ds
    → contains ds d ≡ true
    → contains done d ≡ false
    → rank_in ls d < rank_in ls o
unfolding rank_in
rank_in-lt deps done [] o d ds h within found dep fresh = absurd (cc)
rank_in-lt deps done (l ∷ ls) o d ds h within found dep fresh = elim (Bool-cases (contains l o)) [
  | inl now ↦
      let (new, es, p, q) = ready_here now in
      let same : es ≡ ds = ground arith in
      let done_d = pending_zero done ds d (sym (ap (pending done) same) ∙ q) dep in
      let no : ⊥ = cc in absurd no
  | inr later ↦ elim (Bool-cases (contains l d)) [
    | inl before ↦ rw (later, before) (omega arith)
    | inr both ↦
        let ih =
          rank_in-lt deps (mark done l) ls o d ds h.1 (ground arith) found dep
            (contains-mark done l d ∙ ground arith) in
        rw (later, both) (omega (arith, ih))
  ]
]
  where
    ready_here :
        contains l o ≡ true
        → (contains done o ≡ false)
          × (es : List ℕ) × (lookup o deps ≡ some es)
          × (pending done es ≡ 0)
    ready_here t =
        let r = All-In (IsReady done deps) l o h.0 (contains→In l o t) in (r.0, r.1.0, r.1.1, r.1.2)
