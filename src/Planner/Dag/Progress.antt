-- ===== src/Planner/Dag/Progress.antt =====
-- The ready orders of each round in pkg/planner/dag.go, and the end of its loop.
use simian_agent.Prelude.{
  length, In, contains, length-sort_by, ℕ, zero, suc, refl, sym, inl, inr, true, false, some, List,
  arith, leb, nat_eq_iff, Bool-cases, ==_refl, [], ◌-◌, ◌≤◌, ◌<◌, ◌≡◌, ◌≢◌, ◌∷◌, ◌==◌, nat_Eq,
  string_Eq,
}
use simian_agent.Prelude.Assoc.{lookup, IsMap}
use simian_agent.Planner.Dag.{
  remove_layer, ready, layer_of, Layering, layers, cycle, out_of_fuel, add_layer, peel,
}
use simian_agent.Planner.Dag.Degrees.{Degrees, pending}
use simian_agent.Planner.Dag.Rounds.{mark, Round, Round-Round, IsReady_of_lookup}

add_layer-fueled : (l : List ℕ) (r : Layering) → r ≢ out_of_fuel → add_layer l r ≢ out_of_fuel
unfolding add_layer
add_layer-fueled l (layers ls) h = λ e. cc
add_layer-fueled l cycle h = λ e. cc
add_layer-fueled l out_of_fuel h = absurd (h refl)

pub peel_fueled :
    (fuel : ℕ) (deps : List (ℕ × List ℕ)) (indeg : List (ℕ × ℕ)) (remaining : ℕ)
    → remaining ≤ fuel
    → peel fuel deps indeg remaining ≢ out_of_fuel
unfolding peel
peel_fueled zero deps indeg remaining h = ground arith
peel_fueled (suc fuel) deps indeg remaining h = elim (Bool-cases (remaining == 0)) [
  | inl t ↦ rw t (λ e. cc)
  | inr f ↦ elim (Bool-cases (length (layer_of indeg) == 0)) [
    | inl empty ↦ rw (f, empty) (λ e. cc)
    | inr some_ready ↦
        rw (f, some_ready)
          (add_layer-fueled (layer_of indeg) _ (
            peel_fueled fuel deps (remove_layer deps indeg (layer_of indeg))
              (remaining - length (layer_of indeg)) (ground arith)))
  ]
]

In-ready : (indeg : List (ℕ × ℕ)) (o : ℕ) → lookup o indeg ≡ some 0 → In o (ready indeg)
unfolding lookup ready
In-ready [] o e = cc
In-ready ((k, n) ∷ m) o e = elim (Bool-cases (k == o)) [
  | inl t ↦
      let zero_n : (n == 0) ≡ true = ground arith in rw zero_n (inl (sym ((nat_eq_iff k o).0 t)))
  | inr f ↦
      let rest = In-ready m o (rw f at e) in
      elim (Bool-cases (n == 0)) [ inl z ↦ rw z (inr rest) | inr w ↦ rw w rest ]
]

length_of_In : (o : ℕ) (l : List ℕ) → In o l → 0 < length l
length_of_In o [] i = absurd i
length_of_In o (x ∷ l) i = omega arith

pending_witness :
    (done ds : List ℕ)
    → 0 < pending done ds
    → (d : ℕ) × (contains ds d ≡ true) × (contains done d ≡ false)
pending_witness done [] h = absurd (omega arith)
pending_witness done (x ∷ ds) h = elim (Bool-cases (contains done x)) [
  | inr f ↦ (x, rw (==_refl x) refl, f)
  | inl t ↦ let (d, p, q) = pending_witness done ds (rw t at h) in (d, ground arith, q)
]

module _ (deps : List (ℕ × List ℕ)) (rank : ℕ → ℕ)
    (falls : (o d : ℕ) (ds : List ℕ)
      → lookup o deps ≡ some ds
      → contains ds d ≡ true
      → rank d < rank o)
    (known : (o d : ℕ) (ds : List ℕ)
      → lookup o deps ≡ some ds
      → contains ds d ≡ true
      → (es : List ℕ) × (lookup d deps ≡ some es)) where
  descend :
      (k : ℕ) (done : List ℕ) (indeg : List (ℕ × ℕ)) (o n : ℕ)
      → Degrees done deps indeg
      → rank o < k
      → lookup o indeg ≡ some n
      → (x : ℕ) × (lookup x indeg ≡ some 0)
  descend zero done indeg o n j low e = absurd (omega arith)
  descend (suc k) done indeg o zero j low e = (o, e)
  descend (suc k) done indeg o (suc n) j low e =
      let (open_o, (ds, found, left)) = IsReady_of_lookup done deps indeg o (suc n) j e in
      let (d, dep, open_d) = pending_witness done ds (omega arith) in
      let (es, found_d) = known o d ds found dep in
      descend k done indeg d (pending done es) j (omega (arith, falls o d ds found dep))
        (ground (arith, j d))

  some_ready :
      (done : List ℕ) (indeg : List (ℕ × ℕ))
      → Degrees done deps indeg
      → 0 < length indeg
      → 0 < length (layer_of indeg)
  unfolding lookup
  some_ready done [] j h = absurd (omega arith)
  some_ready done ((o, n) ∷ m) j h =
      let (x, e) =
        descend (suc (rank o)) done ((o, n) ∷ m) o n j (omega arith) (rw (==_refl o) refl) in
      omega (
        arith,
        length-sort_by leb (ready ((o, n) ∷ m)),
        length_of_In x _ (In-ready ((o, n) ∷ m) x e),
      )

  pub peel_complete :
      (fuel : ℕ) (done : List ℕ) (indeg : List (ℕ × ℕ)) (remaining : ℕ)
      → IsMap deps
      → Round deps done indeg
      → length indeg ≡ remaining
      → remaining ≤ fuel
      → (ls : List (List ℕ)) × (peel fuel deps indeg remaining ≡ layers ls)
  unfolding peel add_layer
  peel_complete zero done indeg remaining ud r size h = ([], ground arith)
  peel_complete (suc fuel) done indeg remaining ud r size h = elim (Bool-cases (remaining == 0)) [
    | inl t ↦ ([], rw t refl)
    | inr f ↦
        let more = some_ready done indeg r.degrees (ground arith) in
        let (next, sized, fits) = Round-Round deps done indeg ud r in
        let (ls, e) =
          peel_complete fuel (mark done (layer_of indeg)) (remove_layer deps indeg (layer_of indeg))
            (remaining - length (layer_of indeg)) ud next (omega (arith, sized)) (omega arith) in
        let g : (length (layer_of indeg) == 0) ≡ false = ground arith in
        (layer_of indeg ∷ ls, rw (f, g, e) refl)
  ]
