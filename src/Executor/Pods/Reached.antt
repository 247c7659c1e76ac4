-- ===== src/Executor/Pods/Reached.antt =====
-- Which pods a spec's selectors reach once narrowPodSelector of pkg/executor/podscope.go has passed it.
use simian_agent.Executor.Scope.{get_field, set_field}
use simian_agent.Executor.Safety.{Exclusions, first_of, Gated}
use simian_agent.Prelude.{
  subst, In, contains, String, refl, sym, ap, inl, inr, Bool, true, false, Option, none, some, List,
  arith, string_Eq, Bool-cases, Option-cases, [], ◌≡◌, ◌∙◌, ◌≢◌, ◌⊎◌, ◌∷◌, ◌==◌, nat_Eq,
}
use simian_agent.Executor.Scope.Reading.{get_field-set_field}
use simian_agent.Executor.Pods.{
  reached_by, find_selector_sites, is_main_path, obj, SelectorSite, TargetRef, end,
  target_namespaces, empty_value, is_outage_kind, Labels, engine_chaos_mesh, Fields, FaultManifest,
  label_fields, Found, with_selector, found_in, narrow_main, check_site, narrow_to, selects_pods,
  selector_in, check_secondary_selectors, narrow_pod_selector, look_at_all, without_labels,
  check_all_open, look_at, narrow_chaos_mesh, check_open,
}
use simian_agent.Simian.Types.{ExecutorError}

-- No namespace of the list has an excluded workload, and each one's exclusions were read.
pub Open : Exclusions → List String → Type 0
Open ex nss = (ns : String) → contains nss ns ≡ true → ex ns ≡ some []

check_open-none : (o : Option (List String)) → check_open o ≡ none → o ≡ some []
unfolding check_open
check_open-none none e = absurd (cc)
check_open-none (some []) e = refl
check_open-none (some (x ∷ l)) e = absurd (cc)

split_none : (a b : Option ExecutorError) → first_of a b ≡ none → (a ≡ none) × (b ≡ none)
unfolding first_of
split_none none b e = (refl, e)
split_none (some x) b e = absurd (cc)

check_all_open-Open :
    (ex : Exclusions) (nss : List String) → check_all_open ex nss ≡ none → Open ex nss
unfolding check_all_open Open
check_all_open-Open ex [] e ns c = absurd (cc)
check_all_open-Open ex (n ∷ nss) e ns c =
    let (first, rest) = split_none (check_open (ex n)) _ e in
    elim (Bool-cases (n == ns)) [
      | inl same ↦
          subst (λ x. ex x ≡ some []) ((string_Eq.beq_iff n ns).0 same)
            (check_open-none (ex n) first)
      | inr other ↦ check_all_open-Open ex nss rest ns (ground arith)
    ]

-- A selector picks particular pods, or reaches only namespaces with no excluded workload.
pub Reaches : Exclusions → FaultManifest → SelectorSite → Type 0
Reaches ex m site = (selects_pods site.node ≡ true) ⊎ Open ex (reached_by m site)

check_site-Reaches :
    (ex : Exclusions) (m : FaultManifest) (site : SelectorSite)
    → check_site ex m site ≡ none
    → is_main_path site.path ≡ false
    → Reaches ex m site
unfolding check_site Reaches
check_site-Reaches ex m site e secondary = elim (Bool-cases (selects_pods site.node)) [
  | inl picks ↦ inl picks
  | inr all_pods ↦ inr (check_all_open-Open ex (reached_by m site) (ground arith))
]

check_secondary-Reaches :
    (ex : Exclusions) (m : FaultManifest) (ss : List SelectorSite) (site : SelectorSite)
    → check_secondary_selectors ex m ss ≡ none
    → In site ss
    → is_main_path site.path ≡ false
    → Reaches ex m site
unfolding check_secondary_selectors
check_secondary-Reaches ex m [] site e i sec = absurd i
check_secondary-Reaches ex m (s ∷ ss) site e (inl p) sec =
    let first = (split_none (check_site ex m s) _ e).0 in
    subst (Reaches ex m) (sym p)
      (check_site-Reaches ex m s first (subst (λ x. is_main_path x.path ≡ false) p sec))
check_secondary-Reaches ex m (s ∷ ss) site e (inr i) sec =
    check_secondary-Reaches ex m ss site (split_none (check_site ex m s) _ e).1 i sec

look_at_nonempty : (f : Found) (t : TargetRef) → f.labels ≢ some [] → (look_at f t).labels ≢ some []
unfolding look_at
look_at_nonempty f t h e = by_labels t.labels f.labels refl refl
  where
    by_labels : (l : Labels) (o : Option Labels) → t.labels ≡ l → f.labels ≡ o → ⊥
    by_labels [] o q p = let r : (look_at f t).labels ≡ f.labels = rw q refl in h (sym r ∙ e)
    by_labels (x ∷ l) none q p =
        let r : (look_at f t).labels ≡ some (x ∷ l) = rw (q, p) refl in
        let z : some (x ∷ l) ≡ some [] = sym r ∙ e in cc
    by_labels (x ∷ l) (some known) q p =
        let r : (look_at f t).labels ≡ f.labels = rw (q, p) refl in h (sym r ∙ e)

look_at_all_nonempty :
    (f : Found) (ts : List TargetRef) → f.labels ≢ some [] → (look_at_all f ts).labels ≢ some []
unfolding look_at_all
look_at_all_nonempty f [] h = h
look_at_all_nonempty f (t ∷ ts) h = look_at_all_nonempty (look_at f t) ts (look_at_nonempty f t h)

found_in_nonempty : (m : FaultManifest) → (found_in m).labels ≢ some []
unfolding found_in
found_in_nonempty m = look_at_all_nonempty _ m.targets (λ e. cc)

labelled :
    (l : String × String) (ls : Labels) (sel : Fields)
    → selects_pods (set_field "labelSelectors" (obj (label_fields (l ∷ ls))) sel) ≡ true
unfolding selects_pods label_fields empty_value
labelled (k, v) ls sel =
    rw
      (get_field-set_field "labelSelectors" "labelSelectors" (obj (label_fields ((k, v) ∷ ls))) sel)
      refl

pub main_of : Option Fields → Fields
unfolding selector_in get_field
main_of none = end
main_of (some spec) = selector_in (get_field "selector" spec)

-- The main selector, after narrowing: it picks particular pods; or no target's labels could be looked
-- up, as the executor has no resolver, and one was named; or no target namespace excludes anything.
pub MainReaches : Exclusions → Bool → FaultManifest → Option Fields → Type 0
MainReaches ex has_workloads m out =
    (selects_pods (main_of out) ≡ true)
    ⊎ ((((found_in m).is_named ≡ true) × (has_workloads ≡ false)) ⊎ Open ex (target_namespaces m))

main_labelled :
    (ex : Exclusions) (hw : Bool) (m : FaultManifest) (spec : Fields) (l : String × String)
    (ls : Labels)
    → MainReaches ex hw m (with_selector m spec (l ∷ ls)).spec
unfolding with_selector MainReaches main_of selector_in
main_labelled ex hw m spec l ls =
    let sel =
      set_field "labelSelectors" (obj (label_fields (l ∷ ls)))
        (selector_in (get_field "selector" spec)) in
    inl (
      rw (get_field-set_field "selector" "selector" (obj sel) spec)
        (labelled l ls (selector_in (get_field "selector" spec))))

without_labels-Main :
    (ex : Exclusions) (hw : Bool) (m : FaultManifest)
    → (without_labels ex hw m (found_in m)).error ≡ none
    → MainReaches ex hw m (without_labels ex hw m (found_in m)).manifest.spec
unfolding without_labels MainReaches
without_labels-Main ex hw m e = elim (Bool-cases (found_in m).is_named) [
  | inl named ↦ inr (inl (named, ground arith))
  | inr unnamed ↦ inr (inr (check_all_open-Open ex (target_namespaces m) (ground arith)))
]

narrow_to-Main :
    (ex : Exclusions) (hw : Bool) (m : FaultManifest) (spec : Fields)
    → (narrow_to ex hw m spec (found_in m)).error ≡ none
    → MainReaches ex hw m (narrow_to ex hw m spec (found_in m)).manifest.spec
unfolding narrow_to
narrow_to-Main ex hw m spec e = elim (Option-cases (found_in m).labels) [
  | inl p ↦
      let same : narrow_to ex hw m spec (found_in m) ≡ without_labels ex hw m (found_in m) =
        rw p refl in
      subst (λ (g : Gated). MainReaches ex hw m g.manifest.spec) (sym same)
        (without_labels-Main ex hw m (ap (λ (g : Gated). g.error) (sym same) ∙ e))
  | inr (labels, p) ↦ elim (Bool-cases (found_in m).is_agreed) [
    | inl agree ↦
        subst (λ (g : Gated). MainReaches ex hw m g.manifest.spec) (sym (given labels p agree))
          (with_labels labels p)
    | inr differ ↦
        let same : narrow_to ex hw m spec (found_in m) ≡ without_labels ex hw m (found_in m) =
          rw (p, differ) refl in
        subst (λ (g : Gated). MainReaches ex hw m g.manifest.spec) (sym same)
          (without_labels-Main ex hw m (ap (λ (g : Gated). g.error) (sym same) ∙ e))
  ]
]
  where
    given :
        (labels : Labels)
        → (found_in m).labels ≡ some labels
        → (found_in m).is_agreed ≡ true
        → narrow_to ex hw m spec (found_in m)
          ≡ record { manifest = with_selector m spec labels; error = none }
    given labels p a = rw (p, a) refl

    with_labels :
        (labels : Labels)
        → (found_in m).labels ≡ some labels
        → MainReaches ex hw m (with_selector m spec labels).spec
    with_labels [] p = absurd (found_in_nonempty m p)
    with_labels (l ∷ ls) p = main_labelled ex hw m spec l ls

narrow_main-Main :
    (ex : Exclusions) (hw : Bool) (m : FaultManifest) (spec : Fields)
    → m.spec ≡ some spec
    → (narrow_main ex hw m spec).error ≡ none
    → MainReaches ex hw m (narrow_main ex hw m spec).manifest.spec
unfolding narrow_main MainReaches main_of
narrow_main-Main ex hw m spec p e =
    elim (Bool-cases (selects_pods (selector_in (get_field "selector" spec)))) [
      | inl picks ↦ inl (rw (picks, p) picks)
      | inr all_pods ↦
          let same : narrow_main ex hw m spec ≡ narrow_to ex hw m spec (found_in m) =
            rw all_pods refl in
          subst (λ (g : Gated). MainReaches ex hw m g.manifest.spec) (sym same)
            (narrow_to-Main ex hw m spec (ap (λ (g : Gated). g.error) (sym same) ∙ e))
    ]

narrow_chaos_mesh_passed :
    (ex : Exclusions) (hw : Bool) (m : FaultManifest) (spec : Fields)
    → m.spec ≡ some spec
    → is_outage_kind m.engine m.resource_kind ≡ false
    → (narrow_chaos_mesh ex hw m (some spec)).error ≡ none
    → (check_secondary_selectors ex m (find_selector_sites spec) ≡ none)
      × MainReaches ex hw m (narrow_chaos_mesh ex hw m (some spec)).manifest.spec
unfolding narrow_chaos_mesh
narrow_chaos_mesh_passed ex hw m spec p plain e =
    elim (Option-cases (check_secondary_selectors ex m (find_selector_sites spec))) [
      | inl ok ↦
          let same : narrow_chaos_mesh ex hw m (some spec) ≡ narrow_main ex hw m spec =
            rw (plain, ok) refl in
          (
            ok,
            subst (λ (g : Gated). MainReaches ex hw m g.manifest.spec) (sym same)
                (narrow_main-Main ex hw m spec p (ap (λ (g : Gated). g.error) (sym same) ∙ e)),
          )
      | inr (x, refuses) ↦
          let same : narrow_chaos_mesh ex hw m (some spec)
              ≡ record { manifest = m; error = some x } =
            rw (plain, refuses) refl in
          absurd (let z : some x ≡ none = ap (λ (g : Gated). g.error) (sym same) ∙ e in cc)
    ]

-- A Chaos Mesh manifest with a spec, of no outage kind, that narrowPodSelector passes: every
-- secondary selector of its spec picks particular pods or reaches only namespaces with no excluded
-- workload. The main selector of the spec that it leaves picks particular pods; or a target has a
-- name and the executor has no resolver of labels; or no target namespace has an excluded workload,
-- which says nothing of other namespaces that the selector names.
pub narrow_pod_selector-Reaches :
    (ex : Exclusions) (hw : Bool) (m : FaultManifest) (spec : Fields)
    → m.engine ≡ engine_chaos_mesh
    → is_outage_kind m.engine m.resource_kind ≡ false
    → m.spec ≡ some spec
    → (narrow_pod_selector ex hw m).error ≡ none
    → ((site : SelectorSite)
        → In site (find_selector_sites spec)
        → is_main_path site.path ≡ false
        → Reaches ex m site)
      × MainReaches ex hw m (narrow_pod_selector ex hw m).manifest.spec
unfolding narrow_pod_selector
narrow_pod_selector-Reaches ex hw m spec mesh plain p e =
    let is_mesh : (m.engine == engine_chaos_mesh) ≡ true =
      (string_Eq.beq_iff m.engine engine_chaos_mesh).1 mesh in
    let same : narrow_pod_selector ex hw m ≡ narrow_chaos_mesh ex hw m (some spec) =
      rw is_mesh (ap (narrow_chaos_mesh ex hw m) p) in
    let (ok, main) =
      narrow_chaos_mesh_passed ex hw m spec p plain (ap (λ (g : Gated). g.error) (sym same) ∙ e) in
    (
      λ site i sec. check_secondary-Reaches ex m (find_selector_sites spec) site ok i sec,
      subst (λ (g : Gated). MainReaches ex hw m g.manifest.spec) (sym same) main,
    )
