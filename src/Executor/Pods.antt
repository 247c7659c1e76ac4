-- ===== src/Executor/Pods.antt =====
-- pkg/executor/podscope.go: a Chaos Mesh spec's pod selector selects the pods that its targets name.
-- A target's labels stand in the order of their keys.
pub mod Reached
use simian_agent.Simian.Types.{
  RejectionReason, ExecutorStage, engine_chaos_mesh, TargetRef, Fields, FaultManifest,
  ExecutorError, Value, obj, arr, str, null, end, nil, field,
}
use simian_agent.Executor.Scope.{
  key, SelectorSite, Segment, get_field, set_field, find_selector_sites, is_empty,
}
use simian_agent.Executor.Safety.{first_of, error_at, Exclusions, Gated}
use simian_agent.Prelude.{
  any, String, Bool, true, false, not, Option, none, some, List, [], ◌&&◌, ◌||◌, ◌∷◌, ◌==◌,
  if◌then◌else◌, nat_Eq, string_Eq,
}
use simian_agent.Simian.Targets.{target_namespaces}
use simian_agent.Catalog.Outage.{is_outage_kind}

abbrev pub pod_narrowing_keys : List String
pod_narrowing_keys =
    "labelSelectors" ∷ "expressionSelectors" ∷ "annotationSelectors" ∷ "fieldSelectors" ∷ "pods"
    ∷ "nodes" ∷ "nodeSelectors" ∷ []

unfoldable pub empty_value : Value → Bool
empty_value null = true
empty_value (obj end) = true
empty_value (arr nil) = true
empty_value (str s) = s == ""
empty_value _ = false

unfoldable pub is_narrowing : Option Value → Bool
unfolding empty_value
is_narrowing none = false
is_narrowing (some v) = not (empty_value v)

unfoldable pub selects_pods : Fields → Bool
unfolding is_narrowing get_field
selects_pods sel = any (λ k. is_narrowing (get_field k sel)) pod_narrowing_keys

-- Why a selector of every pod in the namespace is refused, if it is.
unfoldable pub check_open : Option (List String) → Option ExecutorError
check_open (some []) = none
check_open _ = some (error_at ExecutorStage.safety RejectionReason.workload_excluded)

unfoldable pub check_all_open : Exclusions → List String → Option ExecutorError
unfolding check_open first_of
check_all_open ex [] = none
check_all_open ex (ns ∷ nss) = first_of (check_open (ex ns)) (check_all_open ex nss)

pub is_main_path : List Segment → Bool
is_main_path (key a ∷ key b ∷ []) = a == "spec" && b == "selector"
is_main_path _ = false

-- The namespaces that a selector reaches.
unfoldable pub reached_by : FaultManifest → SelectorSite → List String
unfolding is_empty
reached_by m site = if is_empty site.namespaces then target_namespaces m else site.namespaces

unfoldable pub check_site : Exclusions → FaultManifest → SelectorSite → Option ExecutorError
unfolding is_main_path selects_pods check_all_open reached_by
check_site ex m site =
    if is_main_path site.path || selects_pods site.node
    then none
    else check_all_open ex (reached_by m site)

unfoldable pub check_secondary_selectors :
    Exclusions → FaultManifest → List SelectorSite → Option ExecutorError
unfolding check_site first_of
check_secondary_selectors ex m [] = none
check_secondary_selectors ex m (s ∷ ss) =
    first_of (check_site ex m s) (check_secondary_selectors ex m ss)

abbrev pub Labels : Type 0
Labels = List (String × String)

pub equal_labels : Labels → Labels → Bool
equal_labels [] [] = true
equal_labels ((k, v) ∷ a) ((j, w) ∷ b) = k == j && v == w && equal_labels a b
equal_labels _ _ = false

-- What the loop over the targets finds: their labels, whether one has a name, whether they agree.
pub record Found : Type 0 where
  pub labels : Option Labels
  pub is_named : Bool
  pub is_agreed : Bool

unfoldable pub look_at : Found → TargetRef → Found
unfolding equal_labels
look_at f t =
    let g = record f { is_named = f.is_named || not (t.name == "") } in
    elim t.labels [
      | [] ↦ record g { is_agreed = false }
      | l ∷ ls ↦ elim f.labels [
        | none ↦ record g { labels = some (l ∷ ls) }
        | some known ↦ record g { is_agreed = f.is_agreed && equal_labels known (l ∷ ls) }
      ]
    ]

unfoldable pub look_at_all : Found → List TargetRef → Found
unfolding look_at
look_at_all f [] = f
look_at_all f (t ∷ ts) = look_at_all (look_at f t) ts

unfoldable pub found_in : FaultManifest → Found
unfolding look_at_all
found_in m = look_at_all (record { labels = none; is_named = false; is_agreed = true }) m.targets

unfoldable pub label_fields : Labels → Fields
label_fields [] = end
label_fields ((k, v) ∷ ls) = field k (str v) (label_fields ls)

unfoldable pub selector_in : Option Value → Fields
selector_in (some (obj sel)) = sel
selector_in _ = end

unfoldable pub with_selector : FaultManifest → Fields → Labels → FaultManifest
unfolding set_field label_fields selector_in get_field
with_selector m spec labels = record m {
  spec = some (
      set_field "selector"
        (obj (
          set_field "labelSelectors" (obj (label_fields labels))
            (selector_in (get_field "selector" spec))))
        spec);
}

abbrev pub labels_unknown : ExecutorError
labels_unknown = error_at ExecutorStage.safety RejectionReason.schema_invalid

-- No labels to narrow to: a named target is refused where labels can be looked up at all.
unfoldable pub without_labels : Exclusions → Bool → FaultManifest → Found → Gated
unfolding check_all_open
without_labels ex has_workloads m f =
    if f.is_named
    then record { manifest = m; error = if has_workloads then some labels_unknown else none }
    else record { manifest = m; error = check_all_open ex (target_namespaces m) }

unfoldable pub narrow_to : Exclusions → Bool → FaultManifest → Fields → Found → Gated
unfolding without_labels with_selector
narrow_to ex has_workloads m spec f = elim f.labels [
  | none ↦ without_labels ex has_workloads m f
  | some labels ↦
      if f.is_agreed
      then record { manifest = with_selector m spec labels; error = none }
      else without_labels ex has_workloads m f
]

unfoldable pub narrow_main : Exclusions → Bool → FaultManifest → Fields → Gated
unfolding selects_pods selector_in get_field narrow_to found_in
narrow_main ex has_workloads m spec =
    if selects_pods (selector_in (get_field "selector" spec))
    then record { manifest = m; error = none }
    else narrow_to ex has_workloads m spec (found_in m)

unfoldable pub narrow_chaos_mesh : Exclusions → Bool → FaultManifest → Option Fields → Gated
unfolding check_secondary_selectors narrow_main find_selector_sites
narrow_chaos_mesh ex has_workloads m none = record { manifest = m; error = none }
narrow_chaos_mesh ex has_workloads m (some spec) =
    if is_outage_kind m.engine m.resource_kind
    then record { manifest = m; error = none }
    else elim (check_secondary_selectors ex m (find_selector_sites spec)) [
      | some e ↦ record { manifest = m; error = some e }
      | none ↦ narrow_main ex has_workloads m spec
    ]

-- `has_workloads` is whether the executor has a resolver of workloads' labels.
unfoldable pub narrow_pod_selector : Exclusions → Bool → FaultManifest → Gated
unfolding narrow_chaos_mesh
narrow_pod_selector ex has_workloads m =
    if m.engine == engine_chaos_mesh
    then narrow_chaos_mesh ex has_workloads m m.spec
    else record { manifest = m; error = none }
