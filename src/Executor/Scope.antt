-- ===== src/Executor/Scope.antt =====
-- pkg/executor/nsscope.go: which namespaces a fault's spec selects. A map's fields stand in the order
-- of their keys, so sortedKeys is the order of the list.
pub mod Reading
pub mod Narrowing
pub mod Scoping
use simian_agent.Prelude.{
  contains, dedupe_from, sort_by, ℕ, suc, String, Bool, true, false, Option, none, some, List, ltb,
  [], ◌-◌, ◌&&◌, ◌||◌, ◌∷◌, ◌++◌, ◌==◌, if◌then◌else◌, nat_Eq, string_Eq,
}
use simian_agent.Prelude.Results.{Result, ok, err}
use simian_agent.Simian.Text.{text_below}
use simian_agent.Simian.Types.{
  Value, null, bool, num, str, arr, obj, Items, nil, cons, Fields, end, field, Engine,
  engine_network_policy, engine_envoy_fault, FaultManifest, ExecutorError, ExecutorStage,
  RejectionReason,
}
use simian_agent.Simian.Targets.{target_namespaces}

abbrev pub selector_field_names : List String
selector_field_names = "selector" ∷ "podSelector" ∷ "containerSelector" ∷ []

abbrev pub selector_marker_keys : List String
selector_marker_keys =
    "namespaces" ∷ "labelSelectors" ∷ "expressionSelectors" ∷ "annotationSelectors"
    ∷ "fieldSelectors" ∷ "podPhaseSelectors" ∷ "nodeSelectors" ∷ "nodes" ∷ "pods" ∷ []

abbrev pub opaque_map_fields : List String
opaque_map_fields =
    "labelSelectors" ∷ "annotationSelectors" ∷ "fieldSelectors" ∷ "nodeSelectors" ∷ "pods" ∷ []

-- Shut, so that a proof that knows nothing of a key does not walk the list.
pub is_selector_field : String → Bool
is_selector_field k = contains selector_field_names k

pub is_marker_key : String → Bool
is_marker_key k = contains selector_marker_keys k

pub is_opaque : String → Bool
is_opaque k = contains opaque_map_fields k

pub is_container : Value → Bool
is_container (arr xs) = true
is_container (obj fs) = true
is_container _ = false

pub has_selector_marker : Fields → Bool
unfolding is_container is_marker_key
has_selector_marker end = false
has_selector_marker (field k v r) = (is_marker_key k && is_container v) || has_selector_marker r

unfoldable pub get_field : String → Fields → Option Value
get_field k end = none
get_field k (field j v r) = if j == k then some v else get_field k r

-- The new field stands where its key belongs.
unfoldable pub set_field : String → Value → Fields → Fields
set_field k v end = field k v end
set_field k v (field j w r) =
    if j == k
    then field k v r
    else if text_below k j
    then field k v (field j w r)
    else field j w (set_field k v r)

pub add_text : Value → List String → List String
add_text (str s) l = if s == "" then l else s ∷ l
add_text _ l = l

pub texts_in : Items → List String
unfolding add_text
texts_in nil = []
texts_in (cons v r) = add_text v (texts_in r)

-- The non-empty texts of a list; nothing of any other value.
pub listed : Option Value → List String
unfolding texts_in
listed (some (arr xs)) = texts_in xs
listed _ = []

pub keys_in : Fields → List String
keys_in end = []
keys_in (field k v r) = if k == "" then keys_in r else k ∷ keys_in r

pub keyed : Option Value → List String
unfolding keys_in
keyed (some (obj fs)) = keys_in fs
keyed _ = []

-- Named by the `namespaces` list or as a key of the `pods` map.
pub namespaces_in : Fields → List String
unfolding listed keyed get_field dedupe_from sort_by
namespaces_in fs =
    sort_by text_below
      (dedupe_from [] (listed (get_field "namespaces" fs) ++ keyed (get_field "pods" fs)))

pub data Segment : Type 0 where
  key : String → Segment
  index : ℕ → Segment

pub record SelectorSite : Type 0 where
  pub path : List Segment
  pub node : Fields
  pub namespaces : List String

pub is_selector : String → Fields → Bool
unfolding has_selector_marker is_selector_field
is_selector k fs = is_selector_field k || has_selector_marker fs

pub site_of : String → List Segment → Fields → List SelectorSite
site_of k path fs =
    if is_selector k fs
    then record { path = path; node = fs; namespaces = namespaces_in fs } ∷ []
    else []

mutual
  unfolding site_of is_opaque

  pub walk_for_selectors : Value → List Segment → String → List SelectorSite
  walk_for_selectors (obj fs) path k = site_of k path fs ++ walk_fields fs path
  walk_for_selectors (arr xs) path k = walk_items xs path 0
  walk_for_selectors null path k = []
  walk_for_selectors (bool b) path k = []
  walk_for_selectors (num n) path k = []
  walk_for_selectors (str s) path k = []

  pub walk_fields : Fields → List Segment → List SelectorSite
  walk_fields end path = []
  walk_fields (field k v r) path =
      (if is_opaque k then [] else walk_for_selectors v (path ++ key k ∷ []) k)
      ++ walk_fields r path

  pub walk_items : Items → List Segment → ℕ → List SelectorSite
  walk_items nil path i = []
  walk_items (cons v r) path i =
      walk_for_selectors v (path ++ index i ∷ []) "" ++ walk_items r path (suc i)

unfoldable pub find_selector_sites : Fields → List SelectorSite
unfolding walk_for_selectors is_selector namespaces_in
find_selector_sites spec = walk_for_selectors (obj spec) (key "spec" ∷ []) ""

pub to_items : List String → Items
to_items [] = nil
to_items (s ∷ ss) = cons (str s) (to_items ss)

unfoldable pub is_empty : List String → Bool
is_empty [] = true
is_empty (s ∷ ss) = false

-- `site.node["namespaces"] = toAnySlice(targetNS)` at a site that names none; `inner` is the node with
-- the sites below it narrowed.
pub narrow_node : List String → String → Fields → Fields → Fields
narrow_node targets k fs inner =
    if is_selector k fs && is_empty (namespaces_in fs)
    then set_field "namespaces" (arr (to_items targets)) inner
    else inner

-- The spec after every site that names no namespace is narrowed.
mutual
  unfolding narrow_node is_opaque

  pub narrow : List String → Value → String → Value
  narrow targets (obj fs) k = obj (narrow_node targets k fs (narrow_fields targets fs))
  narrow targets (arr xs) k = arr (narrow_items targets xs)
  narrow targets null k = null
  narrow targets (bool b) k = bool b
  narrow targets (num n) k = num n
  narrow targets (str s) k = str s

  pub narrow_fields : List String → Fields → Fields
  narrow_fields targets end = end
  narrow_fields targets (field k v r) =
      field k (if is_opaque k then v else narrow targets v k) (narrow_fields targets r)

  pub narrow_items : List String → Items → Items
  narrow_items targets nil = nil
  narrow_items targets (cons v r) = cons (narrow targets v "") (narrow_items targets r)

pub narrow_spec : List String → Fields → Fields
unfolding narrow_node narrow_fields is_selector namespaces_in is_empty set_field to_items
narrow_spec targets spec = narrow_node targets "" spec (narrow_fields targets spec)

-- The same up to the `n`-th site, in the order of the walk: what a rejection at the next one leaves
-- behind. Each function gives back how many of the `n` are to come.
pub sites_left : String → Fields → ℕ → ℕ
sites_left k fs n = if is_selector k fs then n - 1 else n

pub mark_some : List String → String → Fields → ℕ → Fields → Fields
mark_some targets k fs n inner =
    if ltb 0 n && is_selector k fs && is_empty (namespaces_in fs)
    then set_field "namespaces" (arr (to_items targets)) inner
    else inner

mutual
  unfolding mark_some sites_left is_opaque

  pub narrow_some : List String → ℕ → Value → String → Value × ℕ
  narrow_some targets n (obj fs) k =
      let (inner, left) = narrow_some_fields targets (sites_left k fs n) fs in
      (obj (mark_some targets k fs n inner), left)
  narrow_some targets n (arr xs) k =
      let (ys, left) = narrow_some_items targets n xs in (arr ys, left)
  narrow_some targets n null k = (null, n)
  narrow_some targets n (bool b) k = (bool b, n)
  narrow_some targets n (num t) k = (num t, n)
  narrow_some targets n (str t) k = (str t, n)

  pub narrow_some_fields : List String → ℕ → Fields → Fields × ℕ
  narrow_some_fields targets n end = (end, n)
  narrow_some_fields targets n (field k v r) =
      let inside = narrow_some targets n v k in
      let (w, left) = if is_opaque k then (v, n) else inside in
      let (rest, still) = narrow_some_fields targets left r in (field k w rest, still)

  pub narrow_some_items : List String → ℕ → Items → Items × ℕ
  narrow_some_items targets n nil = (nil, n)
  narrow_some_items targets n (cons v r) =
      let (w, left) = narrow_some targets n v "" in
      let (rest, still) = narrow_some_items targets left r in (cons w rest, still)

unfoldable pub narrow_first : List String → ℕ → Fields → Fields
unfolding narrow_some_fields mark_some sites_left is_selector namespaces_in is_empty set_field
    to_items
narrow_first targets n spec =
    mark_some targets "" spec n (narrow_some_fields targets (sites_left "" spec n) spec).0

abbrev pub not_eligible : ExecutorError
not_eligible = record {
  stage = ExecutorStage.safety;
  reason = RejectionReason.namespace_not_eligible;
}

-- IsEligible: `none` is a failed lookup.
abbrev pub Eligibility : Type 0
Eligibility = String → Option Bool

abbrev pub is_granted : Option Bool → Bool
is_granted none = false
is_granted (some b) = b

unfoldable pub is_eligible : Eligibility → String → Bool
is_eligible el ns = is_granted (el ns)

pub all_eligible : Eligibility → List String → Bool
unfolding is_eligible
all_eligible el [] = true
all_eligible el (ns ∷ nss) = is_eligible el ns && all_eligible el nss

-- The loop over the sites: `none` is the rejection, else the paths that are narrowed.
pub check_sites : Eligibility → List SelectorSite → Option (List (List Segment))
unfolding all_eligible is_empty
check_sites el [] = some []
check_sites el (s ∷ ss) =
    let rest = check_sites el ss in
    if is_empty s.namespaces
    then elim rest [ none ↦ none | some paths ↦ some (s.path ∷ paths) ]
    else if all_eligible el s.namespaces
    then rest
    else none

-- How many sites pass before the first that does not.
unfoldable pub passed_sites : Eligibility → List SelectorSite → ℕ
unfolding all_eligible is_empty
passed_sites el [] = 0
passed_sites el (s ∷ ss) =
    let rest = passed_sites el ss in
    if is_empty s.namespaces || all_eligible el s.namespaces then suc rest else 0

unfoldable pub is_scope_exempt : Engine → Bool
is_scope_exempt e = e == engine_network_policy || e == engine_envoy_fault

pub record Scoped : Type 0 where
  pub manifest : FaultManifest
  pub narrowed : List (List Segment)

-- `err` is the rejection with `not_eligible`, and the manifest as it is left: the sites before the
-- rejected one are narrowed in place.
unfoldable pub scope_spec :
    Eligibility → FaultManifest → Option Fields → Result FaultManifest Scoped
unfolding is_empty check_sites find_selector_sites narrow_spec narrow_first passed_sites
scope_spec el m none = ok (record { manifest = m; narrowed = [] })
scope_spec el m (some end) = ok (record { manifest = m; narrowed = [] })
scope_spec el m (some (field k v r)) =
    let whole : Fields = field k v r in
    let targets = target_namespaces m in
    let sites = find_selector_sites whole in
    if is_empty targets then err m else elim (check_sites el sites) [
      | none ↦ err (record m { spec = some (narrow_first targets (passed_sites el sites) whole) })
      | some paths ↦ ok (record {
        manifest = record m { spec = some (narrow_spec targets whole) };
        narrowed = paths;
      })
    ]

unfoldable pub validate_spec_namespace_scope :
    Eligibility → FaultManifest → Result FaultManifest Scoped
unfolding is_scope_exempt scope_spec
validate_spec_namespace_scope el m =
    if is_scope_exempt m.engine
    then ok (record { manifest = m; narrowed = [] })
    else scope_spec el m m.spec
