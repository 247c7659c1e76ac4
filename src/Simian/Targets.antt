-- ===== src/Simian/Targets.antt =====
-- pkg/simian/types.go: which namespaces a manifest targets, and the marks that say so on an object.
pub mod Marks
use simian_agent.Prelude.{
  any, contains, sort_by, String, Bool, true, Option, none, some, List, map, [], ◌||◌, ◌∷◌, ◌==◌,
  if◌then◌else◌, nat_Eq, string_Eq,
}
use simian_agent.Prelude.Assoc.{lookup}
use simian_agent.Simian.Text.{text_below, join_comma, split_comma}
use simian_agent.Simian.Types.{TargetRef, FaultManifest}

-- The loop of TargetNamespaces; `seen` holds the namespaces that are in the output already.
collect : List String → List TargetRef → List String
collect seen [] = []
collect seen (t ∷ ts) =
    let skip = collect seen ts in
    let rest = t.ns ∷ collect (t.ns ∷ seen) ts in
    if t.ns == "" || contains seen t.ns then skip else rest

unfoldable pub target_namespaces : FaultManifest → List String
unfolding collect sort_by
target_namespaces m = sort_by text_below (collect [] m.targets)

-- An empty namespace is no filter.
unfoldable pub targets_namespace : FaultManifest → String → Bool
targets_namespace m ns = if ns == "" then true else any (λ t. t.ns == ns) m.targets

abbrev pub target_namespace_label : String
target_namespace_label = "simian.chaos/target-namespace"

abbrev pub target_namespaces_annotation : String
target_namespaces_annotation = "simian.chaos/target-namespaces"

abbrev pub Marks : Type 0
Marks = List (String × String) × List (String × String)

marks_of : List String → Marks
unfolding join_comma
marks_of [] = ([], [])
marks_of (n ∷ []) =
    ((target_namespace_label, n) ∷ [], (target_namespaces_annotation, join_comma (n ∷ [])) ∷ [])
marks_of (n ∷ k ∷ r) = ([], (target_namespaces_annotation, join_comma (n ∷ k ∷ r)) ∷ [])

-- The labels and the annotations to stamp.
unfoldable pub target_namespace_marks : FaultManifest → Marks
unfolding marks_of target_namespaces
target_namespace_marks m = marks_of (target_namespaces m)

value_or_empty : Option String → String
value_or_empty none = ""
value_or_empty (some v) = v

bare_target : String → TargetRef
bare_target n = record { ns = n; kind = ""; name = ""; labels = [] }

unfoldable pub object_targets :
    List (String × String) → List (String × String) → String → List TargetRef
unfolding value_or_empty bare_target lookup split_comma
object_targets labels annotations listed_in =
    let list = value_or_empty (lookup target_namespaces_annotation annotations) in
    let label = value_or_empty (lookup target_namespace_label labels) in
    map bare_target (
      if list == "" then (if label == "" then listed_in ∷ [] else label ∷ []) else split_comma list)

acts_by_list : Option String → Option String → String → Bool
unfolding split_comma
acts_by_list none none ns = true
acts_by_list none (some v) ns = v == ns
acts_by_list (some list) label ns = contains (split_comma list) ns

unfoldable pub object_acts_on_namespace :
    List (String × String) → List (String × String) → String → Bool
unfolding acts_by_list lookup
object_acts_on_namespace labels annotations ns =
    acts_by_list (lookup target_namespaces_annotation annotations)
      (lookup target_namespace_label labels) ns
