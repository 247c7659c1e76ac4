-- ===== src/Simian/Targets/Marks.antt =====
-- What the namespaces of a manifest and the marks on an object promise each other.
use simian_agent.Prelude.{
  any, contains, contains-sort_by, String, refl, ap, false, not, List, map, arith, [], ◌≡◌, ◌∙◌,
  ◌≢◌, ◌&&◌, ◌∷◌, ◌==◌, nat_Eq, string_Eq,
}
use text.Mathlib.TextEquality.{eq_iff}
use simian_agent.Simian.Text.{text_below, AllCommaFree, split-join, join-nonempty, join_comma}
use simian_agent.Simian.Types.{TargetRef, FaultManifest}
use simian_agent.Simian.Targets.{
  collect, target_namespaces, targets_namespace, target_namespace_marks, object_acts_on_namespace,
  object_targets, marks_of, bare_target,
}

collect_lem :
    (ns : String) (seen : List String) (ts : List TargetRef)
    → contains (collect seen ts) ns
      ≡ (not (ns == "") && (not (contains seen ns) && any (λ t. t.ns == ns) ts))
unfolding collect
collect_lem ns seen [] = ground arith
collect_lem ns seen (t ∷ ts) = ground (
  arith,
  eq_iff t.ns "",
  eq_iff t.ns ns,
  eq_iff ns "",
  collect_lem ns seen ts,
  collect_lem ns (t.ns ∷ seen) ts,
)

-- A namespace other than the empty one is listed by TargetNamespaces exactly when
-- TargetsNamespace says that the manifest targets it; the empty one never is.
pub contains-target_namespaces :
    (m : FaultManifest) (ns : String)
    → contains (target_namespaces m) ns ≡ (not (ns == "") && targets_namespace m ns)
unfolding target_namespaces targets_namespace
contains-target_namespaces m ns =
    rw (contains-sort_by text_below ns (collect [] m.targets))
      (ground (arith, collect_lem ns [] m.targets))

marks_act :
    (l : List String) (ns : String)
    → l ≢ []
    → AllCommaFree l
    → object_acts_on_namespace (marks_of l).0 (marks_of l).1 ns ≡ contains l ns
unfolding object_acts_on_namespace marks_of
marks_act [] ns h f = absurd (h refl)
marks_act (n ∷ []) ns h f = rw (split-join n [] f) refl
marks_act (n ∷ k ∷ r) ns h f = rw (split-join n (k ∷ r) f) refl

-- The marks that a driver stamps on the object of a manifest, read back from the object, name
-- exactly the namespaces that the manifest targets, if it targets one and no name has a comma.
pub object_acts-marks :
    (m : FaultManifest) (ns : String)
    → ns ≢ ""
    → target_namespaces m ≢ []
    → AllCommaFree (target_namespaces m)
    → object_acts_on_namespace (target_namespace_marks m).0 (target_namespace_marks m).1 ns
      ≡ targets_namespace m ns
unfolding target_namespace_marks
object_acts-marks m ns e h f =
    marks_act (target_namespaces m) ns h f
    ∙ contains-target_namespaces m ns
    ∙ ground (arith, eq_iff ns "")

map-bare : (l : List String) → map (λ (t : TargetRef). t.ns) (map bare_target l) ≡ l
unfolding bare_target
map-bare [] = refl
map-bare (n ∷ l) = ap (◌∷◌ n) (map-bare l)

join_shows :
    (n : String) (r : List String)
    → contains (n ∷ r) "" ≡ false
    → (join_comma (n ∷ r) == "") ≡ false
join_shows n r c =
    let first : n ≢ "" = ground (arith, eq_iff n "") in
    let whole : join_comma (n ∷ r) ≢ "" = join-nonempty n r first in
    ground (arith, eq_iff (join_comma (n ∷ r)) "")

marks_targets :
    (l : List String) (listed_in : String)
    → l ≢ []
    → contains l "" ≡ false
    → AllCommaFree l
    → map (λ (t : TargetRef). t.ns) (object_targets (marks_of l).0 (marks_of l).1 listed_in) ≡ l
unfolding object_targets marks_of
marks_targets [] li h c f = absurd (h refl)
marks_targets (n ∷ []) li h c f = rw (join_shows n [] c, split-join n [] f) (map-bare (n ∷ []))
marks_targets (n ∷ k ∷ r) li h c f =
    rw (join_shows n (k ∷ r) c, split-join n (k ∷ r) f) (map-bare (n ∷ k ∷ r))

-- ObjectTargets reads back from the marks of a manifest the namespaces that the manifest targets,
-- whatever namespace the object was listed in, if there is one and no name has a comma.
pub object_targets-marks :
    (m : FaultManifest) (listed_in : String)
    → target_namespaces m ≢ []
    → AllCommaFree (target_namespaces m)
    → map
        (λ (t : TargetRef). t.ns)
        (object_targets (target_namespace_marks m).0 (target_namespace_marks m).1 listed_in)
      ≡ target_namespaces m
unfolding target_namespace_marks
object_targets-marks m listed_in h f =
    marks_targets (target_namespaces m) listed_in h (contains-target_namespaces m "") f
