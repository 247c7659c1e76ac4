-- ===== src/Planner/Topology.antt =====
-- pkg/planner/generate.go, pkg/topology/types.go: what the topology of a namespace says about a step.
-- `true` is no error; the text of an error is left out. A topology that is nil is `none`.
use simian_agent.Prelude.{
  length, keep, any, contains, dedupe_from, sort_by, ℤ, String, Bool, true, false, not, Option,
  none, some, List, map, [], ◌&&◌, ◌||◌, ◌∷◌, ◌==◌, if◌then◌else◌, nat_Eq, string_Eq,
}
use simian_agent.Executor.Paths.{chaos_path_matches}
use simian_agent.Catalog.Tiers.{is_nil, items_of, field_of}
use simian_agent.Catalog.Outage.{is_outage_kind, check_outage_manifest, outage_place}
use simian_agent.Executor.Compat.{
  writes_root_fs, equal_ℤ, spec_int, spec_strings, spec_text, gets_probes,
}
use simian_agent.Audit.Records.{value_or, Reading, map_value, text_value}
use simian_agent.Prelude.Assoc.{lookup}
use simian_agent.Simian.Text.{text_below}
use simian_agent.Executor.Paths.Clean.{clean}
use simian_agent.Simian.Types.{engine_chaos_mesh, FaultManifest, Fields, TargetRef, end, field}

pub record RestartProbe : Type 0 where
  pub port : ℤ
  pub path : String

pub record ContainerSummary : Type 0 where
  pub name : String
  pub read_only_root_fs : Bool
  pub mount_paths : List String
  pub restart_probes : List RestartProbe
  pub grpc_ports : List ℤ

pub record Workload : Type 0 where
  pub name : String
  pub labels : List (String × String)
  pub containers : List ContainerSummary

pub record PodSummary : Type 0 where
  pub node_name : String
  pub zone : String

-- The workloads, and the pods of all of them.
pub record Topology : Type 0 where
  pub workloads : List Workload
  pub pods : List PodSummary

-- `have[k] != v`: a label that is missing reads as the empty text.
unfoldable pub labels_match : List (String × String) → List (String × String) → Bool
unfolding lookup
labels_match [] have = true
labels_match ((k, v) ∷ want) have = value_or (lookup k have) "" == v && labels_match want have

pub names_or_selects : TargetRef → Workload → Bool
unfolding labels_match
names_or_selects t w =
    t.name == w.name || not (length t.labels == 0) && labels_match t.labels w.labels

-- The labels of a map, if each is a text.
pub text_labels : Fields → Option (List (String × String))
unfolding text_value
text_labels end = some []
text_labels (field k v r) = elim (text_value (some v)) [
  | none ↦ none
  | some s ↦ elim (text_labels r) [ none ↦ none | some rest ↦ some ((k, s) ∷ rest) ]
]

pub label_selectors : Option Fields → Option Fields
unfolding map_value field_of
label_selectors spec = map_value (field_of (map_value (field_of spec "selector")) "labelSelectors")

pub selects_workload : Option (List (String × String)) → Workload → Bool
unfolding labels_match
selects_workload none w = false
selects_workload (some []) w = false
selects_workload (some (label ∷ want)) w = labels_match (label ∷ want) w.labels

pub labels_of : Option Fields → Option (List (String × String))
unfolding text_labels
labels_of none = none
labels_of (some fs) = text_labels fs

unfoldable pub step_targets : FaultManifest → Workload → Bool
unfolding names_or_selects labels_of label_selectors selects_workload
step_targets m w =
    any (λ t. names_or_selects t w) m.targets
    || selects_workload (labels_of (label_selectors m.spec)) w

unfoldable pub summary_mounts_at : ContainerSummary → String → Bool
unfolding clean
summary_mounts_at c p = any (λ mp. clean mp == clean p) c.mount_paths

-- The distinct places of the pods, sorted.
unfoldable pub pod_places : Topology → (PodSummary → String) → List String
unfolding sort_by dedupe_from
pod_places t key = sort_by text_below (dedupe_from [] (keep (λ k. not (k == "")) (map key t.pods)))

pub place_key : String → PodSummary → String
place_key kind p = if kind == "node" then p.node_name else p.zone

pub is_known_place : Option Topology → String × String → Bool
unfolding pod_places place_key
is_known_place none place = true
is_known_place (some topo) (kind, place) =
    let known = pod_places topo (place_key kind) in length known == 0 || contains known place

unfoldable pub check_outage : FaultManifest → Option Topology → Bool
unfolding is_known_place outage_place
check_outage m topo = check_outage_manifest m && is_known_place topo (outage_place m)

unfoldable pub check_container_kill : FaultManifest → Bool
unfolding spec_text items_of field_of is_nil
check_container_kill m =
    not (m.engine == engine_chaos_mesh)
    || not (m.resource_kind == "PodChaos")
    || not (spec_text m.spec "action" == "container-kill")
    || not (is_nil (items_of (field_of m.spec "containerNames")))

pub any_summary : (ContainerSummary → Bool) → FaultManifest → Topology → Bool
unfolding step_targets
any_summary unfit m topo = any (λ w. step_targets m w && any unfit w.containers) topo.workloads

-- A fault on the port would meet gRPC or a restart probe.
pub breaks_summary : Option Fields → ℤ → ContainerSummary → Bool
unfolding gets_probes spec_text
breaks_summary spec port c =
    any (λ p. equal_ℤ p port) c.grpc_ports
    || any
        (λ rp.
          gets_probes spec
          && equal_ℤ rp.port port
          && chaos_path_matches (spec_text spec "path") rp.path)
        c.restart_probes

pub is_unfit_summary : String → Option Fields → ContainerSummary → Bool
unfolding spec_strings spec_text summary_mounts_at
is_unfit_summary kind spec c =
    let only = spec_strings spec "containerNames" in
    let volume_path = spec_text spec "volumePath" in
    (length only == 0 || contains only c.name)
    && (c.read_only_root_fs
        || kind == "IOChaos" && not (volume_path == "") && not (summary_mounts_at c volume_path))

module _ (rd : Reading) where
  unfoldable pub check_step_probes : FaultManifest → Topology → Bool
  unfolding spec_int any_summary breaks_summary
  check_step_probes m topo = elim (spec_int rd m.spec "port") [
    | none ↦ true
    | some port ↦ not (any_summary (breaks_summary m.spec port) m topo)
  ]

  pub check_on_topology : FaultManifest → Option Topology → Bool
  unfolding check_step_probes writes_root_fs any_summary is_unfit_summary
  check_on_topology m none = true
  check_on_topology m (some topo) =
      if m.engine == engine_chaos_mesh && m.resource_kind == "HTTPChaos"
      then check_step_probes m topo
      else if not (writes_root_fs m.engine m.resource_kind)
      then true
      else not (any_summary (is_unfit_summary m.resource_kind m.spec) m topo)

  unfoldable pub check_step_compat : FaultManifest → Option Topology → Bool
  unfolding check_outage check_container_kill check_on_topology is_outage_kind
  check_step_compat m topo =
      if is_outage_kind m.engine m.resource_kind
      then check_outage m topo
      else check_container_kill m && check_on_topology m topo
