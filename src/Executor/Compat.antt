-- ===== src/Executor/Compat.antt =====
-- pkg/executor/compat.go: which faults an engine cannot inject into the containers that they target,
-- or cannot take out of them again. The pods come from a TargetPods, which is a parameter; `none` is
-- its error. A refusal's message is left out, so the loops are searches for a container that is unfit.
pub mod Sparing
pub mod Fitting
use Prim.Native.Char.{Char, code}
use simian_agent.Prelude.{
  length, any, contains, ℤ, pos, pos_part, neg_part, ℕ, String, Bool, true, false, not, Option,
  none, some, List, map, leb, [], ◌+◌, ◌&&◌, ◌||◌, ◌∷◌, ◌==◌, if◌then◌else◌, nat_Eq, string_Eq,
}
use simian_agent.Executor.Safety.{error_at}
use simian_agent.Catalog.Tiers.{items_of, field_of}
use simian_agent.Executor.Paths.{chaos_path_matches}
use simian_agent.Executor.Paths.Clean.{clean}
use simian_agent.Audit.Records.{value_or, number_value, texts_of, text_value, Reading}
use simian_agent.Simian.Types.{
  RejectionReason, ExecutorStage, FaultManifest, engine_chaos_mesh, TargetRef, Engine, Fields,
  ExecutorError,
}

-- intstr.IntOrString.
pub data PortRef : Type 0 where
  numbered : ℤ → PortRef
  named : String → PortRef

pub record HttpGet : Type 0 where
  pub port : PortRef
  pub path : String

-- The HTTPGet and the GRPC.Port of a probe, if it has them.
pub record Probe : Type 0 where
  pub http_get : Option HttpGet
  pub grpc : Option ℤ

pub record ContainerPort : Type 0 where
  pub name : String
  pub container_port : ℤ

-- `read_only` is SecurityContext.ReadOnlyRootFilesystem, and `mounts` the mount paths.
pub record Container : Type 0 where
  pub name : String
  pub ports : List ContainerPort
  pub liveness : Option Probe
  pub readiness : Option Probe
  pub startup : Option Probe
  pub read_only : Option Bool
  pub mounts : List String

abbrev pub Pod : Type 0
Pod = List Container

abbrev pub TargetPods : Type 0
TargetPods = String → List (String × String) → Option (List Pod)

abbrev pub equal_ℤ : ℤ → ℤ → Bool
equal_ℤ a b = pos_part a == pos_part b && neg_part a == neg_part b

abbrev pub root_fs_writers : List String
root_fs_writers = "IOChaos" ∷ "DNSChaos" ∷ []

unfoldable pub writes_root_fs : Engine → String → Bool
writes_root_fs engine kind = engine == engine_chaos_mesh && contains root_fs_writers kind

unfoldable pub mount_paths : Container → List String
unfolding clean
mount_paths c = map clean c.mounts

unfoldable pub mounts_at : Container → String → Bool
unfolding mount_paths clean
mounts_at c p = contains (mount_paths c) (clean p)

unfoldable pub spec_strings : Option Fields → String → List String
unfolding texts_of items_of field_of
spec_strings spec key = texts_of (items_of (field_of spec key))

unfoldable pub spec_text : Option Fields → String → String
unfolding text_value field_of
spec_text spec key = value_or (text_value (field_of spec key)) ""

-- Text in lower case, as far as it is ASCII; no other character has one of "grpcet" as its lower case.
pub lower_codes : String → List ℕ
lower_codes String.[] = []
lower_codes (String.◌∷◌ c s) =
    (if leb 65 (code c) && leb (code c) 90 then code c + 32 else code c) ∷ lower_codes s

pub starts_with : List ℕ → List ℕ → Bool
starts_with [] s = true
starts_with (c ∷ prefix) [] = false
starts_with (c ∷ prefix) (d ∷ s) = c == d && starts_with prefix s

-- strings.EqualFold(s, t) for a `t` of ASCII letters other than "k" and "s".
unfoldable pub equal_fold : String → String → Bool
unfolding lower_codes starts_with
equal_fold s t =
    starts_with (lower_codes s) (lower_codes t) && starts_with (lower_codes t) (lower_codes s)

unfoldable pub has_grpc_name : String → Bool
unfolding lower_codes starts_with
has_grpc_name name = starts_with (lower_codes "grpc") (lower_codes name)

-- A gRPC probe is aimed at the port.
pub probes_grpc : ℤ → Option Probe → Bool
probes_grpc port none = false
probes_grpc port (some probe) = elim probe.grpc [ none ↦ false | some p ↦ equal_ℤ p port ]

unfoldable pub grpc_port : Container → ℤ → Bool
unfolding probes_grpc has_grpc_name
grpc_port c port =
    probes_grpc port c.liveness
    || probes_grpc port c.readiness
    || probes_grpc port c.startup
    || any (λ cp. equal_ℤ cp.container_port port && has_grpc_name cp.name) c.ports

pub port_named : String → List ContainerPort → ℤ
port_named name [] = pos 0
port_named name (cp ∷ ports) = if cp.name == name then cp.container_port else port_named name ports

unfoldable pub probe_port : Container → PortRef → ℤ
unfolding port_named
probe_port c (numbered n) = n
probe_port c (named name) = port_named name c.ports

-- The fault would hit the probe's HTTP request.
unfoldable pub hits_probe : Container → ℤ → String → Option Probe → Bool
hits_probe c port path_glob none = false
hits_probe c port path_glob (some probe) = elim probe.http_get [
  | none ↦ false
  | some get ↦ equal_ℤ (probe_port c get.port) port && chaos_path_matches path_glob get.path
]

-- Kubelet HTTP probes are GETs.
unfoldable pub gets_probes : Option Fields → Bool
unfolding spec_text equal_fold
gets_probes spec = spec_text spec "method" == "" || equal_fold (spec_text spec "method") "GET"

unfoldable pub breaks_http : Option Fields → ℤ → Container → Bool
unfolding grpc_port hits_probe gets_probes spec_text
breaks_http spec port c =
    grpc_port c port
    || gets_probes spec
      && (hits_probe c port (spec_text spec "path") c.liveness
          || hits_probe c port (spec_text spec "path") c.startup)

pub is_read_only : Option Bool → Bool
is_read_only none = false
is_read_only (some b) = b

-- `len(containers) > 0 && !slices.Contains(containers, c.Name)` passes a container over.
unfoldable pub is_meant : Option Fields → Container → Bool
unfolding spec_strings
is_meant spec c =
    length (spec_strings spec "containerNames") == 0
    || contains (spec_strings spec "containerNames") c.name

unfoldable pub is_unwritable : String → Option Fields → Container → Bool
unfolding is_meant is_read_only spec_text mounts_at
is_unwritable kind spec c =
    is_meant spec c
    && (is_read_only c.read_only
        || kind == "IOChaos"
          && not (spec_text spec "volumePath" == "")
          && not (mounts_at c (spec_text spec "volumePath")))

-- The pods of a target that can be judged.
unfoldable pub pods_for : TargetPods → TargetRef → List Pod
pods_for tp t = if t.ns == "" || length t.labels == 0 then [] else value_or (tp t.ns t.labels) []

unfoldable pub any_container : (Container → Bool) → TargetPods → List TargetRef → Bool
unfolding pods_for
any_container unfit tp targets = any (λ t. any (λ p. any unfit p) (pods_for tp t)) targets

unfoldable pub refuse_if : Bool → Option ExecutorError
refuse_if unfit =
    if unfit
    then some (error_at ExecutorStage.precheck RejectionReason.target_incompatible)
    else none

module _ (rd : Reading) where
  unfoldable pub spec_int : Option Fields → String → Option ℤ
  unfolding number_value field_of
  spec_int spec key = elim (number_value (field_of spec key)) [
    | none ↦ none
    | some s ↦ some (rd.read_int s)
  ]

  unfoldable pub check_http_chaos_probes : TargetPods → FaultManifest → Option ExecutorError
  unfolding spec_int breaks_http any_container refuse_if
  check_http_chaos_probes tp m = elim (spec_int m.spec "port") [
    | none ↦ none
    | some port ↦ refuse_if (any_container (breaks_http m.spec port) tp m.targets)
  ]

  -- `none` is an executor with no TargetPods.
  unfoldable pub check_target_compat : Option TargetPods → FaultManifest → Option ExecutorError
  check_target_compat none m = none
  check_target_compat (some tp) m =
      if not (m.engine == engine_chaos_mesh)
      then none
      else if m.resource_kind == "HTTPChaos"
      then check_http_chaos_probes tp m
      else if not (writes_root_fs m.engine m.resource_kind)
      then none
      else refuse_if (any_container (is_unwritable m.resource_kind m.spec) tp m.targets)
