-- ===== src/Catalog/Tiers.antt =====
-- pkg/catalog/tiers.go: the tier of an engine's kind, and what a manifest's spec raises it to.
-- Package net is a parameter: how it reads an address, and whether a range holds one.

pub mod Suffixes
pub mod Raised
use Prim.Native.Char.{Char, code}
use simian_agent.Prelude.{
  any, contains, String, Bool, true, false, not, Option, none, some, List, [], ◌&&◌, ◌||◌, ◌∷◌,
  ◌==◌, if◌then◌else◌, nat_Eq, string_Eq,
}
use simian_agent.Prelude.Assoc.{lookup}
use simian_agent.Simian.Text.{append_text}
use simian_agent.Executor.Scope.{get_field}
use simian_agent.Simian.Types.{
  str, cons, arr, obj, nil, engine_kube_state, engine_envoy_fault, engine_network_policy,
  engine_litmus, tier_node, tier_namespace, engine_chaos_mesh, tier_external, Items, FaultManifest,
  BlastRadiusTier, Value, Engine, Fields,
}

pub record Net (Ip : Type 0) (Cidr : Type 0) : Type 0 where
  pub read_ip : String → Option Ip
  pub read_cidr : String → Option Ip
  pub has_ip : Cidr → Ip → Bool

abbrev pub chaos_mesh_base_tiers : List (String × BlastRadiusTier)
chaos_mesh_base_tiers =
    ("NetworkChaos", tier_namespace)
    ∷ ("PodChaos", tier_namespace)
    ∷ ("IOChaos", tier_namespace)
    ∷ ("StressChaos", tier_namespace)
    ∷ ("TimeChaos", tier_namespace)
    ∷ ("HTTPChaos", tier_namespace)
    ∷ ("JVMChaos", tier_namespace)
    ∷ ("DNSChaos", tier_namespace)
    ∷ ("BlockChaos", tier_namespace)
    ∷ ("KernelChaos", tier_node)
    ∷ ("PhysicalMachineChaos", tier_node)
    ∷ ("AWSChaos", tier_external)
    ∷ ("GCPChaos", tier_external)
    ∷ ("AzureChaos", tier_external)
    ∷ ("ZoneOutage", tier_namespace)
    ∷ ("NodeOutage", tier_namespace)
    ∷ []

abbrev pub chaos_mesh_non_fault_kinds : List String
chaos_mesh_non_fault_kinds =
    "Workflow" ∷ "WorkflowNode" ∷ "Schedule" ∷ "StatusCheck" ∷ "RemoteCluster" ∷ "PhysicalMachine"
    ∷ "PodNetworkChaos" ∷ "PodIOChaos" ∷ "PodHttpChaos" ∷ []

abbrev pub kube_state_namespace_kinds : List String
kube_state_namespace_kinds =
    "ImageUnresolvable" ∷ "ContainerExitLoop" ∷ "MemoryLimitSqueeze" ∷ "Unschedulable"
    ∷ "JobFailure" ∷ "SelectorDrift" ∷ "BackendCrashLoop" ∷ "UnboundClaim" ∷ "DependencyStall"
    ∷ "RolloutStuck" ∷ "CertExpiry" ∷ "PDBGridlock" ∷ "NoOp" ∷ []

unfoldable pub is_user_fault : Engine → String → Bool
is_user_fault engine kind =
    if engine == engine_chaos_mesh then not (contains chaos_mesh_non_fault_kinds kind) else true

unfoldable pub chaos_mesh_tier : String → BlastRadiusTier
unfolding lookup
chaos_mesh_tier kind = elim (lookup kind chaos_mesh_base_tiers) [
  | some t ↦ t
  | none ↦ tier_external
]

unfoldable pub kube_state_tier : String → BlastRadiusTier
kube_state_tier kind =
    if contains kube_state_namespace_kinds kind then tier_namespace else tier_external

-- An unknown engine or kind is external.
unfoldable pub classify : Engine → String → BlastRadiusTier
classify engine kind =
    if engine == engine_chaos_mesh
    then chaos_mesh_tier kind
    else if engine == engine_litmus
    then tier_namespace
    else if engine == engine_network_policy
    then tier_namespace
    else if engine == engine_envoy_fault
    then tier_namespace
    else if engine == engine_kube_state
    then kube_state_tier kind
    else tier_external

pub is_dot : Char → Bool
is_dot c = code c == 46

-- strings.TrimSuffix(s, ".").
unfoldable pub trim_dot : String → String
unfolding is_dot
trim_dot String.[] = ""
trim_dot (String.◌∷◌ c String.[]) = if is_dot c then "" else String.◌∷◌ c ""
trim_dot (String.◌∷◌ c (String.◌∷◌ d s)) = String.◌∷◌ c (trim_dot (String.◌∷◌ d s))

-- strings.HasSuffix.
unfoldable pub has_suffix : String → String → Bool
has_suffix String.[] t = "" == t
has_suffix (String.◌∷◌ c s) t = (String.◌∷◌ c s == t) || has_suffix s t

unfoldable pub matches_domain : String → String → Bool
unfolding has_suffix trim_dot append_text
matches_domain pattern d =
    has_suffix (trim_dot pattern) (append_text "." (trim_dot d)) || trim_dot pattern == trim_dot d

unfoldable pub matches_any_domain : String → List String → Bool
unfolding matches_domain
matches_any_domain pattern domains = any (matches_domain pattern) domains

-- An item that is no text is passed over.
unfoldable pub is_external_pattern : List String → Value → Bool
unfolding matches_any_domain
is_external_pattern domains (str s) = not (matches_any_domain s domains)
is_external_pattern domains _ = false

unfoldable pub any_item : (Value → Bool) → Items → Bool
any_item f nil = false
any_item f (cons v r) = f v || any_item f r

unfoldable pub field_of : Option Fields → String → Option Value
unfolding get_field
field_of none k = none
field_of (some fs) k = get_field k fs

unfoldable pub items_of : Option Value → Items
items_of (some (arr xs)) = xs
items_of _ = nil

unfoldable pub has_external_dns_pattern : Option Fields → List String → Bool
unfolding any_item is_external_pattern items_of field_of
has_external_dns_pattern spec domains =
    any_item (is_external_pattern domains) (items_of (field_of spec "patterns"))

unfoldable pub is_nil : Items → Bool
is_nil nil = true
is_nil (cons v r) = false

unfoldable pub target_value : Option Value → Option String
unfolding get_field
target_value (some (obj fs)) = text_of (get_field "value" fs)
  where
    text_of : Option Value → Option String
    text_of (some (str s)) = some s
    text_of _ = none
target_value _ = none

unfoldable pub current_tier : FaultManifest → BlastRadiusTier
unfolding classify
current_tier m =
    if m.blast_radius_tier == "" then classify m.engine m.resource_kind else m.blast_radius_tier

module _ {Ip : Type 0} {Cidr : Type 0} (net : Net Ip Cidr) where
  -- A bare address, or the first address of a range.
  unfoldable pub parse_ip : String → Option Ip
  parse_ip s = elim (net.read_ip s) [ some ip ↦ some ip | none ↦ net.read_cidr s ]

  unfoldable pub in_any_cidr : Ip → List Cidr → Bool
  in_any_cidr ip cidrs = any (λ c. net.has_ip c ip) cidrs

  unfoldable pub is_external_address : List Cidr → String → Bool
  unfolding parse_ip in_any_cidr
  is_external_address cidrs v = elim (parse_ip v) [
    | none ↦ false
    | some ip ↦ not (in_any_cidr ip cidrs)
  ]

  unfoldable pub is_external_value : List Cidr → Option String → Bool
  unfolding is_external_address
  is_external_value cidrs none = false
  is_external_value cidrs (some v) = not (v == "") && is_external_address cidrs v

  unfoldable pub has_external_ip_target : Option Fields → List Cidr → Bool
  unfolding is_nil items_of field_of target_value is_external_value
  has_external_ip_target spec cidrs =
      not (is_nil (items_of (field_of spec "externalTargets")))
      || is_external_value cidrs (target_value (field_of spec "target"))

  unfoldable pub reclassify_for_spec : FaultManifest → List Cidr → List String → BlastRadiusTier
  unfolding current_tier has_external_ip_target has_external_dns_pattern
  reclassify_for_spec m cidrs domains =
      if not (m.engine == engine_chaos_mesh)
      then current_tier m
      else if m.resource_kind == "NetworkChaos"
      then if has_external_ip_target m.spec cidrs then tier_external else current_tier m
      else if m.resource_kind == "DNSChaos"
      then if has_external_dns_pattern m.spec domains then tier_external else current_tier m
      else current_tier m
