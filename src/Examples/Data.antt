-- ===== src/Examples/Data.antt =====
-- A pod kill in the namespace "shop", a driver that takes it, and the parts around them.
use simian_agent.Prelude.{
  pos, ℕ, true, false, none, some, List, [], ◌∷◌, ◌==◌, if◌then◌else◌, nat_Eq, string_Eq,
}
use simian_agent.Executor.History.{new_history}
use simian_agent.Executor.Safety.{Config, Exclusions}
use simian_agent.Lease.Registry.Keyed.{new_registry-Keyed, register-Keyed, Keyed}
use simian_agent.Executor.Scope.{Eligibility}
use simian_agent.Executor.Host.{State, Host, ApplyDriver}
use simian_agent.Executor.Budget.{Books, Limits}
use simian_agent.Lease.Registry.{new_registry, leased_as, register, Registry}
use simian_agent.Catalog.Tiers.{Net}
use simian_agent.Simian.Types.{
  end, obj, str, field, FaultManifest, TargetRef, Fields, ActiveFault, PlanStep,
}
use simian_agent.Simian.Interfaces.{answered, ChaosDriver}

abbrev pub web : TargetRef
web = record { ns = "shop"; kind = "Deployment"; name = "web"; labels = ("app", "web") ∷ [] }

abbrev pub pod_spec : Fields
pod_spec =
    field "action" (str "pod-kill")
      (field "selector" (obj (field "labelSelectors" (obj (field "app" (str "web") end)) end)) end)

abbrev pub pod_kill : FaultManifest
pod_kill = record {
  uid = "f-1";
  source = "autonomous";
  engine = "chaos-mesh";
  api_version = "chaos-mesh.org/v1alpha1";
  resource_kind = "PodChaos";
  spec = some pod_spec;
  targets = web ∷ [];
  duration = pos 60;
  blast_radius_tier = "";
  probes = record { name = "down"; type = "httpProbe"; mode = "Settle"; spec = none } ∷ [];
  rationale = "";
  plan_id = "p-1";
  annotations = [];
}

abbrev pub net : Net ℕ ℕ
net = record {
  read_ip = λ s. if s == "10.0.0.1" then some 1 else none;
  read_cidr = λ s. none;
  has_ip = λ c ip. c == ip;
}

abbrev pub limits : Limits
limits = record { max_concurrent_faults = 1; min_cooldown = 300 }

abbrev pub config : Config ℕ
config = record {
  duration_ceiling = 900;
  permitted_tiers = "namespace" ∷ "node" ∷ [];
  limits = limits;
  cluster_pod_cidrs = 1 ∷ [];
  cluster_service_cidrs = [];
  cluster_domains = "cluster.local" ∷ [];
}

abbrev pub only_shop : Eligibility
only_shop ns = some (ns == "shop")

abbrev pub nothing_excluded : Exclusions
nothing_excluded ns = some []

abbrev pub mesh : ApplyDriver
mesh = record {
  apply = λ m. some "podchaos/shop/f-1";
  confirms = some (λ u. answered true);
  is_incompatible = λ m. false;
  clears = λ u. true;
}

abbrev pub host : Host
host = record {
  drivers = ("chaos-mesh", mesh) ∷ [];
  eligibility = only_shop;
  exclusions = nothing_excluded;
  workloads = none;
  compat = λ m. none;
  prober = some (λ p t. record { is_passed = true; has_error = false; is_cut_short = false });
  default_probes = none;
  new_uid = "f-9";
  reserved_at = 1000;
  applied_at = 1001;
  registered_at = 1002;
  recorded_at = 1003;
  refused_at = 1004;
}

abbrev pub empty_registry : Registry
empty_registry = new_registry "simian-0"

abbrev pub idle_books : Books
idle_books = record {
  registry = empty_registry;
  in_flight = 0;
  in_flight_ns = [];
  last_apply_by_ns = [];
}

abbrev pub idle : State
idle = record { books = idle_books; history = some (new_history (pos 10)); events = [] }

-- The registry with the fault in it, due at 1060.
abbrev pub one_lease : Registry
one_lease = (register empty_registry 1000 "f-1" "podchaos/shop/f-1" pod_kill 1060).0

abbrev pub one_lease-Keyed : Keyed one_lease
one_lease-Keyed =
    register-Keyed empty_registry 1000 "f-1" "podchaos/shop/f-1" pod_kill 1060
      (new_registry-Keyed "simian-0")

abbrev pub the_lease : ActiveFault
the_lease = leased_as empty_registry 1000 "f-1" "podchaos/shop/f-1" pod_kill 1060

abbrev pub lease_driver : ChaosDriver
lease_driver = record {
  engine = "chaos-mesh";
  clears = λ u. true;
  reaper = none;
  lister = some (λ nss now. record { faults = the_lease ∷ []; list_failed = false });
}

abbrev pub chain : List PlanStep
chain =
    record { order = 1; manifest = pod_kill; depends_on = []; duration_rationale = "" }
    ∷ record { order = 2; manifest = pod_kill; depends_on = 1 ∷ []; duration_rationale = "" }
    ∷ []
