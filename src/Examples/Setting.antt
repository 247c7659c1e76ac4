-- ===== src/Examples/Setting.antt =====
-- Settings of autonomous mode, and the tier of a DNS fault (pkg/loop, pkg/catalog).
use simian_agent.Simian.Types.{end, field, tier_external, FaultManifest, str, cons, nil, arr}
use simian_agent.Loop.Settings.{
  store, Source, signal, Limits, Settings, sync, new_control, validate,
}
use simian_agent.Loop.Settings.Waking.{Shared, look}
use simian_agent.Prelude.{
  subst, pos, String, refl, ap, true, false, Option, none, some, arith, string_Eq, [], ◌<◌, ◌≡◌,
  ◌∙◌, ◌≢◌, ◌∷◌, ◌==◌, nat_Eq,
}
use simian_agent.Loop.Health.{count_ready, HealthGate, check, Snapshot, pods_of}
use simian_agent.Loop.Health.Healthy.{check-Healthy, Healthy, Countable}
use simian_agent.Simian.Text.{text}
use simian_agent.Catalog.Tiers.Raised.{reclassify_dns_exact, Outside, SomeItem}
use simian_agent.Examples.Data.{pod_kill, net}
use simian_agent.Catalog.Tiers.{
  chaos_mesh_tier, field_of, items_of, reclassify_for_spec, current_tier,
}
use simian_agent.Loop.Settings.Fitting.{validate-Fits, Fits, validate_paused}

abbrev installed : Settings
installed = record {
  enabled = true;
  namespaces = "shop" ∷ [];
  interval = pos 120000000000;
  max_faults_per_cycle = pos 1;
  max_severity_per_cycle = "node";
  hypothesis = "";
  paused = [];
}

abbrev ceilings : Limits
ceilings = record {
  max_concurrent_faults = 2;
  permitted_tiers = "namespace" ∷ "node" ∷ [];
  arenas = "shop" ∷ [];
  min_interval = pos 0;
  install = some installed;
}

accepted_test : validate installed ceilings ≡ none
unfolding validate
accepted_test = refl

validate-Fits_example : Fits ceilings installed
validate-Fits_example = validate-Fits installed ceilings accepted_test

validate_paused_example : validate (record installed { paused = "*" ∷ [] }) ceilings ≡ none
validate_paused_example = validate_paused installed ceilings ("*" ∷ []) refl (λ on e. cc)

abbrev shared : Shared
shared = record {
  control = new_control installed;
  copy = (sync (new_control installed)).0;
  woken = false;
  pending = 0;
}

abbrev pausing : Settings
pausing = record installed { paused = "*" ∷ [] }

abbrev ada : Source
ada = record { by = "ada"; at = 5 }

abbrev stored : Shared
stored = record shared { control = store shared.control pausing ada; pending = 1 }

-- The loop looks between the write and the signal.
abbrev signalled : Shared
signalled = record (look stored) { control = signal stored.control; pending = 0 }

abbrev dns_fault : FaultManifest
dns_fault = record pod_kill {
  resource_kind = "DNSChaos";
  spec = some (
      field "patterns" (arr (cons (str "shop.cluster.local") (cons (str "example.com.") nil))) end);
}

dns_is_inside : current_tier dns_fault ≢ tier_external
unfolding current_tier chaos_mesh_tier
dns_is_inside e =
    let p : (text "namespace" == "external") ≡ true =
      (string_Eq.beq_iff "namespace" "external").1 e in
    cc

reclassify_test : reclassify_for_spec net dns_fault (1 ∷ []) ("cluster.local" ∷ []) ≡ tier_external
unfolding reclassify_for_spec
reclassify_test = refl

reclassify_dns_exact_example :
    (reclassify_for_spec net dns_fault (1 ∷ []) ("cluster.local" ∷ []) ≡ tier_external
      → SomeItem (Outside ("cluster.local" ∷ [])) (items_of (field_of dns_fault.spec "patterns")))
    × (SomeItem (Outside ("cluster.local" ∷ [])) (items_of (field_of dns_fault.spec "patterns"))
        → reclassify_for_spec net dns_fault (1 ∷ []) ("cluster.local" ∷ []) ≡ tier_external)
reclassify_dns_exact_example =
    reclassify_dns_exact net dns_fault (1 ∷ []) ("cluster.local" ∷ []) refl refl dns_is_inside

abbrev gate : HealthGate
gate = record {
  baselines =
      some
        (λ ns. some (record { kind = "Deployment"; name = "web"; desired_replicas = pos 2 } ∷ []));
  topology =
      some (λ ns. some (some (record { pod_status = ("web", true ∷ false ∷ true ∷ []) ∷ [] })));
  active = some (λ ns. some []);
}

gate_test : check gate "shop" ≡ none
unfolding check
gate_test = refl

abbrev web_pods : Snapshot
web_pods = record { pod_status = ("web", true ∷ false ∷ true ∷ []) ∷ [] }

few_pods : (w : String) → count_ready (pods_of (some web_pods) w) < 2147483648
unfolding pods_of count_ready
few_pods w = ground arith

gate-Countable : Countable gate "shop"
unfolding Countable
gate-Countable topology snap w p q =
    let seen : some web_pods ≡ snap =
      some_inj (ap (λ (o : Option (String → Option (Option Snapshot))). seen_by o) p ∙ q) in
    subst (λ x. count_ready (pods_of x w) < 2147483648) seen (few_pods w)
  where
    seen_by : Option (String → Option (Option Snapshot)) → Option (Option Snapshot)
    seen_by none = none
    seen_by (some f) = f "shop"

    some_inj : {a b : Option Snapshot} → some a ≡ some b → a ≡ b
    some_inj e = cc

check-Healthy_example :
    (check gate "shop" ≡ none → Healthy gate "shop")
    × (Healthy gate "shop" → check gate "shop" ≡ none)
check-Healthy_example = check-Healthy gate "shop" gate-Countable
