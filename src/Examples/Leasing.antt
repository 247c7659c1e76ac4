-- ===== src/Examples/Leasing.antt =====
-- One lease, swept, adopted and listed (pkg/lease), and the marks of its object (pkg/simian).
use simian_agent.Lease.Registry.{get, expired}
use simian_agent.Prelude.{
  length, keep, String, refl, none, some, map, [], ◌+◌, ◌≡◌, ◌≢◌, ◌∷◌, ◌++◌, if◌then◌else◌,
}
use simian_agent.Lease.Adopt.Held.{adopt_live_extends}
use simian_agent.Lease.Reaper.Sweeping.{sweep_told, get-sweep, after_sweep}
use simian_agent.Simian.Targets.Marks.{object_acts-marks}
use simian_agent.Simian.Text.{is_comma, AllCommaFree}
use simian_agent.Simian.Types.{ActiveFault}
use simian_agent.Lease.Reaper.{
  sweep_orphans, clear_failed, lease_expired, is_cleared, Reaper, sweep,
}
use simian_agent.Lease.Adopt.{adopt_live}
use simian_agent.Examples.Data.{one_lease-Keyed, empty_registry, one_lease, pod_kill, lease_driver}
use simian_agent.Simian.Targets.{
  targets_namespace, target_namespace_marks, object_acts_on_namespace, target_namespaces,
}

abbrev reaper : Reaper
reaper = record {
  drivers = some (("chaos-mesh", lease_driver) ∷ []);
  driver = none;
  namespaces = none;
}

get-sweep_example :
    get (sweep reaper one_lease 2000).registry "f-1" ≡ after_sweep reaper 2000 (get one_lease "f-1")
get-sweep_example = get-sweep reaper one_lease 2000 "f-1" one_lease-Keyed

sweep_told_example :
    ((sweep reaper one_lease 2000).events
      ≡ map
          (λ af. if is_cleared reaper af then lease_expired af else clear_failed af)
          (expired one_lease 2000)
        ++ sweep_orphans reaper 2000)
    × ((sweep reaper one_lease 2000).on_expire ≡ keep (is_cleared reaper) (expired one_lease 2000))
sweep_told_example = sweep_told reaper one_lease 2000

adopt_live_extends_example :
    let t = adopt_live empty_registry (("chaos-mesh", lease_driver) ∷ []) ("shop" ∷ []) 2000 in
    ((k : String) (af : ActiveFault) → get empty_registry k ≡ some af → get t.registry k ≡ some af)
    × (length t.registry.items ≡ length empty_registry.items + t.adopted)
    × (t.registry.holder ≡ empty_registry.holder)
    × (get empty_registry "" ≡ none → get t.registry "" ≡ none)
adopt_live_extends_example =
    adopt_live_extends empty_registry (("chaos-mesh", lease_driver) ∷ []) ("shop" ∷ []) 2000

targets_shop : target_namespaces pod_kill ≡ "shop" ∷ []
unfolding target_namespaces
targets_shop = refl

targets_some : target_namespaces pod_kill ≢ []
unfolding target_namespaces
targets_some e = cc

comma_free : AllCommaFree (target_namespaces pod_kill)
unfolding target_namespaces is_comma
comma_free = ((refl, (refl, (refl, (refl, tt)))), tt)

object_acts-marks_example :
    object_acts_on_namespace
      (target_namespace_marks pod_kill).0
      (target_namespace_marks pod_kill).1
      "shop"
    ≡ targets_namespace pod_kill "shop"
object_acts-marks_example = object_acts-marks pod_kill "shop" (λ e. cc) targets_some comma_free
