-- ===== src/Loop/Health.antt =====
-- pkg/loop/health.go: whether a cycle may run in a namespace. A dependency that is not configured is
-- `none`, and so is a lookup that fails. An int32 keeps its wrap-around.
pub mod Healthy
use simian_agent.Prelude.{
  length, ℤ, pos, negsuc, ltb_ℤ, ℕ, suc, String, Bool, Option, none, some, List, ltb, [], ◌-◌, ◌%◌,
  ◌∷◌, if◌then◌else◌, nat_Eq, string_Eq,
}
use simian_agent.Simian.Types.{ActiveFault}
use simian_agent.Prelude.Assoc.{lookup}

pub record WorkloadStatus : Type 0 where
  pub kind : String
  pub name : String
  pub desired_replicas : ℤ

-- The ready flags of the pods of each workload.
pub record Snapshot : Type 0 where
  pub pod_status : List (String × List Bool)

-- `active` answers the faults that are active in a namespace, or an error; `topology` a snapshot that
-- may be nil, or an error.
pub record HealthGate : Type 0 where
  pub baselines : Option (String → Option (List WorkloadStatus))
  pub topology : Option (String → Option (Option Snapshot))
  pub active : Option (String → Option (List ActiveFault))

pub data HealthError : Type 0 where
  not_configured no_baseline listing_failed : HealthError
  still_active : ℕ → HealthError
  snapshot_failed : HealthError
  not_ready : String → HealthError

unfoldable pub count_ready : List Bool → ℕ
count_ready [] = 0
count_ready (r ∷ rs) = let rest = count_ready rs in if r then suc rest else rest

-- The int32 that counting to `n` ends at.
unfoldable pub int32_of : ℕ → ℤ
int32_of n = let k = n % 4294967296 in if ltb k 2147483648 then pos k else negsuc (4294967295 - k)

unfoldable pub pods_of : Option Snapshot → String → List Bool
unfolding lookup
pods_of none workload = []
pods_of (some snap) workload = elim (lookup workload snap.pod_status) [
  | none ↦ []
  | some pods ↦ pods
]

unfoldable pub ready_pods_for : Option Snapshot → String → ℤ
unfolding count_ready int32_of pods_of
ready_pods_for snap workload = int32_of (count_ready (pods_of snap workload))

unfoldable pub check_workloads : Option Snapshot → List WorkloadStatus → Option HealthError
unfolding ready_pods_for
check_workloads snap [] = none
check_workloads snap (w ∷ ws) =
    let rest = check_workloads snap ws in
    if ltb_ℤ (ready_pods_for snap w.name) w.desired_replicas then some (not_ready w.name) else rest

unfoldable pub after_snapshot : List WorkloadStatus → Option (Option Snapshot) → Option HealthError
unfolding check_workloads
after_snapshot ws none = some snapshot_failed
after_snapshot ws (some snap) = check_workloads snap ws

unfoldable pub after_active :
    List WorkloadStatus → Option (Option Snapshot) → Option (List ActiveFault) → Option HealthError
unfolding after_snapshot
after_active ws snap none = some listing_failed
after_active ws snap (some []) = after_snapshot ws snap
after_active ws snap (some (af ∷ afs)) = some (still_active (length (af ∷ afs)))

unfoldable pub after_baseline :
    Option (List WorkloadStatus)
    → Option (Option Snapshot)
    → Option (List ActiveFault)
    → Option HealthError
unfolding after_active
after_baseline none snap active = some no_baseline
after_baseline (some ws) snap active = after_active ws snap active

unfoldable pub check_with :
    Option (String → Option (List WorkloadStatus))
    → Option (String → Option (Option Snapshot))
    → Option (String → Option (List ActiveFault))
    → String
    → Option HealthError
unfolding after_baseline
check_with (some baselines) (some topology) (some active) ns =
    after_baseline (baselines ns) (topology ns) (active ns)
check_with _ _ _ ns = some not_configured

-- `none` lets the cycle run.
unfoldable pub check : HealthGate → String → Option HealthError
unfolding check_with
check g ns = check_with g.baselines g.topology g.active ns
