-- ===== src/Lease/Reaper.antt =====
-- pkg/lease/registry.go, the reaper: one sweep clears what has expired, then asks the drivers for
-- faults that an earlier process left behind.
pub mod Sweeping
use simian_agent.Prelude.{
  sort_by, ℕ, String, Bool, false, Option, none, some, List, [], ◌∷◌, ◌++◌, if◌then◌else◌, nat_Eq,
  string_Eq,
}
use simian_agent.Prelude.Assoc.{lookup}
use simian_agent.Simian.Interfaces.{
  Answer, answered, failed, cancelled, Ended, ended_well, ended_failed, ended_cancelled,
  ChaosDriver,
}
use simian_agent.Simian.Text.{text_below}
use simian_agent.Simian.Types.{ActiveFault, Engine, AuditEvent}
use simian_agent.Lease.Registry.{Registry, expired, forget}

pub record Reaper : Type 0 where
  pub drivers : Option (List (Engine × ChaosDriver))
  pub driver : Option ChaosDriver
  pub namespaces : Option (Answer (List String))

driver_in : Option (List (Engine × ChaosDriver)) → Option ChaosDriver → Engine → Option ChaosDriver
unfolding lookup
driver_in (some ds) single e = lookup e ds
driver_in none single e = single

-- `none` is an error: the engine is not registered, or no driver is configured at all.
unfoldable pub driver_for : Reaper → ActiveFault → Option ChaosDriver
unfolding driver_in
driver_for rp af = driver_in rp.drivers rp.driver af.manifest.engine

abbrev pub lease_event : String → String → String → AuditEvent
lease_event kind uid reason = record {
  event = kind;
  fault_uid = uid;
  plan_id = "";
  mode = "";
  reason = reason;
}

abbrev pub clear_failed : ActiveFault → AuditEvent
clear_failed af = lease_event "lease.cleared" af.fault_uid "driver-clear-failed"

abbrev pub lease_expired : ActiveFault → AuditEvent
lease_expired af = lease_event "lease.expired" af.fault_uid "deadline-reached"

-- The registry, the audit events in order, and the faults handed to OnExpire.
pub record Swept : Type 0 where
  pub registry : Registry
  pub events : List AuditEvent
  pub on_expire : List ActiveFault

-- Whether the fault's driver takes it out.
unfoldable pub is_cleared : Reaper → ActiveFault → Bool
unfolding driver_for
is_cleared rp af = elim (driver_for rp af) [ none ↦ false | some d ↦ d.clears af.engine_uid ]

-- `_ = Forget(uid)`: the error is dropped.
unfoldable pub forget_quietly : Registry → String → Registry
unfolding forget
forget_quietly r uid = elim (forget r uid) [ none ↦ r | some s ↦ s ]

sweep_one : Reaper → Swept → ActiveFault → Swept
unfolding is_cleared forget_quietly
sweep_one rp s af =
    if is_cleared rp af
    then record {
      registry = forget_quietly s.registry af.fault_uid;
      events = s.events ++ lease_expired af ∷ [];
      on_expire = s.on_expire ++ af ∷ [];
    }
    else record s { events = s.events ++ clear_failed af ∷ [] }

sweep_all : Reaper → Swept → List ActiveFault → Swept
unfolding sweep_one
sweep_all rp s [] = s
sweep_all rp s (af ∷ afs) = sweep_all rp (sweep_one rp s af) afs

pub record OrphanCapable : Type 0 where
  pub engine : Engine
  pub reaper : List String → ℕ → List String × Ended

orphan_half : Option ChaosDriver → List OrphanCapable
orphan_half none = []
orphan_half (some d) = elim d.reaper [
  | none ↦ []
  | some f ↦ record { engine = d.engine; reaper = f } ∷ []
]

orphan_halves : List (Engine × ChaosDriver) → List Engine → List OrphanCapable
unfolding orphan_half lookup
orphan_halves ds [] = []
orphan_halves ds (e ∷ es) = orphan_half (lookup e ds) ++ orphan_halves ds es

abbrev pub engines_of : List (Engine × ChaosDriver) → List Engine
engines_of [] = []
engines_of ((e, d) ∷ ds) = e ∷ engines_of ds

reapers_in : Option (List (Engine × ChaosDriver)) → Option ChaosDriver → List OrphanCapable
unfolding orphan_halves sort_by
reapers_in (some ds) single = orphan_halves ds (sort_by text_below (engines_of ds))
reapers_in none single = orphan_half single

pub orphan_reapers : Reaper → List OrphanCapable
unfolding reapers_in
orphan_reapers rp = reapers_in rp.drivers rp.driver

reaped_events : List String → List AuditEvent
reaped_events [] = []
reaped_events (uid ∷ uids) = lease_event "lease.expired" "" "orphan-reaped" ∷ reaped_events uids

after_reap : Ended → List AuditEvent → List AuditEvent
after_reap ended_cancelled rest = []
after_reap ended_failed rest = lease_event "lease.cleared" "" "orphan-reap-failed" ∷ rest
after_reap ended_well rest = rest

-- A sweep that is cut short stops at that engine.
reap_each : List String → ℕ → List OrphanCapable → List AuditEvent
unfolding reaped_events after_reap
reap_each nss now [] = []
reap_each nss now (d ∷ ds) =
    let rest = reap_each nss now ds in
    let (cleared, outcome) = d.reaper nss now in reaped_events cleared ++ after_reap outcome rest

reap_in : Answer (List String) → ℕ → List OrphanCapable → List AuditEvent
unfolding reap_each
reap_in cancelled now ds = []
reap_in failed now ds = lease_event "lease.cleared" "" "orphan-namespaces-failed" ∷ []
reap_in (answered []) now ds = []
reap_in (answered (n ∷ ns)) now ds = reap_each (n ∷ ns) now ds

-- The audit events of the orphan scan; it leaves the registry alone.
pub sweep_orphans : Reaper → ℕ → List AuditEvent
unfolding reap_in orphan_reapers
sweep_orphans rp now = elim rp.namespaces [
  | none ↦ []
  | some nss ↦ reap_in nss now (orphan_reapers rp)
]

pub sweep : Reaper → Registry → ℕ → Swept
unfolding sweep_all expired
sweep rp r now =
    let s = sweep_all rp (record { registry = r; events = []; on_expire = [] }) (expired r now) in
    record s { events = s.events ++ sweep_orphans rp now }
