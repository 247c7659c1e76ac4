-- ===== src/Lease/Adopt.antt =====
-- pkg/lease/adopt.go: at start-up, take over what the drivers find running in the cluster.
pub mod Held
use simian_agent.Prelude.{
  sort_by, pos, leb_ℤ, ℕ, suc, String, Bool, true, false, not, Option, none, some, List, ltb, [],
  ◌-◌, ◌&&◌, ◌||◌, ◌∷◌, ◌++◌, ◌==◌, if◌then◌else◌, nat_Eq, string_Eq,
}
use simian_agent.Prelude.Assoc.{lookup}
use simian_agent.Simian.Interfaces.{Live, ChaosDriver}
use simian_agent.Simian.Text.{text_below}
use simian_agent.Simian.Types.{ActiveFault, Engine, AuditEvent}
use simian_agent.Lease.Registry.{Registry, get, adopt}
use simian_agent.Lease.Reaper.{lease_event, engines_of}

pub record Adopted : Type 0 where
  pub registry : Registry
  pub adopted : ℕ
  pub events : List AuditEvent

-- An object records its deadline, not the duration that was asked for.
unfoldable pub with_duration : ActiveFault → ActiveFault
with_duration af =
    if leb_ℤ af.manifest.duration (pos 0)
      && not (af.applied_at == 0)
      && ltb af.applied_at af.deadline
    then record af {
      manifest = record (af.manifest) { duration = pos (af.deadline - af.applied_at) };
    }
    else af

is_held : Option ActiveFault → Bool
is_held none = false
is_held (some af) = true

adopt_one : ℕ → Adopted → ActiveFault → Adopted
unfolding is_held get
adopt_one now s af =
    if is_held (get s.registry af.fault_uid) || af.fault_uid == "" then s else record {
      registry = adopt s.registry now (with_duration af);
      adopted = suc s.adopted;
      events = s.events ++ lease_event "lease.adopted" af.fault_uid "untracked-after-restart" ∷ [];
    }

adopt_all : ℕ → Adopted → List ActiveFault → Adopted
unfolding adopt_one
adopt_all now s [] = s
adopt_all now s (af ∷ afs) = adopt_all now (adopt_one now s af) afs

-- A driver that fails to list is audited, and what it listed is adopted all the same.
adopt_from : ℕ → Adopted → Live → Adopted
unfolding adopt_all
adopt_from now s live =
    adopt_all now
      (if live.list_failed
        then record s {
          events = s.events ++ lease_event "lease.cleared" "" "adopt-live-failed" ∷ [];
        }
        else s)
      live.faults

adopt_driver : List String → ℕ → Adopted → Option ChaosDriver → Adopted
unfolding adopt_from
adopt_driver nss now s none = s
adopt_driver nss now s (some d) = elim d.lister [
  | none ↦ s
  | some list ↦ adopt_from now s (list nss now)
]

adopt_engines : List (Engine × ChaosDriver) → List String → ℕ → Adopted → List Engine → Adopted
unfolding adopt_driver lookup
adopt_engines ds nss now s [] = s
adopt_engines ds nss now s (e ∷ es) =
    adopt_engines ds nss now (adopt_driver nss now s (lookup e ds)) es

pub adopt_live : Registry → List (Engine × ChaosDriver) → List String → ℕ → Adopted
unfolding adopt_engines sort_by
adopt_live r ds [] now = record { registry = r; adopted = 0; events = [] }
adopt_live r ds (n ∷ ns) now =
    adopt_engines ds (n ∷ ns) now (record { registry = r; adopted = 0; events = [] })
      (sort_by text_below (engines_of ds))
