-- ===== src/Simian/Interfaces.antt =====
-- pkg/simian/interfaces.go: an engine's driver, as the lease package uses it. The drivers are behind
-- an interface, so a driver is a record of its answers during the call that is modelled.
use simian_agent.Prelude.{ℕ, String, Bool, Option, List}
use simian_agent.Simian.Types.{ActiveFault, Engine}

-- What a call that can fail, or be cut short by a shutdown (ctx.Err() != nil), answers.
pub data Answer {ℓ} (A : Type ℓ) : Type ℓ where
  answered : A → Answer A
  failed : Answer A
  cancelled : Answer A

-- How ReapExpired ended; what it cleared comes with either outcome.
pub data Ended : Type 0 where
  ended_well ended_failed ended_cancelled : Ended

-- What ListLive returns: the faults, and whether there was an error beside them.
pub record Live : Type 0 where
  pub faults : List ActiveFault
  pub list_failed : Bool

-- `clears uid` is whether Clear returns no error. `reaper` is the driver's OrphanReaper half and
-- `lister` its LiveFaultLister half, if it has them.
pub record ChaosDriver : Type 0 where
  pub engine : Engine
  pub clears : String → Bool
  pub reaper : Option (List String → ℕ → List String × Ended)
  pub lister : Option (List String → ℕ → Live)
