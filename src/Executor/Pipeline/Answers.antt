-- ===== src/Executor/Pipeline/Answers.antt =====
-- What the answer of Apply in pkg/executor/executor.go says of the gates, the driver and the registry.
use simian_agent.Prelude.{subst, String, refl, sym, inl, inr, true, false, none, ◌≡◌, ◌⊎◌}
use simian_agent.Executor.Safety.{Outcome, refused, passed, Config}
use simian_agent.Executor.Host.{State, ApplyDriver, Host}
use simian_agent.Executor.Pipeline.{apply, named, forget_quietly, FaultManifest}
use simian_agent.Executor.Pipeline.Fates.{
  Fate, Took, leased, turned_away, accepted, backed_out, left_to_reaper,
}
use simian_agent.Executor.Pipeline.Settled.{Balanced, apply-Balanced}
use simian_agent.Executor.Pipeline.Admitting.{Admitted, prepared, apply-Admitted}
use simian_agent.Executor.Probing.{confirm_injected, settle}
use simian_agent.Catalog.Tiers.{Net}
use simian_agent.Lease.Registry.{Registry}

module _ {Ip : Type 0} {Cidr : Type 0} (net : Net Ip Cidr) (cfg : Config Cidr) (h : Host) where
  -- A driver took what the gates, all of them passed, made of the manifest.
  pub record Driven (n : FaultManifest) (d : ApplyDriver) (u : String) : Type 0 where
    pub admitted : Admitted net cfg h n
    pub took : Took h d (prepared net cfg h n) u

  pub record Confirmed (n : FaultManifest) (before after : Registry) : Type 0 where
    pub driver : ApplyDriver
    pub engine_uid : String
    pub driven : Driven n driver engine_uid
    pub injected : (confirm_injected driver (prepared net cfg h n) engine_uid).1 ≡ none
    pub settled : (settle h (prepared net cfg h n)).1 ≡ none
    pub lease : after ≡ leased h before (prepared net cfg h n) engine_uid

  -- The fault is gone and so is its lease, or it is there and so is its lease.
  pub record Undone (n : FaultManifest) (before after : Registry) : Type 0 where
    pub driver : ApplyDriver
    pub engine_uid : String
    pub driven : Driven n driver engine_uid
    pub cleared :
        driver.clears engine_uid ≡ true
        → after
          ≡ forget_quietly
              (leased h before (prepared net cfg h n) engine_uid)
              (prepared net cfg h n).uid
    pub stuck :
        driver.clears engine_uid ≡ false → after ≡ leased h before (prepared net cfg h n) engine_uid

  unfoldable pub Answered : FaultManifest → Registry → Registry → Outcome String → Type 0
  Answered n before after (passed uid) =
      (uid ≡ (prepared net cfg h n).uid) × Confirmed n before after
  Answered n before after (refused e) = (after ≡ before) ⊎ Undone n before after

  Fate-Answered :
      (n : FaultManifest) (before after : Registry) (o : Outcome String)
      → Admitted net cfg h n
      → Fate h before after (prepared net cfg h n) o
      → Answered n before after o
  unfolding Answered
  Fate-Answered n before after o gates (turned_away e p same) =
      subst (Answered n before after) (sym p) (inl same)
  Fate-Answered n before after o gates (accepted d u took injected settled p lease) =
      subst (Answered n before after) (sym p) (
        refl,
        record {
          driver = d;
          engine_uid = u;
          driven = record { admitted = gates; took = took };
          injected = injected;
          settled = settled;
          lease = lease;
        },
      )
  Fate-Answered n before after o gates (backed_out d u e took p gone lease) =
      subst (Answered n before after) (sym p) (
        inr (record {
          driver = d;
          engine_uid = u;
          driven = record { admitted = gates; took = took };
          cleared = λ c. lease;
          stuck = λ c. absurd (cc (gone, c));
        }))
  Fate-Answered n before after o gates (left_to_reaper d u e took p stays lease) =
      subst (Answered n before after) (sym p) (
        inr (record {
          driver = d;
          engine_uid = u;
          driven = record { admitted = gates; took = took };
          cleared = λ c. absurd (cc (stays, c));
          stuck = λ c. lease;
        }))

  -- If Apply answers a UID, it is the manifest's, the schema check, every safety gate and the pod
  -- narrowing had passed, a driver took what they made of the manifest, the fault was confirmed and
  -- settled, and the registry has its lease besides what it had. If Apply refuses, the registry is
  -- as it was; or, every gate having passed too, a driver had taken the fault: if it cleared it
  -- again, the lease is forgotten, and if not, the lease stays. On every end the counts of the
  -- applies in flight are as before.
  pub apply-Settled :
      (s : State) (m : FaultManifest)
      → let n = named net cfg h m in
        let (t, o) = apply net cfg h s m in
        Answered n s.books.registry t.books.registry o × Balanced s.books t.books
  unfolding Answered
  apply-Settled s m =
      let n = named net cfg h m in
      let t = (apply net cfg h s m).0 in
      (
        elim (apply-Admitted net cfg h s m) [
          | inl ((e, p), same) ↦
              subst (Answered n s.books.registry t.books.registry) (sym p) (inl same)
          | inr (gates, fate) ↦
              Fate-Answered n s.books.registry t.books.registry (apply net cfg h s m).1 gates fate
        ],
        apply-Balanced net cfg h s m,
      )
