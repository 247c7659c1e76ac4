-- ===== src/Executor/Recorded/Leases.antt =====
-- The lease that a restarted controller makes of what Apply recorded.
use simian_agent.Prelude.{
  keep, ℤ, ℕ, String, refl, sym, ap, true, false, some, List, arith, ltb, ◌<◌, ◌≡◌, ◌∙◌, ◌≢◌, ◌==◌,
  nat_Eq, string_Eq,
}
use text.Mathlib.TextEquality.{eq_iff}
use simian_agent.Simian.Types.{ActiveFault}
use simian_agent.Audit.Closing.{lease_of, manifest, running_lease, requested_manifest, active_fault}
use simian_agent.Executor.Recorded.Rebuilt.{Core, core}
use simian_agent.Audit.Faults.{FaultRow}
use simian_agent.Audit.Faults.Rows.{row_of, is_about}
use simian_agent.Audit.Records.{Reading, Record}
use simian_agent.Executor.Recorded.Calls.{
  core_after, core-Recorded, ReadsBack, kept, Call, IsCall, Recorded, manifest_from-described,
  validate_schema-parts,
}

module _ (rd : Reading) (duration_text : ℤ → String) (time_text : ℕ → String) (c : Call) where
  abbrev pub lease : ℕ → ActiveFault
  lease shown = record {
    fault_uid = c.given.uid;
    engine_uid = c.engine_uid;
    manifest = kept c.given;
    applied_at = c.applied_at;
    deadline = shown;
    holder = "";
    last_beat = 0;
  }

  core-active_fault :
      (row : FaultRow) (now shown : ℕ)
      → core row ≡ core_after rd duration_text time_text c
      → IsCall c
      → ReadsBack rd duration_text c.given
      → (c.engine_uid == "") ≡ false
      → 0 < c.applied_at
      → rd.parse_time (time_text c.deadline) ≡ some shown
      → now < shown
      → active_fault rd row now ≡ some (lease shown)
  unfolding active_fault running_lease manifest lease_of core_after
  core-active_fault row now shown e h back named since until ahead =
      let (some_target, some_kind, some_engine) = validate_schema-parts c.given h.given_valid in
      let applied_once : (c.applied_at == 0) ≡ false = ground (arith, since) in
      let still : ltb now shown ≡ true = ground (arith, ahead) in
      rw
        (
          ap (λ (x : Core). x.outcome) e,
          ap (λ (x : Core). x.applied_at) e,
          ap (λ (x : Core). x.engine_uid) e,
          ap (λ (x : Core). x.described) e,
          ap (λ (x : Core). x.deadline) e,
          ap (λ (x : Core). x.uid) e,
          ap (λ (x : Core). x.plan) e,
          ap (λ (x : Core). x.source) e,
          until,
          applied_once,
          named,
          some_engine,
          still,
          manifest_from-described rd duration_text c.given back h.given_valid refl refl refl,
        )
        refl

  core-requested :
      (row : FaultRow)
      → core row ≡ core_after rd duration_text time_text c
      → IsCall c
      → ReadsBack rd duration_text c.asked
      → requested_manifest rd row ≡ some (kept c.asked)
  unfolding requested_manifest core_after
  core-requested row e h back = rw (ap (λ (x : Core). x.requested) e) (
      manifest_from-described rd duration_text c.asked back h.asked_valid (sym h.uid)
        (ap (λ (x : Core). x.plan) e ∙ sym h.plan) (ap (λ (x : Core). x.source) e ∙ sym h.source))

  -- A fault whose records are those of a call of Apply (IsCall), with quiet ones between and
  -- after them, comes back from them, whatever records of other faults stand between: if the
  -- readers read its texts back, the engine's identifier and the time of the apply are not
  -- empty, and the deadline as it is read back is ahead, then a restarted controller makes the
  -- lease again from the row, with the same identifiers, and of the manifest that the driver was
  -- given what the trail keeps. What the trail keeps of the manifest that was asked for comes
  -- back too.
  pub active_fault-Recorded :
      (rs : List Record) (now shown : ℕ)
      → IsCall c
      → Recorded rd duration_text time_text c (keep (is_about c.given.uid) rs)
      → ReadsBack rd duration_text c.asked
      → ReadsBack rd duration_text c.given
      → c.engine_uid ≢ ""
      → 0 < c.applied_at
      → rd.parse_time (time_text c.deadline) ≡ some shown
      → now < shown
      → let row = row_of rd rs c.given.uid in
        (active_fault rd row now ≡ some (lease shown))
        × (requested_manifest rd row ≡ some (kept c.asked))
  active_fault-Recorded rs now shown h told asked_back given_back named since until ahead =
      let e = core-Recorded rd duration_text time_text c (keep (is_about c.given.uid) rs) h told in
      let row = row_of rd rs c.given.uid in
      (
        core-active_fault row now shown e h given_back
            (ground (arith, named, eq_iff c.engine_uid "")) since until ahead,
        core-requested row e h asked_back,
      )
