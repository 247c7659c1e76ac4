-- ===== src/Executor/Seeding.antt =====
-- pkg/executor/history.go: what a restarted controller puts back into its history, from the rows of the
-- audit trail, and the pushes of cmd/simian/serve.go that put it there.
pub mod Restored
pub mod Refusals
use simian_agent.Prelude.{
  keep, contains, sort_by, ℕ, String, Bool, true, false, not, Option, none, some, List, ltb, leb,
  [], ◌&&◌, ◌||◌, ◌∷◌, ◌==◌, if◌then◌else◌, nat_Eq, string_Eq,
}
use simian_agent.Simian.Types.{FaultManifest, RejectionReason, reason_text}
use simian_agent.Audit.Records.{Reading}
use simian_agent.Audit.Faults.{
  Outcome, FaultRow, refused, driver_failed, cleared, reason_untracked_after_restart,
}
use simian_agent.Audit.Closing.{is_open, manifest, requested_manifest}
use simian_agent.Executor.History.{RecentFault, RefusedFault, History, push, push_refused}

abbrev pub backed_out_reasons : List String
backed_out_reasons =
    "injection-failed" ∷ "probe-failed" ∷ "cannot-gate" ∷ "probe-not-configured" ∷ []

pub is_cleared : Outcome → Bool
is_cleared cleared = true
is_cleared _ = false

unfoldable pub backed_out : FaultRow → Bool
unfolding is_cleared
backed_out r = is_cleared r.outcome && contains backed_out_reasons r.reason

pub is_refused : Outcome → Bool
is_refused refused = true
is_refused driver_failed = true
is_refused _ = false

unfoldable pub is_refusal_since : ℕ → FaultRow → Bool
unfolding is_refused backed_out reason_text
is_refusal_since since r =
    (is_refused r.outcome || backed_out r)
    && not (r.reason == reason_text RejectionReason.budget_exceeded || ltb r.ended_at since)

unfoldable pub is_recent_since : ℕ → FaultRow → Bool
unfolding backed_out
is_recent_since since r = not (r.applied_at == 0 || ltb r.applied_at since || backed_out r)

unfoldable pub refused_earlier : RefusedFault → RefusedFault → Bool
refused_earlier a b = leb a.refused_at b.refused_at

unfoldable pub applied_earlier : RecentFault → RecentFault → Bool
applied_earlier a b = leb a.applied_at b.applied_at

unfoldable pub push_all_refused : History → List RefusedFault → History
unfolding push_refused
push_all_refused h [] = h
push_all_refused h (rf ∷ rfs) = push_all_refused (push_refused h rf) rfs

unfoldable pub push_all : History → List RecentFault → History
unfolding push
push_all h [] = h
push_all h (rf ∷ rfs) = push_all (push h rf) rfs

module _ (rd : Reading) where
  unfoldable pub refusal_of : FaultRow → FaultManifest → RefusedFault
  refusal_of r m = record {
    fault_uid = r.fault_uid;
    manifest = m;
    refused_at = r.ended_at;
    stage = none;
    reason = r.reason;
  }

  unfoldable pub add_refusal :
      FaultRow → Option FaultManifest → List RefusedFault → List RefusedFault
  unfolding refusal_of
  add_refusal r none rest = rest
  add_refusal r (some m) rest = refusal_of r m ∷ rest

  -- A manifest that the records do not have in full is passed over.
  unfoldable pub refusals_in : List FaultRow → List RefusedFault
  unfolding add_refusal requested_manifest
  refusals_in [] = []
  refusals_in (r ∷ rows) = add_refusal r (requested_manifest rd r) (refusals_in rows)

  unfoldable pub refusals_from_audit : List FaultRow → ℕ → List RefusedFault
  unfolding refusals_in is_refusal_since refused_earlier sort_by
  refusals_from_audit rows since =
      sort_by refused_earlier (refusals_in (keep (is_refusal_since since) rows))

  -- When a fault ended that the trail leaves open, and why: at its deadline, if that is not ahead.
  unfoldable pub ended_by : FaultRow → ℕ → Option ℕ → ℕ × String
  ended_by r now none = (0, "")
  ended_by r now (some d) = if not (ltb now d) then (d, reason_untracked_after_restart) else (0, "")

  unfoldable pub ending : FaultRow → ℕ → ℕ × String
  unfolding is_open ended_by
  ending r now =
      if not (is_open r.outcome)
      then (r.ended_at, r.reason)
      else ended_by r now (rd.parse_time r.deadline)

  unfoldable pub recent_of : ℕ → FaultRow → FaultManifest → RecentFault
  unfolding ending
  recent_of now r m = record {
    fault_uid = r.fault_uid;
    manifest = m;
    applied_at = r.applied_at;
    cleared_at = (ending r now).0;
    clear_reason = (ending r now).1;
  }

  unfoldable pub add_recent :
      ℕ → FaultRow → Option FaultManifest → List RecentFault → List RecentFault
  unfolding recent_of
  add_recent now r none rest = rest
  add_recent now r (some m) rest = recent_of now r m ∷ rest

  unfoldable pub recents_in : ℕ → List FaultRow → List RecentFault
  unfolding add_recent manifest
  recents_in now [] = []
  recents_in now (r ∷ rows) = add_recent now r (manifest rd r) (recents_in now rows)

  unfoldable pub recent_from_audit : List FaultRow → ℕ → ℕ → List RecentFault
  unfolding recents_in is_recent_since applied_earlier sort_by
  recent_from_audit rows since now =
      sort_by applied_earlier (recents_in now (keep (is_recent_since since) rows))

  -- The history of a restarted controller: what ran since `applied_since`, as of `now`, and what was
  -- refused since `refused_since`.
  unfoldable pub seeded : History → List FaultRow → ℕ → ℕ → ℕ → History
  unfolding push_all push_all_refused recent_from_audit refusals_from_audit
  seeded h rows applied_since now refused_since =
      push_all_refused (push_all h (recent_from_audit rows applied_since now))
        (refusals_from_audit rows refused_since)
