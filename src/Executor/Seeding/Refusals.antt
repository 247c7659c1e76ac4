-- ===== src/Executor/Seeding/Refusals.antt =====
-- Which refusals a restarted controller puts back, and in what order.
use simian_agent.Prelude.{
  subst, keep, In, In-keep, In-keep_of, In-sort_by, InOrder, sort_by-InOrder, ℕ, refl, sym, ap, inl,
  inr, true, false, Option, none, some, List, arith, [], ◌≡◌, ◌∙◌, ◌↔◌, ◌⊎◌, ◌∷◌,
}
use simian_agent.Audit.Closing.{requested_manifest}
use simian_agent.Simian.Types.{FaultManifest}
use simian_agent.Executor.History.{RefusedFault}
use simian_agent.Audit.Faults.{FaultRow}
use simian_agent.Audit.Records.{Reading}
use simian_agent.Executor.Seeding.{
  is_refusal_since, refusal_of, refusals_from_audit, add_refusal, refused_earlier, refusals_in,
}

refused_earlier-total :
    (x y : RefusedFault) → refused_earlier x y ≡ false → refused_earlier y x ≡ true
unfolding refused_earlier
refused_earlier-total x y h = ground arith

module _ (rd : Reading) where
  -- The row makes the refusal.
  pub record MadeOf (r : FaultRow) (rf : RefusedFault) : Type 0 where
    pub asked : requested_manifest rd r ≡ some rf.manifest
    pub made : refusal_of rd r rf.manifest ≡ rf

  add_refusal-In :
      (r : FaultRow) (o : Option FaultManifest) (rest : List RefusedFault) (rf : RefusedFault)
      → requested_manifest rd r ≡ o
      → In rf (add_refusal rd r o rest) ↔ (MadeOf r rf ⊎ In rf rest)
  unfolding add_refusal refusal_of
  add_refusal-In r none rest rf e = (inr, only)
    where
      only : MadeOf r rf ⊎ In rf rest → In rf rest
      only (inl m) = let q = m.asked in absurd (cc)
      only (inr i) = i
  add_refusal-In r (some m) rest rf e = (into, back)
    where
      into : In rf (add_refusal rd r (some m) rest) → MadeOf r rf ⊎ In rf rest
      into (inl p) =
          let q : m ≡ rf.manifest = ap (λ (x : RefusedFault). x.manifest) (sym p) in
          inl
            (record { asked = e ∙ ap some q; made = subst (λ x. refusal_of rd r x ≡ rf) q (sym p) })
      into (inr i) = inr i

      back : MadeOf r rf ⊎ In rf rest → In rf (add_refusal rd r (some m) rest)
      back (inl k) =
          let asked = k.asked in
          let q : rf.manifest ≡ m = cc (e, asked) in
          inl (sym (subst (λ x. refusal_of rd r x ≡ rf) q k.made))
      back (inr i) = inr i

  refusals_in-In :
      (rows : List FaultRow) (rf : RefusedFault)
      → In rf (refusals_in rd rows) ↔ ((r : FaultRow) × In r rows × MadeOf r rf)
  unfolding refusals_in
  refusals_in-In [] rf = (λ i. absurd i, λ (r, i, m). absurd i)
  refusals_in-In (r ∷ rows) rf =
      let (down, up) = refusals_in-In rows rf in
      let here = add_refusal-In r (requested_manifest rd r) (refusals_in rd rows) rf refl in
      (λ i. first down (here.0 i), λ (s, i, m). here.1 (last up s i m))
    where
      first :
          (In rf (refusals_in rd rows) → (s : FaultRow) × In s rows × MadeOf s rf)
          → MadeOf r rf ⊎ In rf (refusals_in rd rows)
          → (s : FaultRow) × In s (r ∷ rows) × MadeOf s rf
      first down (inl m) = (r, inl refl, m)
      first down (inr i) = let (s, j, m) = down i in (s, inr j, m)

      last :
          ((s : FaultRow) × In s rows × MadeOf s rf → In rf (refusals_in rd rows))
          → (s : FaultRow) → In s (r ∷ rows)
          → MadeOf s rf
          → MadeOf r rf ⊎ In rf (refusals_in rd rows)
      last up s (inl p) m = inl (subst (λ x. MadeOf x rf) p m)
      last up s (inr i) m = inr (up (s, i, m))

  pub InOrder-from_audit :
      (rows : List FaultRow) (since : ℕ)
      → InOrder refused_earlier (refusals_from_audit rd rows since)
  unfolding refusals_from_audit
  InOrder-from_audit rows since =
      sort_by-InOrder refused_earlier refused_earlier-total
        (refusals_in rd (keep (is_refusal_since since) rows))

  -- RefusalsFromAudit puts back a refusal for exactly the rows that tell of one in the time asked for,
  -- under the manifest as it was submitted, and in the order of their times.
  pub refusals_from_audit_exact :
      (rows : List FaultRow) (since : ℕ) (rf : RefusedFault)
      → (In rf (refusals_from_audit rd rows since)
          ↔ ((r : FaultRow) × In r rows × (is_refusal_since since r ≡ true) × MadeOf r rf))
        × InOrder refused_earlier (refusals_from_audit rd rows since)
  unfolding refusals_from_audit
  refusals_from_audit_exact rows since rf = (
    (
      λ i.
          let (r, j, m) = (refusals_in-In _ rf).0 ((In-sort_by refused_earlier rf _).0 i) in
          let (k, y) = In-keep (is_refusal_since since) r rows j in (r, k, y, m),
      λ (r, k, y, m).
          (In-sort_by refused_earlier rf _).1
            ((refusals_in-In _ rf).1 (r, In-keep_of (is_refusal_since since) r rows k y, m)),
    ),
    InOrder-from_audit rows since,
  )
