-- ===== src/Lease/Reaper/Sweeping.antt =====
-- What a sweep leaves in the registry, and what it tells the audit trail.
use mathlib.Core.List.{append-nil, append_assoc}
use simian_agent.Prelude.{
  subst, keep, In, ℕ, String, refl, sym, ap, inl, inr, Bool, true, false, Option, none, some, List,
  map, arith, string_Eq, Bool-cases, Option-cases, ==_refl, [], ◌<◌, ◌≡◌, ◌∙◌, ◌⊎◌, ◌&&◌, ◌||◌, ◌∷◌,
  ◌++◌, ◌==◌, if◌then◌else◌, nat_Eq,
}
use simian_agent.Lease.Registry.Listing.{expired_exact}
use simian_agent.Lease.Registry.Keyed.{lookup-own_key, Keyed}
use simian_agent.Prelude.Assoc.{lookup-delete}
use simian_agent.Simian.Types.{ActiveFault}
use simian_agent.Lease.Registry.{is_expired, Registry, get}
use simian_agent.Lease.Reaper.{
  sweep_orphans, clear_failed, lease_expired, AuditEvent, expired, sweep, Reaper, Swept, is_cleared,
  forget_quietly, sweep_one, sweep_all,
}

get-forget_quietly :
    (r : Registry) (uid k : String)
    → get (forget_quietly r uid) k ≡ (if uid == k then none else get r k)
unfolding get forget_quietly
get-forget_quietly r uid k = ground (arith, lookup-delete uid k r.items, string_Eq.beq_iff uid k)

-- Whether the sweep takes out the fault held under the key.
takes : Reaper → List ActiveFault → String → Bool
takes rp [] k = false
takes rp (af ∷ afs) k = (is_cleared rp af && af.fault_uid == k) || takes rp afs k

get-sweep_all :
    (rp : Reaper) (s : Swept) (afs : List ActiveFault) (k : String)
    → get (sweep_all rp s afs).registry k ≡ (if takes rp afs k then none else get s.registry k)
unfolding sweep_all takes
get-sweep_all rp s [] k = refl
get-sweep_all rp s (af ∷ afs) k = elim (Bool-cases (is_cleared rp af)) [
  | inl t ↦
      get-sweep_all rp (sweep_one rp s af) afs k
      ∙ unfold sweep_one in rw t (ground (arith, get-forget_quietly s.registry af.fault_uid k))
  | inr f ↦ get-sweep_all rp (sweep_one rp s af) afs k ∙ unfold sweep_one in rw f refl
]

takes-In :
    (rp : Reaper) (afs : List ActiveFault) (k : String)
    → takes rp afs k ≡ true
    → (af : ActiveFault) × In af afs × (is_cleared rp af ≡ true) × (af.fault_uid ≡ k)
unfolding takes
takes-In rp [] k t = absurd (cc)
takes-In rp (af ∷ afs) k t = elim (Bool-cases (is_cleared rp af && af.fault_uid == k)) [
  | inl u ↦ (af, inl refl, ground arith, ground (arith, string_Eq.beq_iff af.fault_uid k))
  | inr f ↦ let (x, i, c, e) = takes-In rp afs k (rw f at t) in (x, inr i, c, e)
]

takes_of_In :
    (rp : Reaper) (afs : List ActiveFault) (af : ActiveFault)
    → In af afs
    → is_cleared rp af ≡ true
    → takes rp afs af.fault_uid ≡ true
unfolding takes
takes_of_In rp [] af i c = absurd i
takes_of_In rp (x ∷ afs) af (inl e) c = rw (← e, c, ==_refl af.fault_uid) refl
takes_of_In rp (x ∷ afs) af (inr i) c = ground (arith, takes_of_In rp afs af i c)

get-own_key :
    (r : Registry) (k : String) (af : ActiveFault) → Keyed r → get r k ≡ some af → af.fault_uid ≡ k
unfolding get
get-own_key r k af h e = lookup-own_key k af r.items h.own_keys e

abbrev pub after_sweep : Reaper → ℕ → Option ActiveFault → Option ActiveFault
after_sweep rp now none = none
after_sweep rp now (some af) = if is_expired now af && is_cleared rp af then none else some af

-- After a sweep the registry holds, under each identifier, what it held before, less the faults
-- whose deadline has passed and whose driver took them out. A fault that is not due, or whose
-- driver is missing or fails, keeps its lease.
pub get-sweep :
    (rp : Reaper) (r : Registry) (now : ℕ) (k : String)
    → Keyed r
    → get (sweep rp r now).registry k ≡ after_sweep rp now (get r k)
unfolding sweep
get-sweep rp r now k h =
    get-sweep_all rp _ (expired r now) k ∙ pick (Bool-cases (takes rp (expired r now) k))
  where
    due : (af : ActiveFault) → In af (expired r now) → is_expired now af ≡ true
    due af i = let (found, set, past) = (expired_exact r now af h).0 i in ground arith

    kept :
        (af : ActiveFault)
        → takes rp (expired r now) k ≡ false
        → get r k ≡ some af
        → af.fault_uid ≡ k
        → (is_expired now af && is_cleared rp af) ≡ false
    kept af f found own = elim (Bool-cases (is_expired now af && is_cleared rp af)) [
      | inl t ↦
          let held : get r af.fault_uid ≡ some af =
            subst (λ x. get r x ≡ some af) (sym own) found in
          let set : 0 < af.deadline = ground arith in
          let past : af.deadline < now = ground arith in
          let c : is_cleared rp af ≡ true = ground arith in
          let taken =
            takes_of_In rp (expired r now) af ((expired_exact r now af h).1 (held, set, past)) c in
          ground (arith)
      | inr g ↦ g
    ]

    pick :
        (takes rp (expired r now) k ≡ true) ⊎ (takes rp (expired r now) k ≡ false)
        → (if takes rp (expired r now) k then none else get r k) ≡ after_sweep rp now (get r k)
    pick (inl t) =
        let (af, i, c, e) = takes-In rp (expired r now) k t in
        let found : get r k ≡ some af =
          subst (λ x. get r x ≡ some af) e ((expired_exact r now af h).0 i).0 in
        rw (t, found, due af i, c) refl
    pick (inr f) = elim (Option-cases (get r k)) [
      | inl missing ↦ rw (f, missing) refl
      | inr (af, found) ↦ rw (f, found, kept af f found (get-own_key r k af h found)) refl
    ]

tell : Reaper → ActiveFault → AuditEvent
tell rp af = if is_cleared rp af then lease_expired af else clear_failed af

told :
    (rp : Reaper) (s : Swept) (afs : List ActiveFault)
    → ((sweep_all rp s afs).events ≡ s.events ++ map (tell rp) afs)
      × ((sweep_all rp s afs).on_expire ≡ s.on_expire ++ keep (is_cleared rp) afs)
unfolding sweep_all tell
told rp s [] = (sym (append-nil s.events), sym (append-nil s.on_expire))
told rp s (af ∷ afs) = elim (Bool-cases (is_cleared rp af)) [
  | inl t ↦
      let (e, o) = told rp (sweep_one rp s af) afs in
      (
        e ∙ unfold sweep_one in rw t (append_assoc s.events (lease_expired af ∷ []) _),
        o ∙ unfold sweep_one in rw t (append_assoc s.on_expire (af ∷ []) _),
      )
  | inr f ↦
      let (e, o) = told rp (sweep_one rp s af) afs in
      (
        e ∙ unfold sweep_one in rw f (append_assoc s.events (clear_failed af ∷ []) _),
        o ∙ unfold sweep_one in rw f refl,
      )
]

-- A sweep writes one event for each due fault, in order, `lease.expired` if its driver took it out
-- and `lease.cleared` with the failure if not, and then the events of the orphan scan. OnExpire
-- runs for exactly the due faults that were taken out.
pub sweep_told :
    (rp : Reaper) (r : Registry) (now : ℕ)
    → ((sweep rp r now).events
        ≡ map (λ af. if is_cleared rp af then lease_expired af else clear_failed af) (expired r now)
          ++ sweep_orphans rp now)
      × ((sweep rp r now).on_expire ≡ keep (is_cleared rp) (expired r now))
unfolding sweep tell
sweep_told rp r now =
    let (e, o) = told rp (record { registry = r; events = []; on_expire = [] }) (expired r now) in
    (ap (λ (l : List AuditEvent). l ++ sweep_orphans rp now) e, o)
