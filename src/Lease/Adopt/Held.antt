-- ===== src/Lease/Adopt/Held.antt =====
-- Adoption in pkg/lease/adopt.go, beside what the registry already holds.
use simian_agent.Prelude.{
  length, sort_by, ℕ, suc, String, refl, inl, inr, false, Option, none, some, List, arith,
  string_Eq, Bool-cases, Option-cases, [], ◌+◌, ◌≡◌, ◌∙◌, ◌∷◌, ◌==◌, nat_Eq,
}
use simian_agent.Prelude.Assoc.{length-insert_new, lookup-insert}
use simian_agent.Simian.Types.{ActiveFault}
use simian_agent.Lease.Registry.{Registry, get, adopt}
use simian_agent.Lease.Adopt.{
  AuditEvent, engines_of, lookup, text_below, Live, Engine, ChaosDriver, adopt_live, adopt_engines,
  adopt_from, adopt_all, adopt_one, adopt_driver, is_held, Adopted, with_duration,
}

-- What every stage of the adoption keeps, from the state `s` to the state `t`.
pub record Extends (s t : Adopted) : Type 0 where
  pub kept :
      (k : String) (af : ActiveFault) → get s.registry k ≡ some af → get t.registry k ≡ some af
  pub counted : length t.registry.items + s.adopted ≡ length s.registry.items + t.adopted
  pub same_holder : t.registry.holder ≡ s.registry.holder
  pub no_empty : get s.registry "" ≡ none → get t.registry "" ≡ none

Extends-refl : (s : Adopted) → Extends s s
Extends-refl s = record {
  kept = λ k af h. h;
  counted = refl;
  same_holder = refl;
  no_empty = λ h. h;
}

Extends-trans : (s t u : Adopted) → Extends s t → Extends t u → Extends s u
Extends-trans s t u p q = record {
  kept = λ k af h. q.kept k af (p.kept k af h);
  counted = omega (arith, p.counted, q.counted);
  same_holder = q.same_holder ∙ p.same_holder;
  no_empty = λ h. q.no_empty (p.no_empty h);
}

with_duration-uid : (af : ActiveFault) → (with_duration af).fault_uid ≡ af.fault_uid
unfolding with_duration
with_duration-uid af = ground arith

get-adopt :
    (r : Registry) (now : ℕ) (af : ActiveFault) (k : String) (x : ActiveFault)
    → get r af.fault_uid ≡ none
    → get r k ≡ some x
    → get (adopt r now (with_duration af)) k ≡ some x
unfolding get adopt
get-adopt r now af k x fresh found = ground (
  arith,
  with_duration-uid af,
  string_Eq.beq_iff af.fault_uid k,
  string_Eq.beq_iff (with_duration af).fault_uid k,
  lookup-insert (with_duration af).fault_uid k
      (record (with_duration af) { holder = r.holder; last_beat = now }) r.items,
)

module _ (now : ℕ) (s : Adopted) (af : ActiveFault)
    (fresh : get s.registry af.fault_uid ≡ none) where
  adopt-length :
      length (adopt s.registry now (with_duration af)).items ≡ suc (length s.registry.items)
  unfolding get adopt
  adopt-length =
      length-insert_new (with_duration af).fault_uid _ s.registry.items
        (rw (with_duration-uid af) fresh)

  adopt-no_empty :
      (af.fault_uid == "") ≡ false
      → get s.registry "" ≡ none
      → get (adopt s.registry now (with_duration af)) "" ≡ none
  unfolding get adopt
  adopt-no_empty named h = ground (
    arith,
    with_duration-uid af,
    string_Eq.beq_iff af.fault_uid "",
    string_Eq.beq_iff (with_duration af).fault_uid "",
    lookup-insert (with_duration af).fault_uid ""
        (record (with_duration af) { holder = s.registry.holder; last_beat = now })
        s.registry.items,
  )

  adopt-holder : (adopt s.registry now (with_duration af)).holder ≡ s.registry.holder
  unfolding adopt
  adopt-holder = refl

is_held-none : (o : Option ActiveFault) → is_held o ≡ false → o ≡ none
unfolding is_held
is_held-none none h = refl
is_held-none (some af) h = absurd (cc)

adopt_one-Extends : (now : ℕ) (s : Adopted) (af : ActiveFault) → Extends s (adopt_one now s af)
unfolding adopt_one
adopt_one-Extends now s af = elim (Bool-cases (is_held (get s.registry af.fault_uid))) [
  | inl held ↦ rw held (Extends-refl s)
  | inr free ↦
      let fresh = is_held-none (get s.registry af.fault_uid) free in
      elim (Bool-cases (af.fault_uid == "")) [
        | inl blank ↦ rw (free, blank) (Extends-refl s)
        | inr named ↦
            rw (free, named)
              (record {
                kept = λ k x found. get-adopt s.registry now af k x fresh found;
                counted = omega (arith, adopt-length now s af fresh);
                same_holder = adopt-holder now s af fresh;
                no_empty = λ h. adopt-no_empty now s af fresh named h;
              })
      ]
]

adopt_all-Extends :
    (now : ℕ) (s : Adopted) (afs : List ActiveFault) → Extends s (adopt_all now s afs)
unfolding adopt_all
adopt_all-Extends now s [] = Extends-refl s
adopt_all-Extends now s (af ∷ afs) =
    Extends-trans s (adopt_one now s af) _ (adopt_one-Extends now s af)
      (adopt_all-Extends now (adopt_one now s af) afs)

adopt_from-Extends : (now : ℕ) (s : Adopted) (live : Live) → Extends s (adopt_from now s live)
unfolding adopt_from
adopt_from-Extends now s live = elim (Bool-cases live.list_failed) [
  | inl t ↦ rw t (after_event _ (adopt_all-Extends now _ live.faults))
  | inr f ↦ rw f (adopt_all-Extends now s live.faults)
]
  where
    after_event :
        (l : List AuditEvent) {t : Adopted} → Extends (record s { events = l }) t → Extends s t
    after_event l x = record {
      kept = x.kept;
      counted = x.counted;
      same_holder = x.same_holder;
      no_empty = x.no_empty;
    }

adopt_driver-Extends :
    (nss : List String) (now : ℕ) (s : Adopted) (d : Option ChaosDriver)
    → Extends s (adopt_driver nss now s d)
unfolding adopt_driver
adopt_driver-Extends nss now s none = Extends-refl s
adopt_driver-Extends nss now s (some d) = elim (Option-cases d.lister) [
  | inl without ↦ rw without (Extends-refl s)
  | inr (list, with_lister) ↦ rw with_lister (adopt_from-Extends now s (list nss now))
]

adopt_engines-Extends :
    (ds : List (Engine × ChaosDriver)) (nss : List String) (now : ℕ) (s : Adopted)
    (es : List Engine)
    → Extends s (adopt_engines ds nss now s es)
unfolding adopt_engines
adopt_engines-Extends ds nss now s [] = Extends-refl s
adopt_engines-Extends ds nss now s (e ∷ es) =
    Extends-trans s _ _ (adopt_driver-Extends nss now s (lookup e ds))
      (adopt_engines-Extends ds nss now (adopt_driver nss now s (lookup e ds)) es)

-- AdoptLive leaves every fault that the registry held as it was, adds exactly as many leases as it
-- reports, keeps the registry's holder, and never leases a fault with no identifier.
pub adopt_live_extends :
    (r : Registry) (ds : List (Engine × ChaosDriver)) (nss : List String) (now : ℕ)
    → let t = adopt_live r ds nss now in
      ((k : String) (af : ActiveFault) → get r k ≡ some af → get t.registry k ≡ some af)
      × (length t.registry.items ≡ length r.items + t.adopted)
      × (t.registry.holder ≡ r.holder)
      × (get r "" ≡ none → get t.registry "" ≡ none)
unfolding adopt_live
adopt_live_extends r ds [] now = (λ k af h. h, omega arith, refl, λ h. h)
adopt_live_extends r ds (n ∷ ns) now =
    let x =
      adopt_engines-Extends ds (n ∷ ns) now (record { registry = r; adopted = 0; events = [] })
        (sort_by text_below (engines_of ds)) in
    (x.kept, omega (arith, x.counted), x.same_holder, x.no_empty)
