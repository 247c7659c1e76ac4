-- ===== src/Catalog/Tiers/Raised.antt =====
-- What ReclassifyForSpec does to a manifest's tier.
use simian_agent.Simian.Types.{nil, cons, arr, obj, bool, null, num, str}
use simian_agent.Prelude.{
  any, contains, contains→In, In→contains, String, refl, sym, inl, inr, true, List, arith,
  Bool-cases, any_sound, any_complete, ◌≡◌, ◌∙◌, ◌≢◌, ◌⊎◌, if◌then◌else◌, nat_Eq, string_Eq,
}
use mathlib.Core.Path.{subst, subst, subst, subst, subst, subst, subst, subst}
use simian_agent.Catalog.Tiers.Suffixes.{InDomain, matches_domain_exact}
use simian_agent.Catalog.Tiers.{
  field_of, items_of, tier_external, engine_chaos_mesh, current_tier, has_external_dns_pattern,
  matches_domain, reclassify_for_spec, Items, FaultManifest, str, matches_any_domain,
  is_external_pattern, any_item, Net,
}
use simian_agent.Simian.Types.{Value}

-- The item is a text that stands in none of the domains.
pub Outside : List String → Value → Type 0
Outside domains v =
    (s : String) × (v ≡ str s) × ((d : String) → contains domains d ≡ true → ¬ InDomain s d)

-- Some item of the list does.
pub SomeItem : (Value → Type 0) → Items → Type 0
SomeItem p nil = ⊥
SomeItem p (cons v r) = p v ⊎ SomeItem p r

is_external_pattern-Outside :
    (domains : List String) (v : Value) → is_external_pattern domains v ≡ true → Outside domains v
unfolding is_external_pattern matches_any_domain Outside
is_external_pattern-Outside domains (str s) e = (
  s,
  refl,
  λ d c i.
      let m = (matches_domain_exact s d).1 i in
      let found = any_complete (matches_domain s) domains d (contains→In domains d c) m in
      absurd (ground arith),
)
is_external_pattern-Outside domains null e = absurd (cc)
is_external_pattern-Outside domains (bool b) e = absurd (cc)
is_external_pattern-Outside domains (num b) e = absurd (cc)
is_external_pattern-Outside domains (arr b) e = absurd (cc)
is_external_pattern-Outside domains (obj b) e = absurd (cc)

external_of :
    (domains : List String) (v : Value) → Outside domains v → is_external_pattern domains v ≡ true
unfolding is_external_pattern matches_any_domain Outside
external_of domains v (s, p, apart) =
    subst (λ x. is_external_pattern domains x ≡ true) (sym p)
      (elim (Bool-cases (any (matches_domain s) domains)) [
        | inl found ↦
            let (d, i, m) = any_sound (matches_domain s) domains found in
            absurd (apart d (In→contains domains d i) ((matches_domain_exact s d).0 m))
        | inr miss ↦ rw miss refl
      ])

any_item_sound :
    (domains : List String) (xs : Items)
    → any_item (is_external_pattern domains) xs ≡ true
    → SomeItem (Outside domains) xs
unfolding any_item SomeItem
any_item_sound domains nil e = absurd (cc)
any_item_sound domains (cons v r) e = elim (Bool-cases (is_external_pattern domains v)) [
  | inl hit ↦ inl (is_external_pattern-Outside domains v hit)
  | inr miss ↦ inr (any_item_sound domains r (ground arith))
]

any_item_complete :
    (domains : List String) (xs : Items)
    → SomeItem (Outside domains) xs
    → any_item (is_external_pattern domains) xs ≡ true
unfolding any_item SomeItem
any_item_complete domains nil e = absurd e
any_item_complete domains (cons v r) (inl o) = let q = external_of domains v o in ground arith
any_item_complete domains (cons v r) (inr i) = ground (arith, any_item_complete domains r i)

module _ {Ip : Type 0} {Cidr : Type 0} (net : Net Ip Cidr) (m : FaultManifest) (cidrs : List Cidr)
    (domains : List String) where
  -- ReclassifyForSpec answers the manifest's own tier, or external.
  pub reclassify_raises :
      (reclassify_for_spec net m cidrs domains ≡ current_tier m)
      ⊎ (reclassify_for_spec net m cidrs domains ≡ tier_external)
  unfolding reclassify_for_spec
  reclassify_raises = ground arith

  -- A Chaos Mesh DNSChaos whose own tier is not external becomes external exactly when one of its
  -- patterns is a text that stands in none of the cluster's domains.
  pub reclassify_dns_exact :
      m.engine ≡ engine_chaos_mesh
      → m.resource_kind ≡ "DNSChaos"
      → current_tier m ≢ tier_external
      → (reclassify_for_spec net m cidrs domains ≡ tier_external
          → SomeItem (Outside domains) (items_of (field_of m.spec "patterns")))
        × (SomeItem (Outside domains) (items_of (field_of m.spec "patterns"))
            → reclassify_for_spec net m cidrs domains ≡ tier_external)
  unfolding reclassify_for_spec has_external_dns_pattern
  reclassify_dns_exact engine kind inside = (sound, complete)
    where
      computed :
          reclassify_for_spec net m cidrs domains
          ≡ (if has_external_dns_pattern m.spec domains then tier_external else current_tier m)
      computed = rw (engine, kind) refl

      sound :
          reclassify_for_spec net m cidrs domains ≡ tier_external
          → SomeItem (Outside domains) (items_of (field_of m.spec "patterns"))
      sound e = elim (Bool-cases (has_external_dns_pattern m.spec domains)) [
        | inl hit ↦ any_item_sound domains _ hit
        | inr miss ↦ absurd (
            inside (
              subst (λ b. (if b then tier_external else current_tier m) ≡ tier_external) miss
                (sym computed ∙ e)))
      ]

      complete :
          SomeItem (Outside domains) (items_of (field_of m.spec "patterns"))
          → reclassify_for_spec net m cidrs domains ≡ tier_external
      complete i = let hit = any_item_complete domains _ i in computed ∙ rw hit refl
