-- ===== src/Executor/Recorded/Payloads.antt =====
-- The fields of the payloads of Apply's records.
use simian_agent.Prelude.{
  subst, All, ℤ, ℕ, String, refl, sym, inl, inr, Bool, true, false, Option, none, some, List,
  Bool-cases, [], ◌≡◌, ◌∙◌, ◌∷◌, ◌==◌, if◌then◌else◌, nat_Eq, string_Eq,
}
use text.Mathlib.TextEquality.{eq_iff}
use simian_agent.Audit.Records.{text_at, list_value, text_value}
use simian_agent.Executor.Scope.{set_field, get_field}
use simian_agent.Simian.Types.{arr, obj, str, Fields, Value, FaultManifest, end, field}
use simian_agent.Executor.Scope.Reading.{get_field-set_field}
use simian_agent.Simian.Record.{audit_record, target_items, copy_spec, with_text}
use simian_agent.Executor.Recorded.{
  verified_by, add_detail, add_details, with_actor, applied_payload,
}
use simian_agent.Audit.Faults.{Description, describe}

get_field-add_detail_known :
    (k j : String) (v w : Value) (o : Option Value) (p : Fields)
    → get_field j p ≡ o
    → get_field k p ≡ some v
    → get_field k (add_detail j w o p) ≡ some v
unfolding add_detail
get_field-add_detail_known k j v w (some taken) p e h = h
get_field-add_detail_known k j v w none p e h = elim (Bool-cases (j == k)) [
  | inl same ↦
      let q : j ≡ k = (eq_iff j k).0 same in
      let gone : get_field k p ≡ none = subst (λ i. get_field i p ≡ none) q e in
      absurd (cc (h, gone))
  | inr other ↦ get_field-set_field j k w p ∙ rw other h
]

-- A field that is there keeps its value.
get_field-add_details_known :
    (k : String) (v : Value) (details p : Fields)
    → get_field k p ≡ some v
    → get_field k (add_details details p) ≡ some v
unfolding add_details
get_field-add_details_known k v end p h = h
get_field-add_details_known k v (field j w r) p h =
    get_field-add_details_known k v r (add_detail j w (get_field j p) p)
      (get_field-add_detail_known k j v w (get_field j p) p refl h)

get_field-add_detail_other :
    (k j : String) (w : Value) (o : Option Value) (p : Fields)
    → (j == k) ≡ false
    → get_field k (add_detail j w o p) ≡ get_field k p
unfolding add_detail
get_field-add_detail_other k j w (some taken) p other = refl
get_field-add_detail_other k j w none p other = get_field-set_field j k w p ∙ rw other refl

get_field-add_details_free :
    (k : String) (details p : Fields)
    → get_field k details ≡ none
    → get_field k (add_details details p) ≡ get_field k p
unfolding add_details get_field
get_field-add_details_free k end p h = refl
get_field-add_details_free k (field j w r) p h = elim (Bool-cases (j == k)) [
  | inl same ↦ let g = rw same at h in absurd (cc (g))
  | inr other ↦
      get_field-add_details_free k r (add_detail j w (get_field j p) p) (rw other at h)
      ∙ get_field-add_detail_other k j w (get_field j p) p other
]

-- The description that the records keep of a manifest.
abbrev pub described_as : (ℤ → String) → FaultManifest → Description
described_as duration_text m = record {
  engine = m.engine;
  kind = m.resource_kind;
  targets = target_items m.targets;
  spec = obj (copy_spec m.spec);
  duration = duration_text m.duration;
  tier = m.blast_radius_tier;
}

abbrev described_keys : List String
described_keys = "engine" ∷ "kind" ∷ "targets" ∷ "spec" ∷ "duration" ∷ "blast_radius_tier" ∷ []

module _ (duration_text : ℤ → String) (m : FaultManifest) where
  -- The payload has the fields of the manifest's record.
  pub record HasFields (p : Fields) : Type 0 where
    pub engine : get_field "engine" p ≡ some (str m.engine)
    pub kind : get_field "kind" p ≡ some (str m.resource_kind)
    pub targets : get_field "targets" p ≡ some (arr (target_items m.targets))
    pub spec : get_field "spec" p ≡ some (obj (copy_spec m.spec))
    pub duration : get_field "duration" p ≡ some (str (duration_text m.duration))
    pub tier :
        get_field "blast_radius_tier" p
        ≡ (if m.blast_radius_tier == "" then none else some (str m.blast_radius_tier))

  audit_record-HasFields : HasFields (audit_record duration_text m)
  unfolding audit_record with_text get_field
  audit_record-HasFields = elim (Bool-cases (m.blast_radius_tier == "")) [
    | inl blank ↦ record {
      engine = rw blank refl;
      kind = rw blank refl;
      targets = rw blank refl;
      spec = rw blank refl;
      duration = rw blank refl;
      tier = rw blank refl;
    }
    | inr given ↦ record {
      engine = rw given refl;
      kind = rw given refl;
      targets = rw given refl;
      spec = rw given refl;
      duration = rw given refl;
      tier = rw given refl;
    }
  ]

  set_field-HasFields :
      (k : String) (v : Value) (p : Fields)
      → All (λ (j : String). (k == j) ≡ false) described_keys
      → HasFields p
      → HasFields (set_field k v p)
  set_field-HasFields k v p (e, (k1, (t, (s, (d, (b, done)))))) h = record {
    engine = get_field-set_field k "engine" v p ∙ rw e h.engine;
    kind = get_field-set_field k "kind" v p ∙ rw k1 h.kind;
    targets = get_field-set_field k "targets" v p ∙ rw t h.targets;
    spec = get_field-set_field k "spec" v p ∙ rw s h.spec;
    duration = get_field-set_field k "duration" v p ∙ rw d h.duration;
    tier = get_field-set_field k "blast_radius_tier" v p ∙ rw b h.tier;
  }

  add_details-HasFields :
      (details p : Fields)
      → get_field "blast_radius_tier" details ≡ none
      → HasFields p
      → HasFields (add_details details p)
  add_details-HasFields details p free h = record {
    engine = get_field-add_details_known "engine" _ details p h.engine;
    kind = get_field-add_details_known "kind" _ details p h.kind;
    targets = get_field-add_details_known "targets" _ details p h.targets;
    spec = get_field-add_details_known "spec" _ details p h.spec;
    duration = get_field-add_details_known "duration" _ details p h.duration;
    tier = get_field-add_details_free "blast_radius_tier" details p free ∙ h.tier;
  }

  -- Described over another description, whose tier goes unless there is a new one.
  pub describe-HasFields :
      (d : Description) (p : Fields)
      → HasFields p
      → ((m.blast_radius_tier == "") ≡ true → d.tier ≡ "")
      → describe d p ≡ described_as duration_text m
  unfolding describe text_value list_value
  describe-HasFields d p h same = elim (Bool-cases (m.blast_radius_tier == "")) [
    | inl blank ↦
        let none_given : get_field "blast_radius_tier" p ≡ none = h.tier ∙ rw blank refl in
        let q : d.tier ≡ m.blast_radius_tier =
          same blank ∙ sym ((eq_iff m.blast_radius_tier "").0 blank) in
        rw (h.engine, h.kind, h.targets, h.spec, h.duration, none_given, q) refl
    | inr given ↦
        let one : get_field "blast_radius_tier" p ≡ some (str m.blast_radius_tier) =
          h.tier ∙ rw given refl in
        rw (h.engine, h.kind, h.targets, h.spec, h.duration, one) refl
  ]

  pub with_actor-HasFields :
      (actor : String) → HasFields (with_actor actor (audit_record duration_text m))
  unfolding with_actor
  with_actor-HasFields actor = elim (Bool-cases (actor == "")) [
    | inl nobody ↦ rw nobody audit_record-HasFields
    | inr somebody ↦ rw somebody (
        set_field-HasFields "actor" (str actor) (audit_record duration_text m)
          (refl, (refl, (refl, (refl, (refl, (refl, tt)))))) audit_record-HasFields)
  ]

  module _ (time_text : ℕ → String) (engine_uid : String) (deadline : ℕ) (can_confirm : Bool)
      (details : Fields) where
    abbrev payload : Fields
    payload = applied_payload duration_text time_text m engine_uid deadline can_confirm details

    pub applied_payload-HasFields : get_field "blast_radius_tier" details ≡ none → HasFields payload
    unfolding applied_payload
    applied_payload-HasFields free =
        let p0 = audit_record duration_text m in
        let p1 = set_field "engine_uid" (str engine_uid) p0 in
        let p2 = set_field "deadline" (str (time_text deadline)) p1 in
        add_details-HasFields details (set_field "verified_by" (verified_by can_confirm m) p2) free
          (set_field-HasFields "verified_by" (verified_by can_confirm m) p2
            (refl, (refl, (refl, (refl, (refl, (refl, tt))))))
            (set_field-HasFields "deadline" (str (time_text deadline)) p1
              (refl, (refl, (refl, (refl, (refl, (refl, tt))))))
              (set_field-HasFields "engine_uid" (str engine_uid) p0
                (refl, (refl, (refl, (refl, (refl, (refl, tt)))))) audit_record-HasFields)))

    pub applied_payload-lease :
        (text_at payload "engine_uid" ≡ engine_uid)
        × (text_at payload "deadline" ≡ time_text deadline)
    unfolding applied_payload text_at text_value
    applied_payload-lease =
        let p0 = audit_record duration_text m in
        let p1 = set_field "engine_uid" (str engine_uid) p0 in
        let p2 = set_field "deadline" (str (time_text deadline)) p1 in
        let p3 = set_field "verified_by" (verified_by can_confirm m) p2 in
        let u : get_field "engine_uid" p3 ≡ some (str engine_uid) =
          get_field-set_field "verified_by" "engine_uid" (verified_by can_confirm m) p2
          ∙ get_field-set_field "deadline" "engine_uid" (str (time_text deadline)) p1
          ∙ get_field-set_field "engine_uid" "engine_uid" (str engine_uid) p0 in
        let d : get_field "deadline" p3 ≡ some (str (time_text deadline)) =
          get_field-set_field "verified_by" "deadline" (verified_by can_confirm m) p2
          ∙ get_field-set_field "deadline" "deadline" (str (time_text deadline)) p1 in
        (
          rw (get_field-add_details_known "engine_uid" (str engine_uid) details p3 u) refl,
          rw (get_field-add_details_known "deadline" (str (time_text deadline)) details p3 d) refl,
        )
