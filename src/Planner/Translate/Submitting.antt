-- ===== src/Planner/Translate/Submitting.antt =====
-- The faults that Translate of pkg/planner/translate.go hands on.
use simian_agent.Prelude.{
  subst, length, ℤ, ℕ, zero, suc, String, refl, inl, inr, true, false, not, Option, none, some,
  List, arith, Option-cases, [], ◌≡◌, ◌≢◌, ◌||◌, ◌∷◌, ◌++◌, ◌==◌, nat_Eq, string_Eq,
}
use simian_agent.Planner.Generate.Plans.{has_spec_fields, some_target}
use simian_agent.Planner.Generate.Retries.{past}
use simian_agent.Prelude.Results.{err, Result, ok}
use simian_agent.Planner.Replies.{raw_of, Reply}
use simian_agent.Planner.Generate.{is_positive, has_fields}
use text.Mathlib.TextEquality.{eq_iff}
use simian_agent.Planner.Translate.{
  call_failed, TranslateError, attempts_of, kind_of, translate_attempts, translate, directed,
  after_draft, DraftError, parse_manifest, with_duration, Draft, lasting,
}
use simian_agent.Simian.Types.{FaultManifest}

-- A directed fault that says what, where and for how long.
pub record IsSubmittable (m : FaultManifest) : Type 0 where
  pub directed : m.source ≡ "directed"
  pub engine : m.engine ≢ ""
  pub kind : m.resource_kind ≢ ""
  pub api_version : m.api_version ≢ ""
  pub has_target : m.targets ≢ []
  pub spec : m.spec ≢ none
  pub lasts : is_positive m.duration ≡ true

lasting_positive : (d : ℤ) → is_positive (lasting d) ≡ true
unfolding lasting
lasting_positive d = ground arith

no_blank :
    (a b c : String) → (a == "" || b == "" || c == "") ≡ false → (a ≢ "") × (b ≢ "") × (c ≢ "")
no_blank a b c h = ground (arith, h, eq_iff a "", eq_iff b "", eq_iff c "")

module _ (parse_duration : String → Option ℤ) (decode : String → Option Draft)
    (default_duration : ℤ) where
  with_duration-IsSubmittable :
      (d : Draft) (o : Option ℤ) {m : FaultManifest}
      → (d.engine == "" || kind_of d == "" || d.api_version == "") ≡ false
      → (length d.targets == 0) ≡ false
      → not (has_fields d.spec) ≡ false
      → with_duration parse_duration decode default_duration d o ≡ ok m
      → IsSubmittable m
  unfolding with_duration directed
  with_duration-IsSubmittable d none w t s q = absurd (cc)
  with_duration-IsSubmittable d (some duration) {m} w t s q =
      let e : directed d duration ≡ m = cc in
      let (engine, kind, api) = no_blank d.engine (kind_of d) d.api_version w in
      subst IsSubmittable e (record {
        directed = refl;
        engine = engine;
        kind = kind;
        api_version = api;
        has_target = some_target d.targets t;
        spec = has_spec_fields d.spec s;
        lasts = lasting_positive duration;
      })

  after_draft-IsSubmittable :
      (o : Option Draft) {m : FaultManifest}
      → after_draft parse_duration decode default_duration o ≡ ok m
      → IsSubmittable m
  unfolding after_draft
  after_draft-IsSubmittable none q = absurd (cc)
  after_draft-IsSubmittable (some d) q =
      let (words, q1) = past (d.engine == "" || kind_of d == "" || d.api_version == "") _ _ q in
      let (targets, q2) = past (length d.targets == 0) _ _ q1 in
      let (spec, q3) = past (not (has_fields d.spec)) _ _ q2 in
      with_duration-IsSubmittable d _ words targets spec q3

  parse_manifest-IsSubmittable :
      (raw : String) {m : FaultManifest}
      → parse_manifest parse_duration decode default_duration raw ≡ ok m
      → IsSubmittable m
  unfolding parse_manifest
  parse_manifest-IsSubmittable raw q =
      after_draft-IsSubmittable (decode raw) (past (raw == "") _ _ q).1

  module _ (complete : List DraftError → Option Reply) where
    abbrev attempts : ℕ → List DraftError → Option DraftError → Result TranslateError FaultManifest
    attempts left errors last =
        translate_attempts parse_duration decode default_duration complete left errors last

    abbrev parsed : Reply → Result DraftError FaultManifest
    parsed reply = parse_manifest parse_duration decode default_duration (raw_of reply)

    attempts_down :
        (left : ℕ) (errors : List DraftError) (last : Option DraftError)
        → complete errors ≡ none
        → attempts (suc left) errors last ≡ err call_failed
    unfolding translate_attempts
    attempts_down left errors last e = rw (e, translate_attempts) refl

    attempts_ok :
        (left : ℕ) (errors : List DraftError) (last : Option DraftError) (reply : Reply)
        (m : FaultManifest)
        → complete errors ≡ some reply
        → parsed reply ≡ ok m
        → attempts (suc left) errors last ≡ ok m
    unfolding translate_attempts
    attempts_ok left errors last reply m e p = rw (e, translate_attempts) (rw p refl)

    attempts_err :
        (left : ℕ) (errors : List DraftError) (last : Option DraftError) (reply : Reply)
        (why : DraftError)
        → complete errors ≡ some reply
        → parsed reply ≡ err why
        → attempts (suc left) errors last ≡ attempts left (errors ++ why ∷ []) (some why)
    unfolding translate_attempts
    attempts_err left errors last reply why e p = rw (e, translate_attempts) (rw p refl)

    attempts-IsSubmittable :
        (left : ℕ) (errors : List DraftError) (last : Option DraftError) {m : FaultManifest}
        → translate_attempts parse_duration decode default_duration complete left errors last ≡ ok m
        → IsSubmittable m
    attempts-IsSubmittable zero errors last q = unfold translate_attempts in absurd (cc)
    attempts-IsSubmittable (suc left) errors last {m} q = elim (Option-cases (complete errors)) [
      | inl down ↦ absurd (cc (q, attempts_down left errors last down))
      | inr (reply, up) ↦
          attempt reply up (λ e. attempts-IsSubmittable left (errors ++ e ∷ []) (some e))
            (parsed reply) refl
    ]
      where
        attempt :
            (reply : Reply)
            → complete errors ≡ some reply
            → ((e : DraftError)
                → attempts left (errors ++ e ∷ []) (some e) ≡ ok m
                → IsSubmittable m)
            → (d : Result DraftError FaultManifest) → parsed reply ≡ d
            → IsSubmittable m
        attempt reply up more (ok n) p =
            parse_manifest-IsSubmittable (raw_of reply)
              (cc (p, q, attempts_ok left errors last reply n up p))
        attempt reply up more (err e) p =
            more e (cc (q, attempts_err left errors last reply e up p))

    -- A fault that Translate hands on is a directed one, with an engine, a kind, an API version, a
    -- target and a spec, and lasts a positive time.
    pub translate-IsSubmittable :
        (intent : String) (entries : ℕ) (max_retries : ℤ) {m : FaultManifest}
        → translate parse_duration decode default_duration complete intent entries max_retries
          ≡ ok m
        → IsSubmittable m
    unfolding translate
    translate-IsSubmittable intent entries max_retries q =
        let (asked, q1) = past (intent == "") _ _ q in
        let (stocked, q2) = past (entries == 0) _ _ q1 in
        attempts-IsSubmittable (attempts_of parse_duration decode default_duration max_retries) []
          none q2
