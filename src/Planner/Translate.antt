-- ===== src/Planner/Translate.antt =====
-- pkg/planner/translate.go: turning a person's request into one fault. As in Planner/Generate, the
-- model of a language answers the errors so far, and `decode` is the decoding of JSON into a draft.
-- The translator may run no attempt at all, if its number of retries is below 0.
pub mod Submitting
use simian_agent.Prelude.{
  length, ℤ, pos, negsuc, ℕ, zero, suc, String, not, Option, none, some, List, [], ◌||◌, ◌∷◌, ◌++◌,
  ◌==◌, if◌then◌else◌, nat_Eq, string_Eq,
}
use simian_agent.Planner.Replies.{raw_of, Reply}
use simian_agent.Planner.Generate.{two_minutes, has_fields, is_positive}
use simian_agent.Simian.Types.{TargetRef, FaultManifest, Fields}
use simian_agent.Prelude.Results.{Result, ok, err}

-- The permissive struct that the answer is decoded into.
pub record Draft : Type 0 where
  pub engine : String
  pub api_version : String
  pub resource_kind : String
  pub kind : String
  pub spec : Option Fields
  pub targets : List TargetRef
  pub duration : String
  pub blast_radius_tier : String
  pub rationale : String

pub data DraftError : Type 0 where
  empty_response decode_failed kind_required target_required spec_required invalid_duration :
      DraftError

pub data TranslateError : Type 0 where
  intent_required catalog_empty call_failed : TranslateError
  no_valid_manifest : Option DraftError → TranslateError

pub kind_of : Draft → String
kind_of d = if d.resource_kind == "" then d.kind else d.resource_kind

unfoldable pub lasting : ℤ → ℤ
lasting d = if is_positive d then d else two_minutes

pub directed : Draft → ℤ → FaultManifest
unfolding kind_of lasting
directed d duration = record {
  uid = "";
  source = "directed";
  engine = d.engine;
  api_version = d.api_version;
  resource_kind = kind_of d;
  spec = d.spec;
  targets = d.targets;
  duration = lasting duration;
  blast_radius_tier = d.blast_radius_tier;
  probes = [];
  rationale = d.rationale;
  plan_id = "";
  annotations = [];
}

-- `parse_duration` is time.ParseDuration; `none` is its error.
module _ (parse_duration : String → Option ℤ) (decode : String → Option Draft)
    (default_duration : ℤ) where
  pub duration_of : String → Option ℤ
  duration_of s = if s == "" then some default_duration else parse_duration s

  pub with_duration : Draft → Option ℤ → Result DraftError FaultManifest
  unfolding directed
  with_duration d none = err invalid_duration
  with_duration d (some duration) = ok (directed d duration)

  pub after_draft : Option Draft → Result DraftError FaultManifest
  unfolding kind_of with_duration duration_of has_fields
  after_draft none = err decode_failed
  after_draft (some d) =
      if d.engine == "" || kind_of d == "" || d.api_version == ""
      then err kind_required
      else if length d.targets == 0
      then err target_required
      else if not (has_fields d.spec)
      then err spec_required
      else with_duration d (duration_of d.duration)

  unfoldable pub parse_manifest : String → Result DraftError FaultManifest
  unfolding after_draft
  parse_manifest raw = if raw == "" then err empty_response else after_draft (decode raw)

  -- `left` attempts are still to come; `last` is the error of the attempt before.
  unfoldable pub translate_attempts :
      (List DraftError → Option Reply)
      → ℕ
      → List DraftError
      → Option DraftError
      → Result TranslateError FaultManifest
  translate_attempts complete zero errors last = err (no_valid_manifest last)
  translate_attempts complete (suc left) errors last = elim (complete errors) [
    | none ↦ err call_failed
    | some reply ↦ elim (parse_manifest (raw_of reply)) [
      | ok m ↦ ok m
      | err e ↦ translate_attempts complete left (errors ++ e ∷ []) (some e)
    ]
  ]

  pub attempts_of : ℤ → ℕ
  attempts_of (pos n) = suc n
  attempts_of (negsuc n) = 0

  -- `entries` is the number of catalog entries.
  unfoldable pub translate :
      (List DraftError → Option Reply) → String → ℕ → ℤ → Result TranslateError FaultManifest
  unfolding attempts_of
  translate complete intent entries max_retries =
      if intent == ""
      then err intent_required
      else if entries == 0
      then err catalog_empty
      else translate_attempts complete (attempts_of max_retries) [] none
