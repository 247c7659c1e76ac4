-- ===== src/Planner/Replies.antt =====
-- pkg/planner/translate.go: the JSON text in what the model answers, as extractJSON finds it.
use Prim.Native.Char.{code}
use simian_agent.Prelude.{
  ℕ, String, refl, Bool, true, false, Option, none, some, ◌≡◌, ◌&&◌, ◌==◌, if◌then◌else◌, nat_Eq,
  string_Eq,
}
use simian_agent.Simian.Text.{trim_space, append_text}

-- A reply of the model: structured output, if it has any, and free text.
pub record Reply : Type 0 where
  pub structured : String
  pub free_text : String

unfoldable pub starts_text : String → String → Bool
starts_text String.[] s = true
starts_text (String.◌∷◌ c prefix) String.[] = false
starts_text (String.◌∷◌ c prefix) (String.◌∷◌ d s) = code c == code d && starts_text prefix s

-- What comes after the first newline, if there is one.
unfoldable pub after_line : String → Option String
after_line String.[] = none
after_line (String.◌∷◌ c s) = let rest = after_line s in if code c == 10 then some s else rest

-- What comes before the last occurrence of a text, if there is one.
unfoldable pub before_last : String → String → Option String
unfolding starts_text
before_last t String.[] = none
before_last t (String.◌∷◌ c s) = elim (before_last t s) [
  | some before ↦ some (String.◌∷◌ c before)
  | none ↦ if starts_text t (String.◌∷◌ c s) then some "" else none
]

-- What begins at the first occurrence of a character, if there is one.
unfoldable pub from_first : ℕ → String → Option String
from_first k String.[] = none
from_first k (String.◌∷◌ c s) =
    let rest = from_first k s in if code c == k then some (String.◌∷◌ c s) else rest

pub keep_or : Option String → String → String
keep_or none s = s
keep_or (some t) s = t

pub inside_fences : String → String
unfolding before_last trim_space keep_or
inside_fences body = trim_space (keep_or (before_last "```" body) body)

unfoldable pub strip_fences : String → String
unfolding starts_text after_line inside_fences keep_or
strip_fences t = if starts_text "```" t then inside_fences (keep_or (after_line t) t) else t

-- From the first "{" to the last "}"; the whole text where they are not there in this order.
pub braces : String → String
unfolding from_first before_last
braces t = elim (from_first 123 t) [
  | none ↦ t
  | some rest ↦ elim (before_last "}" rest) [ none ↦ t | some inner ↦ append_text inner "}" ]
]

unfoldable pub extract_json : String → String
unfolding strip_fences braces trim_space
extract_json s = braces (strip_fences (trim_space s))

unfoldable pub raw_of : Reply → String
unfolding extract_json
raw_of r = if r.structured == "" then extract_json r.free_text else r.structured

extract_test : extract_json "```json\n{\"a\": 1}\n```" ≡ "{\"a\": 1}"
unfolding extract_json append_text
extract_test = refl
