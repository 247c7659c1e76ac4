-- ===== src/Executor/Paths/Clean.antt =====
-- path.Clean, as pkg/executor/compat.go calls it.
use Prim.Native.Char.{code}
use simian_agent.Prelude.{
  reverse, String, refl, Bool, false, List, [], ◌≡◌, ◌||◌, ◌∷◌, ◌==◌, if◌then◌else◌, nat_Eq,
  string_Eq,
}
use simian_agent.Executor.Paths.{put_first}
use simian_agent.Simian.Text.{text, append_text}

unfoldable pub split_slash : String → List String
unfolding put_first
split_slash String.[] = "" ∷ []
split_slash (String.◌∷◌ c s) =
    let rest = split_slash s in if code c == 47 then "" ∷ rest else put_first c rest

pub is_rooted : String → Bool
is_rooted String.[] = false
is_rooted (String.◌∷◌ c s) = code c == 47

-- A ".." takes a segment back, or stays where there is none to take and the path is not rooted.
pub back_up : Bool → List String → List String
back_up rooted [] = if rooted then [] else text ".." ∷ []
back_up rooted (top ∷ rest) = if top == ".." then text ".." ∷ top ∷ rest else rest

-- The segments so far, last first.
pub cleaned : Bool → List String → List String → List String
unfolding back_up
cleaned rooted done [] = done
cleaned rooted done (s ∷ rest) =
    cleaned rooted
      (if s == "" || s == "." then done else if s == ".." then back_up rooted done else s ∷ done)
      rest

pub join_slash : List String → String
unfolding append_text
join_slash [] = ""
join_slash (s ∷ []) = s
join_slash (s ∷ t ∷ r) = append_text s (append_text "/" (join_slash (t ∷ r)))

pub or_dot : String → String
or_dot s = if s == "" then "." else s

unfoldable pub clean : String → String
unfolding split_slash is_rooted cleaned join_slash append_text or_dot
clean s =
    let body = join_slash (reverse (cleaned (is_rooted s) [] (split_slash s))) in
    if is_rooted s then append_text "/" body else or_dot body

clean_test : clean "/data//x/../y/." ≡ "/data/y"
unfolding clean
clean_test = refl
