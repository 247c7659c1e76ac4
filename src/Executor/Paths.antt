-- ===== src/Executor/Paths.antt =====
-- pkg/executor/compat.go: ChaosPathMatches. A regular expression is the list of its atoms: a quoted
-- character, or `.*`, whose dot matches any character but a newline. Package regexp looks for any way
-- to match, and the expression is anchored at both ends.
pub mod Matching
pub mod Clean
use Prim.Native.Char.{Char, code}
use simian_agent.Prelude.{
  String, Bool, true, false, not, List, [], ◌&&◌, ◌||◌, ◌∷◌, ◌==◌, if◌then◌else◌, nat_Eq, string_Eq,
}

pub data Atom : Type 0 where
  quoted : Char → Atom
  any_run : Atom

unfoldable pub is_star : Char → Bool
is_star c = code c == 42

unfoldable pub is_newline : Char → Bool
is_newline c = code c == 10

unfoldable pub put_first : Char → List String → List String
put_first c [] = String.◌∷◌ c "" ∷ []
put_first c (s ∷ r) = String.◌∷◌ c s ∷ r

-- strings.Split(glob, "*").
unfoldable pub split_star : String → List String
unfolding put_first is_star
split_star String.[] = "" ∷ []
split_star (String.◌∷◌ c s) =
    let rest = split_star s in if is_star c then "" ∷ rest else put_first c rest

-- regexp.QuoteMeta(part), before the expression that comes next.
unfoldable pub quote : String → List Atom → List Atom
quote String.[] next = next
quote (String.◌∷◌ c s) next = quoted c ∷ quote s next

unfoldable pub after_first : List String → List Atom
unfolding quote
after_first [] = []
after_first (part ∷ parts) = any_run ∷ quote part (after_first parts)

unfoldable pub expression : List String → List Atom
unfolding quote after_first
expression [] = []
expression (part ∷ parts) = quote part (after_first parts)

-- MatchString of the anchored expression.
unfoldable pub match_atoms : List Atom → String → Bool
unfolding is_newline
match_atoms [] String.[] = true
match_atoms [] (String.◌∷◌ c s) = false
match_atoms (quoted c ∷ atoms) String.[] = false
match_atoms (quoted c ∷ atoms) (String.◌∷◌ d s) = code c == code d && match_atoms atoms s
match_atoms (any_run ∷ atoms) String.[] = match_atoms atoms ""
match_atoms (any_run ∷ atoms) (String.◌∷◌ d s) =
    match_atoms atoms (String.◌∷◌ d s) || not (is_newline d) && match_atoms (any_run ∷ atoms) s

unfoldable pub chaos_path_matches : String → String → Bool
unfolding split_star expression match_atoms
chaos_path_matches glob p =
    if glob == "" then true else match_atoms (expression (split_star glob)) p
