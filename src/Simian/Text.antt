-- ===== src/Simian/Text.antt =====
-- Package strings, as far as the components call it: Join, Split at a comma, TrimSpace, and the
-- order of texts.
use Prim.Native.Char.{Char, code}
use Prim.Native.Nat.{Ordering}
use Prim.Native.String.{compare}
use simian_agent.Prelude.{
  ℕ, String, refl, ap, Bool, true, false, List, leb, [], ◌≡◌, ◌≢◌, ◌&&◌, ◌||◌, ◌∷◌, ◌==◌,
  if◌then◌else◌, nat_Eq, string_Eq,
}

-- A literal's type for places that show none.
abbrev pub text : String → String
text s = s

abbrev pub comma : ℕ
comma = 44

-- Texts in the order of their bytes, which is that of their code points.
abbrev pub text_below : String → String → Bool
text_below a b = elim (compare a b) [ Ordering.gt ↦ false | _ ↦ true ]

unfoldable pub append_text : String → String → String
append_text String.[] t = t
append_text (String.◌∷◌ c s) t = String.◌∷◌ c (append_text s t)

unfoldable pub is_comma : Char → Bool
is_comma c = code c == comma

-- strings.Join(parts, ",").
unfoldable pub join_comma : List String → String
unfolding append_text
join_comma [] = ""
join_comma (s ∷ []) = s
join_comma (s ∷ t ∷ r) = append_text s (append_text "," (join_comma (t ∷ r)))

add_to_first : Char → List String → List String
add_to_first c [] = String.◌∷◌ c "" ∷ []
add_to_first c (s ∷ r) = String.◌∷◌ c s ∷ r

-- strings.Split(s, ",").
unfoldable pub split_comma : String → List String
unfolding add_to_first is_comma
split_comma String.[] = "" ∷ []
split_comma (String.◌∷◌ c s) =
    let rest = split_comma s in if is_comma c then "" ∷ rest else add_to_first c rest

-- No character of the text is a comma.
abbrev pub CommaFree : String → Type 0
CommaFree String.[] = Unit
CommaFree (String.◌∷◌ c s) = (is_comma c ≡ false) × CommaFree s

abbrev pub AllCommaFree : List String → Type 0
AllCommaFree [] = Unit
AllCommaFree (s ∷ r) = CommaFree s × AllCommaFree r

split-free : (s : String) → CommaFree s → split_comma s ≡ s ∷ []
unfolding split_comma add_to_first
split-free String.[] f = refl
split-free (String.◌∷◌ c s) f = rw (f.0, split-free s f.1) refl

split-free_append :
    (s t : String)
    → CommaFree s
    → split_comma (append_text s (String.◌∷◌ "," t)) ≡ s ∷ split_comma t
unfolding split_comma append_text add_to_first
split-free_append String.[] t f = refl
split-free_append (String.◌∷◌ c s) t f = rw (f.0, split-free_append s t f.1) refl

-- Split undoes Join on a non-empty list of parts with no comma in them.
pub split-join :
    (s : String) (r : List String) → AllCommaFree (s ∷ r) → split_comma (join_comma (s ∷ r)) ≡ s ∷ r
unfolding join_comma
split-join s [] f = split-free s f.0
split-join s (t ∷ r) f =
    rw (split-free_append s (join_comma (t ∷ r)) f.0) (ap (◌∷◌ s) (split-join t r f.1))

pub join-nonempty : (s : String) (r : List String) → s ≢ "" → join_comma (s ∷ r) ≢ ""
unfolding join_comma append_text
join-nonempty s [] h e = h e
join-nonempty String.[] (t ∷ r) h e = h refl
join-nonempty (String.◌∷◌ c s) (t ∷ r) h e = cc

-- unicode.IsSpace.
is_space : Char → Bool
is_space c =
    (leb 9 (code c) && leb (code c) 13)
    || code c == 32
    || code c == 133
    || code c == 160
    || code c == 5760
    || (leb 8192 (code c) && leb (code c) 8202)
    || code c == 8232
    || code c == 8233
    || code c == 8239
    || code c == 8287
    || code c == 12288

trim_left : String → String
unfolding is_space
trim_left String.[] = ""
trim_left (String.◌∷◌ c s) = let rest = trim_left s in if is_space c then rest else String.◌∷◌ c s

is_blank : String → Bool
unfolding is_space
is_blank String.[] = true
is_blank (String.◌∷◌ c s) = is_space c && is_blank s

trim_right : String → String
unfolding is_blank
trim_right String.[] = ""
trim_right (String.◌∷◌ c s) =
    let rest = trim_right s in if is_blank (String.◌∷◌ c s) then "" else String.◌∷◌ c rest

-- strings.TrimSpace.
unfoldable pub trim_space : String → String
unfolding trim_left trim_right
trim_space s = trim_right (trim_left s)

trim_space_test : trim_space " node\n" ≡ "node"
unfolding trim_space
trim_space_test = refl

split_test : split_comma "a,,b" ≡ "a" ∷ "" ∷ "b" ∷ []
unfolding split_comma
split_test = refl
