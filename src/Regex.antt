-- ===== src/Regex.antt =====
-- Go's regexp, as far as the templates use it: unanchored search, by derivatives.
use kei_connector_contracts.Prelude.{
  ℕ, zero, suc, Bool, true, false, not, ◌&&◌, ◌||◌, List, [], ◌∷◌, Text, leb, eqb, if◌then◌else◌,
}

-- A class is its test on bytes.
pub data Regex : Type 0 where
  never empty : Regex
  class : (ℕ → Bool) → Regex
  seq alt : Regex → Regex → Regex
  star : Regex → Regex

unfoldable pub nullable : Regex → Bool
nullable never = false
nullable empty = true
nullable (class p) = false
nullable (seq r s) = nullable r && nullable s
nullable (alt r s) = nullable r || nullable s
nullable (star r) = true

-- `seq` and `alt` that drop what cannot match.
unfoldable pub then_regex : Regex → Regex → Regex
then_regex never s = never
then_regex empty s = s
then_regex r s = seq r s

unfoldable pub either : Regex → Regex → Regex
either never s = s
either r never = r
either r s = alt r s

-- What is left to match after a byte.
unfoldable pub derive : ℕ → Regex → Regex
derive c never = never
derive c empty = never
derive c (class p) = if p c then empty else never
derive c (seq r s) =
    let first = then_regex (derive c r) s in
    let second = derive c s in if nullable r then either first second else first
derive c (alt r s) = either (derive c r) (derive c s)
derive c (star r) = then_regex (derive c r) (star r)

-- Whether a prefix of the text matches.
unfoldable pub matches_prefix : Regex → Text → Bool
matches_prefix r [] = nullable r
matches_prefix r (c ∷ s) =
    let later = matches_prefix (derive c r) s in if nullable r then true else later

-- Whether a part of the text matches.
unfoldable pub search_regex : Regex → Text → Bool
search_regex r [] = matches_prefix r []
search_regex r (c ∷ s) = matches_prefix r (c ∷ s) || search_regex r s

-- A word byte, for `\b`.
unfoldable pub is_word : ℕ → Bool
is_word c =
    (leb b'0' c && leb c b'9')
    || (leb b'A' c && leb c b'Z')
    || (leb b'a' c && leb c b'z')
    || eqb c b'_'

-- `\b` before an expression that begins with a word byte: the byte before the match is no word byte.
unfoldable pub search_at_word : Bool → Regex → Text → Bool
search_at_word after_word r [] = not after_word && matches_prefix r []
search_at_word after_word r (c ∷ s) =
    (not after_word && matches_prefix r (c ∷ s)) || search_at_word (is_word c) r s

abbrev pub literal : Text → Regex
literal [] = empty
literal (c ∷ s) = seq (class (eqb c)) (literal s)

-- `r{n}`, `r{n}` and `r+`
abbrev pub times : ℕ → Regex → Regex
times zero r = empty
times (suc n) r = seq r (times n r)

abbrev pub at_least : ℕ → Regex → Regex
at_least n r = seq (times n r) (star r)

abbrev pub optional : Regex → Regex
optional r = alt r empty

abbrev pub one_of : List Regex → Regex
one_of [] = never
one_of (r ∷ rs) = alt r (one_of rs)
