-- ===== src/Strings.antt =====
-- Go's `strings` package, as far as the program calls it, over bytes. Separators are single bytes.
pub mod Laws
pub mod Order
pub mod Suffix
use kei_connector_contracts.Prelude.{
  ℕ, zero, suc, ◌+◌, ◌-◌, ◌*◌, ◌≤◌, ◌<◌, String, ◌≡◌, refl, sym, ap, ap₂, subst, ◌∙◌, ◌≢◌, ◌↔◌, ◌⊎◌,
  inl, inr, Bool, true, false, not, ◌&&◌, ◌||◌, Option, none, some, List, [], ◌∷◌, ◌++◌, map,
  reverse, arith, Text, codes, ==_iff, ==_refl, ◌==◌, any, all, keep, find, ltb, leb, eqb,
  if◌then◌else◌, eqb_iff, Bool-cases, Option-cases, &&-eq-true, All, In, All_at, length, take, drop,
  length-append, In-append, In-keep, keep-In, any_iff, any_none, all_at, find_sound, find_complete,
  ℤ, pos, negsuc, int_lt, int_eq, Try, ok, err, ◌>>=◌,
}
use mathlib.Core.Option

unfoldable pub has_prefix : Text → Text → Bool
has_prefix s [] = true
has_prefix [] (p ∷ ps) = false
has_prefix (c ∷ s) (p ∷ ps) = eqb c p && has_prefix s ps

-- `CutPrefix`: what follows the prefix, `none` where Go's second result is false.
unfoldable pub cut_prefix : Text → Text → Option Text
cut_prefix s [] = some s
cut_prefix [] (p ∷ ps) = none
cut_prefix (c ∷ s) (p ∷ ps) = if eqb c p then cut_prefix s ps else none

unfoldable pub trim_prefix : Text → Text → Text
trim_prefix s p = Option.get_or (cut_prefix s p) s

unfoldable pub has_suffix : Text → Text → Bool
has_suffix s t = has_prefix (reverse s) (reverse t)

unfoldable pub cut_suffix : Text → Text → Option Text
cut_suffix s t = Option.map reverse (cut_prefix (reverse s) (reverse t))

unfoldable pub trim_suffix : Text → Text → Text
trim_suffix s t = Option.get_or (cut_suffix s t) s

abbrev on_first : ℕ → Text × Text → Text × Text
on_first x (a, b) = (x ∷ a, b)

-- `Cut` at the first occurrence of a byte.
unfoldable pub cut : Text → ℕ → Option (Text × Text)
cut [] c = none
cut (x ∷ s) c = if eqb x c then some ([], s) else Option.map (on_first x) (cut s c)

unfoldable pub contains : Text → ℕ → Bool
contains [] c = false
contains (x ∷ s) c = eqb x c || contains s c

unfoldable pub contains_any : Text → Text → Bool
contains_any [] cs = false
contains_any (x ∷ s) cs = contains cs x || contains_any s cs

abbrev pub prepend : ℕ → List Text → List Text
prepend x [] = (x ∷ []) ∷ []
prepend x (p ∷ ps) = (x ∷ p) ∷ ps

-- `Split` at every occurrence of a byte.
unfoldable pub split : Text → ℕ → List Text
split [] c = [] ∷ []
split (x ∷ s) c = let rest = split s c in if eqb x c then [] ∷ rest else prepend x rest

-- The ASCII white space of `unicode.IsSpace`.
unfoldable pub is_space : ℕ → Bool
is_space c = eqb c 32 || (leb 9 c && leb c 13)

-- A finished token, unless it is empty.
abbrev emit : Text → List Text → List Text
emit [] ts = ts
emit (c ∷ t) ts = reverse (c ∷ t) ∷ ts

-- `token` holds the bytes of the current field, the last one first.
unfoldable pub fields_from : Text → Text → List Text
fields_from token [] = emit token []
fields_from token (c ∷ s) =
    let closed = emit token (fields_from [] s) in
    let longer = fields_from (c ∷ token) s in if is_space c then closed else longer

-- `Fields`: the runs of bytes that are no white space.
unfoldable pub fields : Text → List Text
fields s = fields_from [] s

-- `LastIndex` of a byte; `none` is -1.
unfoldable pub last_index : Text → ℕ → Option ℕ
last_index [] c = none
last_index (x ∷ s) c = elim (last_index s c) [
  | some i ↦ some (suc i)
  | none ↦ if eqb x c then some zero else none
]

-- `Index` of a text; `none` is -1.
unfoldable pub index : Text → Text → Option ℕ
index [] sub = if has_prefix [] sub then some zero else none
index (x ∷ s) sub =
    let later = Option.map suc (index s sub) in if has_prefix (x ∷ s) sub then some zero else later

-- An ASCII letter in lower case.
unfoldable pub lower : ℕ → ℕ
lower c = if leb b'A' c && leb c b'Z' then c + 32 else c

-- `EqualFold`, whose folding is that of ASCII here.
unfoldable pub equal_fold : Text → Text → Bool
equal_fold [] [] = true
equal_fold (x ∷ s) (y ∷ t) = eqb (lower x) (lower y) && equal_fold s t
equal_fold _ _ = false

-- `<` on Go strings compares bytes.
unfoldable pub text_lt : Text → Text → Bool
text_lt [] [] = false
text_lt [] (y ∷ t) = true
text_lt (x ∷ s) [] = false
text_lt (x ∷ s) (y ∷ t) = if eqb x y then text_lt s t else leb x y

unfoldable pub to_lower : Text → Text
to_lower s = map lower s

-- An ASCII letter in upper case.
unfoldable pub upper : ℕ → ℕ
upper c = if leb b'a' c && leb c b'z' then c - 32 else c

unfoldable pub to_upper : Text → Text
to_upper s = map upper s

-- `Contains` of a text.
unfoldable pub contains_text : Text → Text → Bool
contains_text s sub = elim (index s sub) [ none ↦ false | some i ↦ true ]

unfoldable pub trim_left_by : (ℕ → Bool) → Text → Text
trim_left_by p [] = []
trim_left_by p (c ∷ s) = if p c then trim_left_by p s else c ∷ s

unfoldable pub trim_right_by : (ℕ → Bool) → Text → Text
trim_right_by p s = reverse (trim_left_by p (reverse s))

-- `TrimSpace`, of ASCII white space.
unfoldable pub trim_space : Text → Text
trim_space s = trim_right_by is_space (trim_left_by is_space s)
