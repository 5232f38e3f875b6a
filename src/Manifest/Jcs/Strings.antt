-- ===== src/Manifest/Jcs/Strings.antt =====
-- manifest/manifest.go: a serialized string reads back.
use kei_connector_contracts.Prelude.{
  ℕ, zero, suc, ◌+◌, ◌*◌, ◌/◌, ◌%◌, ◌<◌, ◌≡◌, refl, ap, ◌∙◌, Option, none, some, [], ◌∷◌, ◌++◌,
  arith, Text, codes, eqb, if◌then◌else◌,
}
use kei_connector_contracts.Net.Escape.{is_digit, unhex}
use kei_connector_contracts.Manifest.Jcs.{hex_lower, escape_byte, escape_text, jcs_string}
use mathlib.Core.List.{append_assoc}

-- A reader of JSON strings, after the opening quote: what it is in the middle of.
pub data Reading : Type 0 where
  plain escaped : Reading
  hex : ℕ → ℕ → Reading

abbrev push : ℕ → Option (Text × Text) → Option (Text × Text)
push c none = none
push c (some (s, rest)) = some (c ∷ s, rest)

-- The byte of an escape letter.
unfoldable pub unescape_letter : ℕ → ℕ
unescape_letter c =
    if eqb c b'b'
    then 8
    else if eqb c b't'
    then 9
    else if eqb c b'n'
    then 10
    else if eqb c b'f'
    then 12
    else if eqb c b'r'
    then 13
    else c

-- The string and what follows its closing quote.
unfoldable pub read : Reading → Text → Option (Text × Text)
read st [] = none
read plain (c ∷ s) =
    let inside = read escaped s in
    let next = push c (read plain s) in
    if eqb c b'"' then some ([], s) else if eqb c b'\\' then inside else next
read escaped (c ∷ s) =
    let digits = read (hex 3 0) s in
    let next = push (unescape_letter c) (read plain s) in if eqb c b'u' then digits else next
read (hex zero acc) (c ∷ s) = push (acc * 16 + unhex c) (read plain s)
read (hex (suc n) acc) (c ∷ s) = read (hex n (acc * 16 + unhex c)) s

digits_of :
    (c : ℕ) → c < 32 → (unhex (hex_lower (c / 16)) ≡ c / 16) × (unhex (hex_lower (c % 16)) ≡ c % 16)
unfolding unhex is_digit
digits_of c h = (ground arith, ground arith)

control-read :
    (c : ℕ) (rest : Text)
    → c < 32
    → read plain (codes "\\u00" ++ (hex_lower (c / 16) ∷ hex_lower (c % 16) ∷ rest))
      ≡ push c (read plain rest)
unfolding read unhex is_digit
control-read c rest h = ap (λ (n : ℕ). push n (read plain rest)) (ground arith)

escape_byte-read :
    (c : ℕ) (rest : Text) → read plain (escape_byte c ++ rest) ≡ push c (read plain rest)
unfolding read escape_byte unescape_letter
escape_byte-read c rest = ground (arith, control-read c rest)

escape_text-read : (s rest : Text) → read plain (escape_text s ++ (b'"' ∷ rest)) ≡ some (s, rest)
unfolding escape_text read
escape_text-read [] rest = refl
escape_text-read (c ∷ s) rest =
    ap (read plain) (append_assoc (escape_byte c) (escape_text s) (b'"' ∷ rest))
    ∙ escape_byte-read c (escape_text s ++ (b'"' ∷ rest))
    ∙ ap (push c) (escape_text-read s rest)

-- A serialized string reads back as the string, whatever follows it.
pub jcs_string-read :
    (s rest : Text)
    → (body : Text) × (jcs_string s ++ rest ≡ b'"' ∷ body) × (read plain body ≡ some (s, rest))
unfolding jcs_string
jcs_string-read s rest = (
  escape_text s ++ (b'"' ∷ rest),
  ap (λ t. b'"' ∷ t) (append_assoc (escape_text s) (b'"' ∷ []) rest),
  escape_text-read s rest,
)
