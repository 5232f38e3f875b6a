-- ===== src/Net/Escape.antt =====
-- Go's net/url: the escaping of the parts of a URL, over bytes.
use kei_connector_contracts.Prelude.{
  ℕ, ◌+◌, ◌-◌, ◌*◌, ◌/◌, ◌%◌, String, Bool, true, false, not, ◌&&◌, ◌||◌, Option, none, some, [],
  ◌∷◌, Text, codes, any, leb, eqb, if◌then◌else◌,
}
use mathlib.Core.Option

-- The parts that the program reads.
pub data Part : Type 0 where
  in_path in_segment in_host in_zone in_user in_fragment : Part

unfoldable pub is_digit : ℕ → Bool
is_digit c = leb b'0' c && leb c b'9'

unfoldable pub is_letter : ℕ → Bool
is_letter c = (leb b'a' c && leb c b'z') || (leb b'A' c && leb c b'Z')

unfoldable pub is_alnum : ℕ → Bool
is_alnum c = is_letter c || is_digit c

unfoldable pub is_hex : ℕ → Bool
is_hex c = is_digit c || (leb b'a' c && leb c b'f') || (leb b'A' c && leb c b'F')

unfoldable pub unhex : ℕ → ℕ
unhex c = if is_digit c then c - 48 else if leb b'a' c then c - 87 else c - 55

unfoldable pub among : ℕ → String → Bool
among c cs = any (eqb c) (codes cs)

-- `shouldEscape` of a byte that is no letter or digit and none of `-_.~`.
unfoldable pub should_escape_mark : ℕ → Part → Bool
should_escape_mark c in_host = not (among c "!$&'()*+,;=:[]<>\"")
should_escape_mark c in_zone = not (among c "!$&'()*+,;=:[]<>\"")
should_escape_mark c in_path = not (among c "$&+,/:;=@")
should_escape_mark c in_segment = not (among c "$&+:=@")
should_escape_mark c in_user = not (among c "$&+,;=")
should_escape_mark c in_fragment = not (among c "$&+,/:;=?@!()*")

unfoldable pub should_escape : ℕ → Part → Bool
should_escape c p = if is_alnum c || among c "-_.~" then false else should_escape_mark c p

-- Whether an escaped byte may stand in the part: a host escapes only bytes from 128 on, and a zone
-- what a host would hold unescaped.
unfoldable pub escape_allowed : Part → ℕ → Bool
escape_allowed in_host v = leb 128 v || eqb v b'%'
escape_allowed in_zone v = eqb v b'%' || eqb v b' ' || not (should_escape v in_host)
escape_allowed _ v = true

-- Whether an unescaped byte may.
unfoldable pub plain_allowed : Part → ℕ → Bool
plain_allowed in_host c = leb 128 c || not (should_escape c in_host)
plain_allowed in_zone c = leb 128 c || not (should_escape c in_zone)
plain_allowed _ c = true

-- `unescape`; `none` is an error.
unfoldable pub unescape : Part → Text → Option Text
unescape p [] = some []
unescape p (c ∷ a ∷ b ∷ s) =
    let rest = unescape p s in
    let next = unescape p (a ∷ b ∷ s) in
    let v = unhex a * 16 + unhex b in
    if eqb c b'%'
    then (if is_hex a && is_hex b && escape_allowed p v then Option.map (λ t. v ∷ t) rest else none)
    else if plain_allowed p c
    then Option.map (λ t. c ∷ t) next
    else none
unescape p (c ∷ s) =
    let next = unescape p s in
    if not (eqb c b'%') && plain_allowed p c then Option.map (λ t. c ∷ t) next else none

unfoldable pub hex_digit : ℕ → ℕ
hex_digit n = if leb 10 n then n + 55 else n + 48

-- `escape`, of the modes that escape a space as `%20`.
unfoldable pub escape : Part → Text → Text
escape p [] = []
escape p (c ∷ s) =
    let rest = escape p s in
    if should_escape c p then b'%' ∷ hex_digit (c / 16) ∷ hex_digit (c % 16) ∷ rest else c ∷ rest

-- `validEncoded` of one byte.
unfoldable pub valid_encoded_byte : Part → ℕ → Bool
valid_encoded_byte p c = among c "!$&'()*+,;=:@[]%" || not (should_escape c p)
