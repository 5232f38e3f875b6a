-- ===== src/Manifest/Jcs.antt =====
-- manifest/manifest.go: the serialization of RFC 8785.
pub mod Strings
pub mod Order
use kei_connector_contracts.Prelude.{
  ℕ, ◌+◌, ◌/◌, ◌%◌, Bool, true, false, List, [], ◌∷◌, ◌++◌, map, Text, codes, ltb, eqb,
  if◌then◌else◌, Try, ok, ◌>>=◌,
}
use kei_connector_contracts.Sort.{sort}
use kei_connector_contracts.Manifest.Values.{
  Value, null, boolean, number, text, array, object, Items, nil, cons, Fields, end, field,
}
use kei_connector_contracts.Manifest.Numbers.{JcsError, jcs_number}
use kei_connector_contracts.Manifest.Text16.{jcs_less}

abbrev pub hex_lower : ℕ → ℕ
hex_lower n = if ltb n 10 then n + 48 else n + 87

-- A byte of a string, escaped where the scheme asks for it.
unfoldable pub escape_byte : ℕ → Text
escape_byte c =
    if eqb c b'"'
    then codes "\\\""
    else if eqb c b'\\'
    then codes "\\\\"
    else if eqb c 8
    then codes "\\b"
    else if eqb c 9
    then codes "\\t"
    else if eqb c 10
    then codes "\\n"
    else if eqb c 12
    then codes "\\f"
    else if eqb c 13
    then codes "\\r"
    else if ltb c 32
    then codes "\\u00" ++ (hex_lower (c / 16) ∷ hex_lower (c % 16) ∷ [])
    else c ∷ []

unfoldable pub escape_text : Text → Text
escape_text [] = []
escape_text (c ∷ s) = escape_byte c ++ escape_text s

-- `jcsString`, of valid UTF-8, which a decoded string is.
unfoldable pub jcs_string : Text → Text
jcs_string s = b'"' ∷ (escape_text s ++ (b'"' ∷ []))

-- The written elements, with commas between them; the first error ends it.
unfoldable pub join_items : List (Try JcsError Text) → Try JcsError Text
join_items [] = ok []
join_items (t ∷ []) = t
join_items (t ∷ u ∷ ts) = t >>= λ a. join_items (u ∷ ts) >>= λ b. ok (a ++ (b',' ∷ b))

-- The members of an object by their keys.
unfoldable pub key_less : Text × Try JcsError Text → Text × Try JcsError Text → Bool
key_less (a, x) (b, y) = jcs_less a b

-- A key and its written value.
unfoldable pub member : Text × Try JcsError Text → Try JcsError Text
member (k, t) = t >>= λ v. ok (jcs_string k ++ (b':' ∷ v))

unfoldable pub bracket : ℕ → ℕ → Try JcsError Text → Try JcsError Text
bracket open_mark close_mark t = t >>= λ s. ok (open_mark ∷ (s ++ (close_mark ∷ [])))

-- The members in the order of their keys, in braces.
unfoldable pub write_members : List (Text × Try JcsError Text) → Try JcsError Text
write_members ms = bracket b'{' b'}' (join_items (map member (sort key_less ms)))

-- `jcsWrite`
unfoldable mutual
  pub jcs : Value → Try JcsError Text
  jcs null = ok (codes "null")
  jcs (boolean true) = ok (codes "true")
  jcs (boolean false) = ok (codes "false")
  jcs (number n) = jcs_number n
  jcs (text s) = ok (jcs_string s)
  jcs (array xs) = bracket b'[' b']' (join_items (jcs_items xs))
  jcs (object fs) = write_members (jcs_fields fs)

  pub jcs_items : Items → List (Try JcsError Text)
  jcs_items nil = []
  jcs_items (cons x xs) = jcs x ∷ jcs_items xs

  pub jcs_fields : Fields → List (Text × Try JcsError Text)
  jcs_fields end = []
  jcs_fields (field k v fs) = (k, jcs v) ∷ jcs_fields fs
