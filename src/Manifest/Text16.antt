-- ===== src/Manifest/Text16.antt =====
-- manifest/manifest.go: the order of keys by their UTF-16 code units.
use kei_connector_contracts.Prelude.{
  ℕ, ◌+◌, ◌-◌, ◌*◌, ◌/◌, ◌%◌, Bool, ◌&&◌, List, [], ◌∷◌, Text, ltb, leb, eqb, if◌then◌else◌,
}
use kei_connector_contracts.Strings.{text_lt}

abbrev is_tail : ℕ → ℕ → ℕ → Bool
is_tail low high c = leb low c && leb c high

-- The range of the second byte after a lead byte of three or four bytes.
abbrev second_low : ℕ → ℕ
second_low c = if eqb c 224 then 160 else if eqb c 240 then 144 else 128

abbrev second_high : ℕ → ℕ
second_high c = if eqb c 237 then 159 else if eqb c 244 then 143 else 191

-- The UTF-16 code units of a rune.
unfoldable pub units : ℕ → List ℕ → List ℕ
units r rest =
    if ltb r 65536
    then r ∷ rest
    else (55296 + (r - 65536) / 1024) ∷ (56320 + (r - 65536) % 1024) ∷ rest

unfoldable pub is_two : ℕ → ℕ → Bool
is_two c x = leb 194 c && leb c 223 && is_tail 128 191 x

unfoldable pub is_three : ℕ → ℕ → ℕ → Bool
is_three c x y =
    leb 224 c && leb c 239 && is_tail (second_low c) (second_high c) x && is_tail 128 191 y

unfoldable pub is_four : ℕ → ℕ → ℕ → ℕ → Bool
is_four c x y z =
    leb 240 c
    && leb c 244
    && is_tail (second_low c) (second_high c) x
    && is_tail 128 191 y
    && is_tail 128 191 z

-- The units of a byte that starts no longer rune: U+FFFD unless it is ASCII.
abbrev one_unit : ℕ → ℕ
one_unit c = if ltb c 128 then c else 65533

abbrev rune2 : ℕ → ℕ → ℕ
rune2 c x = (c - 192) * 64 + (x - 128)

abbrev rune3 : ℕ → ℕ → ℕ → ℕ
rune3 c x y = (c - 224) * 4096 + (x - 128) * 64 + (y - 128)

abbrev rune4 : ℕ → ℕ → ℕ → ℕ → ℕ
rune4 c x y z = (c - 240) * 262144 + (x - 128) * 4096 + (y - 128) * 64 + (z - 128)

-- `utf16.Encode([]rune(s))`
unfoldable pub utf16_of : Text → List ℕ
utf16_of [] = []
utf16_of (c ∷ []) = one_unit c ∷ []
utf16_of (c ∷ x ∷ []) =
    let one = utf16_of (x ∷ []) in if is_two c x then rune2 c x ∷ [] else one_unit c ∷ one
utf16_of (c ∷ x ∷ y ∷ []) =
    let one = utf16_of (x ∷ y ∷ []) in
    let two = utf16_of (y ∷ []) in
    if is_two c x
    then rune2 c x ∷ two
    else if is_three c x y
    then units (rune3 c x y) []
    else one_unit c ∷ one
utf16_of (c ∷ x ∷ y ∷ z ∷ s) =
    let one = utf16_of (x ∷ y ∷ z ∷ s) in
    let two = utf16_of (y ∷ z ∷ s) in
    let three = utf16_of (z ∷ s) in
    let four = utf16_of s in
    if is_two c x
    then rune2 c x ∷ two
    else if is_three c x y
    then units (rune3 c x y) three
    else if is_four c x y z
    then units (rune4 c x y z) four
    else one_unit c ∷ one

-- `jcsLess`
unfoldable pub jcs_less : Text → Text → Bool
jcs_less a b = text_lt (utf16_of a) (utf16_of b)
