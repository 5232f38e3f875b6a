-- ===== src/Net/Ip.antt =====
-- Go's net: the parsing of IP addresses and their classes. An address is its 16 bytes; an IPv4
-- address a.b.c.d is ::ffff:a.b.c.d.
use kei_connector_contracts.Prelude.{
  ℕ, zero, suc, ◌+◌, ◌-◌, ◌*◌, ◌/◌, ◌%◌, Bool, true, false, not, ◌&&◌, ◌||◌, Option, none, some,
  List, [], ◌∷◌, ◌++◌, Text, codes, ◌==◌, all, ltb, leb, eqb, if◌then◌else◌, length, drop,
}
use mathlib.Core.Option
use kei_connector_contracts.Net.Escape.{is_digit, is_hex, unhex}
use kei_connector_contracts.Strings.{split, contains, has_prefix}

abbrev pub Ip : Type 0
Ip = List ℕ

abbrev pub v4_prefix : Ip
v4_prefix = 0 ∷ 0 ∷ 0 ∷ 0 ∷ 0 ∷ 0 ∷ 0 ∷ 0 ∷ 0 ∷ 0 ∷ 255 ∷ 255 ∷ []

-- The value of a run of digits of a base.
unfoldable pub value_of : ℕ → ℕ → Text → ℕ
value_of base acc [] = acc
value_of base acc (c ∷ s) = value_of base (acc * base + unhex c) s

-- A decimal field of an IPv4 address: no leading zero, at most 255.
unfoldable pub v4_field : Text → Option ℕ
v4_field s =
    let leading = has_prefix s (b'0' ∷ []) && leb 2 (length s) in
    if all is_digit s
      && leb 1 (length s)
      && leb (length s) 3
      && not leading
      && leb (value_of 10 0 s) 255
    then some (value_of 10 0 s)
    else none

-- `parseIPv4Fields`
unfoldable pub v4_bytes : List Text → Option Ip
v4_bytes (a ∷ b ∷ c ∷ d ∷ []) = elim (v4_field a) [
  | none ↦ none
  | some a ↦ elim (v4_field b) [
    | none ↦ none
    | some b ↦ elim (v4_field c) [
      | none ↦ none
      | some c ↦ Option.map (λ d. a ∷ b ∷ c ∷ d ∷ []) (v4_field d)
    ]
  ]
]
v4_bytes _ = none

-- The digits of a group, and what follows them.
unfoldable pub hex_run : Text → Text × Text
hex_run [] = ([], [])
hex_run (c ∷ s) = let (run, rest) = hex_run s in if is_hex c then (c ∷ run, rest) else ([], c ∷ s)

-- The bytes before the `::` and those after it, once one was seen.
pub record Groups : Type 0 where
  pub before : Ip
  pub after : Option Ip

abbrev add_bytes : Ip → Groups → Groups
add_bytes bs g = elim g.after [
  | none ↦ record { before = g.before ++ bs; after = none }
  | some a ↦ record { before = g.before; after = some (a ++ bs) }
]

abbrev is_open : Groups → Bool
is_open g = elim g.after [ none ↦ true | some a ↦ false ]

abbrev opened : Groups → Groups
opened g = record { before = g.before; after = some [] }

abbrev pub zeros : ℕ → Ip
zeros zero = []
zeros (suc n) = 0 ∷ zeros n

-- `::` stands for at least one field of zeros.
unfoldable pub expand : Groups → Option Ip
expand g = elim g.after [
  | none ↦ if eqb (length g.before) 16 then some g.before else none
  | some a ↦
      let n = length g.before + length a in
      if ltb n 16 then some (g.before ++ (zeros (16 - n) ++ a)) else none
]

-- The trailing IPv4 address.
unfoldable pub v6_tail : Groups → ℕ → Text → Option Ip
v6_tail g left s =
    if ltb left 2 || (is_open g && not (eqb left 2))
    then none
    else elim (v4_bytes (split s b'.')) [ none ↦ none | some bs ↦ expand (add_bytes bs g) ]

-- The groups of an IPv6 address, of which at most `left` more fit.
unfoldable pub v6_groups : ℕ → Groups → Text → Option Ip
v6_groups zero g s = none
v6_groups (suc left) g s =
    let (run, rest) = hex_run s in
    let v = value_of 16 0 run in
    let g' = add_bytes (v / 256 ∷ v % 256 ∷ []) g in
    if run == [] || ltb 4 (length run) then none else elim rest [
      | [] ↦ expand g'
      | c ∷ t ↦
          if eqb c b'.' then v6_tail g (suc left) s else if not (eqb c b':') then none else elim t [
            | [] ↦ none
            | d ∷ u ↦
                if not (eqb d b':')
                then v6_groups left g' (d ∷ u)
                else if not (is_open g')
                then none
                else elim u [ [] ↦ expand (opened g') | e ∷ w ↦ v6_groups left (opened g') (e ∷ w) ]
          ]
    ]

unfoldable pub parse_v6 : Text → Option Ip
parse_v6 s =
    let start : Groups = record { before = []; after = none } in
    if has_prefix s (codes "::")
    then (if s == codes "::" then some (zeros 16) else v6_groups 8 (opened start) (drop 2 s))
    else v6_groups 8 start s

-- Which of `.`, `:` and `%` comes first.
unfoldable pub first_mark : Text → ℕ
first_mark [] = 0
first_mark (c ∷ s) = if eqb c b'.' || eqb c b':' || eqb c b'%' then c else first_mark s

-- `ParseAddr` of an address without a zone, and `ParseIP`, which refuses a zone.
unfoldable pub parse_ip : Text → Option Ip
parse_ip s =
    if eqb (first_mark s) b'.'
    then Option.map (λ a. v4_prefix ++ a) (v4_bytes (split s b'.'))
    else if eqb (first_mark s) b':' && not (contains s b'%')
    then parse_v6 s
    else none

-- `To4`
unfoldable pub to4 : Ip → Option Ip
to4 ip = if has_prefix ip v4_prefix then some (drop 12 ip) else none

abbrev pub byte_at : ℕ → Ip → ℕ
byte_at n [] = 0
byte_at zero (b ∷ ip) = b
byte_at (suc n) (b ∷ ip) = byte_at n ip

unfoldable pub is_loopback : Ip → Bool
is_loopback ip = elim (to4 ip) [ some a ↦ eqb (byte_at 0 a) 127 | none ↦ ip == zeros 15 ++ 1 ∷ [] ]

unfoldable pub is_private : Ip → Bool
is_private ip = elim (to4 ip) [
  | some a ↦
      eqb (byte_at 0 a) 10
      || (eqb (byte_at 0 a) 172 && eqb (byte_at 1 a / 16) 1)
      || (eqb (byte_at 0 a) 192 && eqb (byte_at 1 a) 168)
  | none ↦ eqb (byte_at 0 ip / 2) 126
]

unfoldable pub is_link_local_unicast : Ip → Bool
is_link_local_unicast ip = elim (to4 ip) [
  | some a ↦ eqb (byte_at 0 a) 169 && eqb (byte_at 1 a) 254
  | none ↦ eqb (byte_at 0 ip) 254 && eqb (byte_at 1 ip / 64) 2
]

unfoldable pub is_link_local_multicast : Ip → Bool
is_link_local_multicast ip = elim (to4 ip) [
  | some a ↦ eqb (byte_at 0 a) 224 && eqb (byte_at 1 a) 0 && eqb (byte_at 2 a) 0
  | none ↦ eqb (byte_at 0 ip) 255 && eqb (byte_at 1 ip % 16) 2
]

unfoldable pub is_unspecified : Ip → Bool
is_unspecified ip = ip == zeros 16 || ip == v4_prefix ++ zeros 4
