-- ===== src/Net/Url.antt =====
-- Go's net/url: `Parse` and the accessors that the program calls, over bytes.
use kei_connector_contracts.Prelude.{
  ℕ, zero, suc, Bool, true, false, not, ◌&&◌, ◌||◌, Option, none, some, [], ◌∷◌, ◌++◌, Text, codes,
  ◌==◌, any, all, ltb, eqb, if◌then◌else◌, length, take, drop,
}
use kei_connector_contracts.Strings.{
  has_prefix, has_suffix, cut, contains, last_index, to_lower, index, trim_suffix,
}
use kei_connector_contracts.Net.Escape.{
  in_path, in_host, in_zone, in_user, in_fragment, is_digit, is_letter, is_alnum, among, unescape,
  escape, valid_encoded_byte,
}
use kei_connector_contracts.Net.Ip.{parse_v6, first_mark}
use mathlib.Core.Option

-- Of the user info only its presence is read.
pub record Url : Type 0 where
  pub scheme : Text
  pub opaque : Text
  pub has_user : Bool
  pub host : Text
  pub path : Text
  pub raw_path : Text
  pub raw_query : Text
  pub force_query : Bool
  pub fragment : Text

-- What stands before and after the first occurrence of a byte; all stands before where there is none.
unfoldable pub cut_or_all : Text → ℕ → Text × Text
cut_or_all s c = Option.get_or (cut s c) (s, [])

abbrev scheme_byte : ℕ → Bool
scheme_byte c = is_alnum c || among c "+-."

-- `getScheme` after its first byte: the scheme and the rest, if a colon ends a run of scheme bytes.
unfoldable pub scheme_from : Text → Option (Text × Text)
scheme_from [] = none
scheme_from (c ∷ s) =
    let later = Option.map (λ (a, b). (c ∷ a, b)) (scheme_from s) in
    if scheme_byte c then later else if eqb c b':' then some ([], s) else none

-- `getScheme`; the outer `none` is an error.
unfoldable pub get_scheme : Text → Option (Text × Text)
get_scheme [] = some ([], [])
get_scheme (c ∷ s) =
    if eqb c b':'
    then none
    else if is_letter c
    then some (Option.get_or (scheme_from (c ∷ s)) ([], c ∷ s))
    else some ([], c ∷ s)

-- `validOptionalPort`
unfoldable pub valid_optional_port : Text → Bool
valid_optional_port [] = true
valid_optional_port (c ∷ s) = eqb c b':' && all is_digit s

-- A bracketed host is an IPv6 address, with a zone or without one.
unfoldable pub is_ip_literal : Text → Bool
is_ip_literal s =
    let (address, rest) = cut_or_all s b'%' in
    let named = not (contains s b'%') || not (rest == []) in
    eqb (first_mark s) b':' && named && elim (parse_v6 address) [ none ↦ false | some ip ↦ true ]

abbrev unescape_literal : Text → Option Text
unescape_literal s = elim (index s (codes "%25")) [
  | none ↦ unescape in_host s
  | some i ↦ elim (unescape in_host (take i s)) [
    | none ↦ none
    | some a ↦ Option.map (λ z. a ++ z) (unescape in_zone (drop i s))
  ]
]

unfoldable pub parse_literal : Text → Option Text
parse_literal s = elim (last_index s b']') [
  | none ↦ none
  | some i ↦
      let port = drop (suc i) s in
      if not (valid_optional_port port) then none else elim (unescape_literal (take i s)) [
        | none ↦ none
        | some name ↦ if is_ip_literal name then some ((b'[' ∷ name) ++ (b']' ∷ port)) else none
      ]
]

-- `parseHost`: a colon outside brackets starts the port.
unfoldable pub parse_host : Text → Option Text
parse_host s = elim (last_index s b'[') [
  | some zero ↦ parse_literal (drop 1 s)
  | some (suc i) ↦ none
  | none ↦
      let (name, port) = cut_or_all s b':' in
      if contains s b':' && not (all is_digit port) then none else unescape in_host s
]

-- `validUserinfo`
unfoldable pub valid_userinfo : Text → Bool
valid_userinfo s = all (λ c. is_alnum c || among c "-._:~!$&'()*+,;=%@") s

unfoldable pub is_valid_user : Text → Bool
is_valid_user s =
    let (name, password) = cut_or_all s b':' in
    valid_userinfo s && elim (unescape in_user name) [
      | none ↦ false
      | some n ↦ elim (unescape in_user password) [ none ↦ false | some p ↦ true ]
    ]

-- `parseAuthority`: whether there is user info, and the host.
unfoldable pub parse_authority : Text → Option (Bool × Text)
parse_authority s = elim (last_index s b'@') [
  | none ↦ Option.map (λ h. (false, h)) (parse_host s)
  | some i ↦ elim (parse_host (drop (suc i) s)) [
    | none ↦ none
    | some h ↦ if is_valid_user (take i s) then some (true, h) else none
  ]
]

-- `setPath`
unfoldable pub with_path : Url → Text → Option Url
with_path u p = elim (unescape in_path p) [
  | none ↦ none
  | some decoded ↦
      some (record u { path = decoded; raw_path = if p == escape in_path decoded then [] else p })
]

abbrev no_url : Url
no_url = record {
  scheme = [];
  opaque = [];
  has_user = false;
  host = [];
  path = [];
  raw_path = [];
  raw_query = [];
  force_query = false;
  fragment = [];
}

-- The query, and what stands before it: a lone final `?` sets `ForceQuery`.
unfoldable pub split_query : Text → Text × Bool × Text
split_query rest =
    let (before, query) = cut_or_all rest b'?' in (before, contains rest b'?' && query == [], query)

-- The authority after `//`, and the path.
unfoldable pub with_authority : Url → Text → Option Url
with_authority u s =
    let i = Option.get_or (index s (codes "/")) (length s) in
    elim (parse_authority (take i s)) [
      | none ↦ none
      | some (user, h) ↦ with_path (record u { has_user = user; host = h }) (drop i s)
    ]

-- A URL with no scheme whose first path segment holds a colon is malformed.
unfoldable pub parse_rest : Url → Text → Option Url
parse_rest u rest =
    if not (has_prefix rest (codes "/")) && not (u.scheme == [])
    then some (record u { opaque = rest })
    else if not (has_prefix rest (codes "/")) && contains (cut_or_all rest b'/').0 b':'
    then none
    else if (not (u.scheme == []) || not (has_prefix rest (codes "///")))
        && has_prefix rest (codes "//")
    then with_authority u (drop 2 rest)
    else with_path u rest

-- `parse`, of a URL without a fragment.
unfoldable pub parse_no_fragment : Text → Option Url
parse_no_fragment s =
    if any (λ c. ltb c 32 || eqb c 127) s
    then none
    else if s == codes "*"
    then some (record no_url { path = codes "*" })
    else elim (get_scheme s) [
      | none ↦ none
      | some (scheme, rest) ↦
          let (before, force, query) = split_query rest in
          parse_rest
            (record no_url { scheme = to_lower scheme; raw_query = query; force_query = force })
            before
    ]

-- `Parse`; `none` is an error.
unfoldable pub parse : Text → Option Url
parse s =
    let (before, frag) = cut_or_all s b'#' in
    elim (parse_no_fragment before) [
      | none ↦ none
      | some u ↦ Option.map (λ f. record u { fragment = f }) (unescape in_fragment frag)
    ]

-- `splitHostPort`: the host before its port, and the port.
unfoldable pub split_host_port : Text → Text × Text
split_host_port h = elim (last_index h b':') [
  | none ↦ (h, [])
  | some i ↦ if valid_optional_port (drop i h) then (take i h, drop (suc i) h) else (h, [])
]

abbrev unbracketed : Text → Text
unbracketed h =
    if has_prefix h (codes "[") && has_suffix h (codes "]")
    then trim_suffix (drop 1 h) (codes "]")
    else h

-- `Hostname` and `Port`
unfoldable pub hostname : Url → Text
hostname u = unbracketed (split_host_port u.host).0

unfoldable pub port : Url → Text
port u = (split_host_port u.host).1

-- `EscapedPath`
unfoldable pub escaped_path : Url → Text
escaped_path u =
    if not (u.raw_path == []) && all (valid_encoded_byte in_path) u.raw_path
    then u.raw_path
    else if u.path == codes "*"
    then codes "*"
    else escape in_path u.path
