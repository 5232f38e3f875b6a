-- ===== src/Access/Checks.antt =====
-- access/access.go: names, secrets and remote servers. The validation of a remote server fills in
-- its default resource, so that it returns the server too.
use kei_connector_contracts.Prelude.{
  ℕ, zero, suc, Bool, true, false, not, ◌&&◌, ◌||◌, Option, none, some, List, [], ◌∷◌, map, Text,
  codes, ◌==◌, any, all, leb, eqb, if◌then◌else◌, length, refuse_if, ◌>>?◌,
}
use kei_connector_contracts.Strings.{to_lower, contains_text}
use kei_connector_contracts.Net.Escape.{is_alnum, is_digit, among}
use kei_connector_contracts.Net.Url.{parse}
use kei_connector_contracts.Contract.Catalog.{is_one_of}
use kei_connector_contracts.Access.Types.{
  McpMode, AccessError, unknown_transport, invalid_url, not_https, no_host, has_userinfo, has_query,
  has_fragment,
}

-- `^[A-Za-z0-9][A-Za-z0-9._-]{0,63}$`
unfoldable pub binary_name : Text → Bool
binary_name [] = false
binary_name (c ∷ s) = is_alnum c && all (λ x. is_alnum x || among x "._-") s && leb (length s) 63

-- `(\.[0-9]+){0,n}$` after a digit, or after a dot.
unfoldable pub version_rest : ℕ → Bool → Text → Bool
version_rest n digit [] = digit
version_rest zero digit (c ∷ s) = is_digit c && version_rest zero true s
version_rest (suc n) digit (c ∷ s) =
    let next = version_rest n false s in
    let more = version_rest (suc n) true s in
    if is_digit c then more else if digit && eqb c b'.' then next else false

-- `^[0-9]+(\.[0-9]+){0,2}$`
unfoldable pub min_version : Text → Bool
min_version s = version_rest 2 false s

abbrev is_upper : ℕ → Bool
is_upper c = leb b'A' c && leb c b'Z'

abbrev is_small : ℕ → Bool
is_small c = leb b'a' c && leb c b'z'

-- `^[A-Z_][A-Z0-9_]{0,127}$`
unfoldable pub env_name : Text → Bool
env_name [] = false
env_name (c ∷ s) =
    (is_upper c || eqb c b'_')
    && all (λ x. is_upper x || is_digit x || eqb x b'_') s
    && leb (length s) 127

-- `^[a-z][a-z0-9_]{0,63}$`
unfoldable pub field_name : Text → Bool
field_name [] = false
field_name (c ∷ s) =
    is_small c && all (λ x. is_small x || is_digit x || eqb x b'_') s && leb (length s) 63

abbrev pub secret_markers : List Text
secret_markers = map codes (
    "bearer " ∷ "basic " ∷ "api_key=" ∷ "api-key=" ∷ "secret=" ∷ "token=" ∷ "sk_" ∷ "ghp_" ∷ "gho_"
    ∷ "glsa_" ∷ "ntn_" ∷ "xoxb-" ∷ [])

-- `containsSecretMaterial`
unfoldable pub contains_secret_material : List Text → Bool
contains_secret_material values = any (λ v. any (contains_text (to_lower v)) secret_markers) values

-- `validateRemoteURL`
unfoldable pub validate_remote_url : Text → Option AccessError
validate_remote_url raw = elim (parse raw) [
  | none ↦ some invalid_url
  | some u ↦
      refuse_if (not (u.scheme == codes "https")) not_https
      >>? refuse_if (u.host == []) no_host
      >>? refuse_if u.has_user has_userinfo
      >>? refuse_if (not (u.raw_query == [])) has_query
      >>? refuse_if (not (u.fragment == [])) has_fragment
]

abbrev transports : List Text
transports = codes "streamable_http" ∷ codes "sse" ∷ []

unfoldable pub check_mcp : McpMode → Option AccessError
check_mcp m =
    refuse_if (not (is_one_of transports m.transport)) unknown_transport
    >>? validate_remote_url m.url

unfoldable pub with_resource : McpMode → McpMode
with_resource m = if m.resource == [] then record m { resource = m.url } else m

unfoldable pub check_mcp_identity : McpMode → Option AccessError
check_mcp_identity m =
    (if m.resource == m.url then none else validate_remote_url m.resource)
    >>? (if m.issuer == [] then none else validate_remote_url m.issuer)

-- `MCPMode.validate`: the mode that it leaves, and its error.
unfoldable pub validate_mcp : McpMode → McpMode × Option AccessError
validate_mcp m = elim (check_mcp m) [
  | some e ↦ (m, some e)
  | none ↦ (with_resource m, check_mcp_identity (with_resource m))
]
