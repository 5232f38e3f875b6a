-- ===== src/Canonical.antt =====
-- canonical/resource.go: the canonical resource URI of an MCP server.
mod Tests
use kei_connector_contracts.Prelude.{
  Bool, not, ◌&&◌, Option, none, some, [], ◌++◌, Text, codes, ◌==◌, eqb, if◌then◌else◌,
}
use kei_connector_contracts.Strings.{contains, equal_fold, to_lower, trim_right_by}
use kei_connector_contracts.Net.Url.{Url, parse, hostname, port, escaped_path}

-- Whether the URL has the shape that `Resource` accepts.
unfoldable pub is_resource_url : Url → Bool
is_resource_url u =
    equal_fold u.scheme (codes "https")
    && not (u.host == [])
    && not u.has_user
    && u.fragment == []
    && u.raw_query == []
    && not u.force_query

abbrev bracketed : Text → Text
bracketed host = codes "[" ++ (host ++ codes "]")

-- `net.JoinHostPort`
unfoldable pub join_host_port : Text → Text → Text
join_host_port host port =
    (if contains host b':' then bracketed host else host) ++ (codes ":" ++ port)

-- The host with its port, unless that is the default one.
unfoldable pub canonical_host : Text → Text → Text
canonical_host host port =
    if not (port == []) && not (port == codes "443")
    then join_host_port host port
    else if contains host b':'
    then bracketed host
    else host

unfoldable pub canonical_path : Text → Text
canonical_path p =
    let trimmed = if p == codes "/" then p else trim_right_by (eqb b'/') p in
    if trimmed == [] then codes "/" else trimmed

-- `Resource`; `none` is `ErrInvalidResource`.
unfoldable pub resource : Text → Option Text
resource raw = elim (parse raw) [
  | none ↦ none
  | some u ↦
      if is_resource_url u
      then some (
          codes "https://"
          ++ (canonical_host (to_lower (hostname u)) (port u) ++ canonical_path (escaped_path u)))
      else none
]
