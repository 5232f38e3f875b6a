-- ===== src/Contract/HttpApi.antt =====
-- contract/http_api.go: the configuration of an http_api connector, and its requests.
use kei_connector_contracts.Prelude.{
  Bool, false, not, ◌&&◌, ◌||◌, Option, none, some, [], ◌∷◌, ◌++◌, Text, codes, ◌==◌, any, all, leb,
  if◌then◌else◌, length, is_empty, ℤ, pos, int_lt, int_eq, refuse_if, ◌>>?◌, first_error,
}
use kei_connector_contracts.Strings.{
  has_prefix, has_suffix, trim_suffix, contains_any, contains_text, to_lower, equal_fold,
  trim_space,
}
use kei_connector_contracts.Net.Escape.{is_alnum, among}
use kei_connector_contracts.Net.Ip.{
  parse_ip, is_loopback, is_private, is_link_local_unicast, is_unspecified,
}
use kei_connector_contracts.Net.Url.{parse, hostname}
use kei_connector_contracts.Json.{valid}
use kei_connector_contracts.Contract.Types.{
  HttpApi, HttpInvocation, ContractError, secret_material, invalid_base_url, invalid_hostname,
  no_method, method_not_allowed, no_path_pattern, invalid_query_name, invalid_limits,
  invalid_timeout, invalid_redirects, cross_host_redirects, invalid_injection, invalid_redaction,
  invalid_response_field, header_not_redacted, body_not_taken, invalid_content_type, body_too_large,
  body_not_object,
}
use kei_connector_contracts.Contract.Catalog.{contains_secret_material}
use kei_connector_contracts.Contract.Targets.{
  is_supported, has_body, contains_fold, validate_path_pattern, validate_target,
}

-- `^[A-Za-z0-9][A-Za-z0-9._-]{0,127}$`
unfoldable pub safe_http_name : Text → Bool
safe_http_name [] = false
safe_http_name (c ∷ s) =
    is_alnum c && all (λ x. is_alnum x || among x "._-") s && leb (length s) 127

abbrev pub max_body_bytes : ℤ
max_body_bytes = pos 10485760

abbrev pub max_timeout_ms : ℤ
max_timeout_ms = pos 30000

abbrev pub max_redirect_count : ℤ
max_redirect_count = pos 3

-- `0 < n <= max`
unfoldable pub in_range : ℤ → ℤ → Bool
in_range n max = int_lt (pos 0) n && not (int_lt max n)

unfoldable pub is_reserved_name : Text → Bool
is_reserved_name host =
    host == []
    || host == codes "localhost"
    || host == codes "metadata"
    || has_prefix host (codes "metadata.")
    || has_suffix host (codes ".localhost")
    || has_suffix host (codes ".local")
    || has_suffix host (codes ".internal")

-- `validPublicHostname`
unfoldable pub valid_public_hostname : Text → Bool
valid_public_hostname name =
    let host = trim_suffix (to_lower name) (codes ".") in
    if is_reserved_name host then false else elim (parse_ip host) [
      | some ip ↦
          not (is_loopback ip)
          && not (is_private ip)
          && not (is_link_local_unicast ip)
          && not (is_unspecified ip)
      | none ↦ not (contains_text host (codes "..")) && not (has_prefix host (codes "."))
    ]

unfoldable pub check_base_url : HttpApi → Option ContractError
check_base_url api = elim (parse api.registered_base_url) [
  | none ↦ some invalid_base_url
  | some u ↦
      refuse_if
        (not (u.scheme == codes "https")
          || u.has_user
          || u.host == []
          || not (u.raw_query == [])
          || not (u.fragment == []))
        invalid_base_url
      >>? refuse_if
          (not (valid_public_hostname (hostname u))
            || not (equal_fold (hostname u) api.registered_hostname))
          invalid_hostname
]

unfoldable pub check_allowlists : HttpApi → Option ContractError
check_allowlists api =
    refuse_if (is_empty api.allowed_methods) no_method
    >>? refuse_if (not (all is_supported api.allowed_methods)) method_not_allowed
    >>? refuse_if (is_empty api.allowed_path_patterns) no_path_pattern
    >>? first_error validate_path_pattern api.allowed_path_patterns
    >>? refuse_if (not (all safe_http_name api.query_allowlist)) invalid_query_name

unfoldable pub check_limits : HttpApi → Option ContractError
check_limits api =
    refuse_if
      (not (in_range api.request_max_bytes max_body_bytes)
        || not (in_range api.response_max_bytes max_body_bytes))
      invalid_limits
    >>? refuse_if (not (in_range api.timeout_ms max_timeout_ms)) invalid_timeout
    >>? refuse_if
        (int_lt api.max_redirects (pos 0)
          || int_lt max_redirect_count api.max_redirects
          || (not api.allow_redirects && not (int_eq api.max_redirects (pos 0))))
        invalid_redirects
    >>? refuse_if api.allow_cross_host_redirects cross_host_redirects

unfoldable pub check_redaction : HttpApi → Option ContractError
check_redaction api =
    refuse_if
      (not (api.credential_injection.location == codes "header")
        || not (safe_http_name api.credential_injection.name))
      invalid_injection
    >>? refuse_if
        (not (all safe_http_name (api.redaction.headers ++ api.redaction.query_parameters)))
        invalid_redaction
    >>? refuse_if
        (any (λ f. f == [] || contains_any f (codes "\r\n")) api.redaction.response_fields)
        invalid_response_field
    >>? refuse_if (not (contains_fold api.redaction.headers api.credential_injection.name))
        header_not_redacted

-- `HTTPAPI.Validate`
unfoldable pub validate_http_api : HttpApi → Option ContractError
validate_http_api api =
    refuse_if
      (contains_secret_material api.registered_base_url
        || contains_secret_material api.registered_hostname
        || contains_secret_material api.credential_injection.scheme)
      secret_material
    >>? check_base_url api
    >>? check_allowlists api
    >>? check_limits api
    >>? check_redaction api

unfoldable pub is_json_object : Text → Bool
is_json_object body = valid body && has_prefix (trim_space body) (codes "{")

-- `HTTPAPI.ValidateInvocation`
unfoldable pub validate_request : HttpApi → HttpInvocation → Option ContractError
validate_request api call =
    validate_target api call
    >>? (if not (has_body call.method)
        then refuse_if (not (call.content_type == []) || not (call.body == [])) body_not_taken
        else refuse_if (not (call.content_type == codes "application/json")) invalid_content_type
          >>? refuse_if (int_lt api.request_max_bytes (pos (length call.body))) body_too_large
          >>? refuse_if (not (is_json_object call.body)) body_not_object)
