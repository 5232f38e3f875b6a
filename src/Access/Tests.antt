-- ===== src/Access/Tests.antt =====
-- Access documents at concrete inputs.
use kei_connector_contracts.Prelude.{
  ◌≡◌, refl, none, some, List, [], ◌∷◌, map, Text, codes, ◌==◌, any, all, keep, find, All,
  IsDistinct, int_lt, int_eq, first_error,
}
use kei_connector_contracts.Strings.{
  has_prefix, cut_prefix, trim_prefix, has_suffix, cut_suffix, trim_suffix, cut, contains,
  contains_any, split, is_space, fields_from, fields, last_index, index, lower, equal_fold, text_lt,
  to_lower, upper, to_upper, contains_text, trim_left_by, trim_right_by, trim_space,
}
use kei_connector_contracts.Net.Escape.{
  is_digit, is_letter, is_alnum, is_hex, unhex, among, should_escape_mark, should_escape,
  escape_allowed, plain_allowed, unescape, hex_digit, escape, valid_encoded_byte,
}
use kei_connector_contracts.Net.Ip.{
  value_of, v4_field, v4_bytes, hex_run, expand, v6_tail, v6_groups, parse_v6, first_mark, parse_ip,
  to4, is_loopback, is_private, is_link_local_unicast, is_link_local_multicast, is_unspecified,
}
use kei_connector_contracts.Net.Url.{
  cut_or_all, scheme_from, get_scheme, valid_optional_port, is_ip_literal, parse_literal,
  parse_host, valid_userinfo, is_valid_user, parse_authority, with_path, split_query,
  with_authority, parse_rest, parse_no_fragment, parse, split_host_port, hostname, port,
  escaped_path,
}
use kei_connector_contracts.Contract.Catalog.{
  is_one_of, entry_of, capabilities_for, defined_capability, defined_providers, valid_provider,
  valid_status, valid_action, account_models_for, identifier, valid_id, valid_ids,
}
use kei_connector_contracts.Access.Tables.{
  credential_reference, api_write, names_of, is_read, api_reads, api_served_writes, verify_step,
  api_mode, api_only, provider_access, access_for,
}
use kei_connector_contracts.Access.Checks.{
  binary_name, version_rest, min_version, env_name, field_name, contains_secret_material,
  validate_remote_url, check_mcp, with_resource, check_mcp_identity, validate_mcp,
}
use kei_connector_contracts.Access.Validate.{
  blocks, check_api, check_cli, check_webhook, check_mcp_block, check_kind, check_credentials,
  check_steps, has_secret_block, lookup_capability, check_listed, validate_capabilities, check_rest,
  validate_mode, validate_modes, validate,
}
use kei_connector_contracts.Contract.Names.Provider
use kei_connector_contracts.Access.Types.{
  ProviderAccess, AccessMode, Step, McpMode, kind_mcp, access_schema_version, duplicate_mode,
  wrong_action, has_query,
}
use kei_connector_contracts.Access.Validate.Stable.{validate-stable}
use kei_connector_contracts.Access.Validate.Served.{Serves, validate-Serves}

checking : Unit {0}
unfolding ◌==◌ any all keep find first_error int_lt int_eq has_prefix cut_prefix trim_prefix
    has_suffix cut_suffix trim_suffix cut contains contains_any split is_space fields_from fields
    last_index index lower equal_fold text_lt to_lower upper to_upper contains_text trim_left_by
    trim_right_by trim_space is_digit is_letter is_alnum is_hex unhex among should_escape_mark
    should_escape escape_allowed plain_allowed unescape hex_digit escape valid_encoded_byte value_of
    v4_field v4_bytes hex_run expand v6_tail v6_groups parse_v6 first_mark parse_ip to4 is_loopback
    is_private is_link_local_unicast is_link_local_multicast is_unspecified cut_or_all scheme_from
    get_scheme valid_optional_port is_ip_literal parse_literal parse_host valid_userinfo
    is_valid_user parse_authority with_path split_query with_authority parse_rest parse_no_fragment
    parse split_host_port hostname port escaped_path is_one_of entry_of capabilities_for
    defined_capability defined_providers valid_provider valid_status valid_action account_models_for
    identifier valid_id valid_ids credential_reference api_write names_of is_read api_reads
    api_served_writes verify_step api_mode api_only provider_access access_for binary_name
    version_rest min_version env_name field_name contains_secret_material validate_remote_url
    check_mcp with_resource check_mcp_identity validate_mcp blocks check_api check_cli check_webhook
    check_mcp_block check_kind check_credentials check_steps has_secret_block lookup_capability
    check_listed validate_capabilities check_rest validate_mode validate_modes validate
checking = tt

abbrev step : Step
step = record { name = codes "connect"; description = codes "Add the server."; run = [] }

abbrev server : Text → Text → McpMode
server url resource = record {
  package_name = [];
  transport = codes "streamable_http";
  url = url;
  resource = resource;
  issuer = [];
}

abbrev mcp_mode : McpMode → List Text → AccessMode
mcp_mode s writes = record {
  kind = kind_mcp;
  api = none;
  cli = none;
  mcp = some s;
  webhook = none;
  credentials = record { env = codes "LINEAR_API_KEY"; field = codes "api_key" } ∷ [];
  setup = step ∷ [];
  verify = [];
  reads = codes "issue.read" ∷ codes "team.read" ∷ [];
  writes = writes;
}

abbrev document : List AccessMode → ProviderAccess
document modes = record {
  schema = access_schema_version;
  provider = Provider.linear;
  access = modes;
}

abbrev url : Text
url = codes "https://mcp.linear.app/mcp"

abbrev writes : List Text
writes = codes "issue.create" ∷ []

-- A server without a resource, and what validation leaves of it.
abbrev received : ProviderAccess
received = document (api_mode Provider.linear ∷ mcp_mode (server url []) writes ∷ [])

abbrev filled : ProviderAccess
filled = document (api_mode Provider.linear ∷ mcp_mode (server url url) writes ∷ [])

received_fills : validate received ≡ (filled, none)
unfolding checking
received_fills = refl

two_modes :
    (validate (document (mcp_mode (server url []) [] ∷ mcp_mode (server url []) [] ∷ []))).1
    ≡ some duplicate_mode
unfolding checking
two_modes = refl

read_as_write :
    (validate (document (mcp_mode (server url []) (codes "team.read" ∷ []) ∷ []))).1
    ≡ some wrong_action
unfolding checking
read_as_write = refl

url_query :
    (validate (document (mcp_mode (server (codes "https://mcp.linear.app/?a=1") []) [] ∷ []))).1
    ≡ some has_query
unfolding checking
url_query = refl

-- A server's package may hold what the other fields may not.
package_secret :
    let s = record (server url []) { package_name = codes "ghp_0123456789abcdef" } in
    (validate (document (mcp_mode s [] ∷ []))).1 ≡ none
unfolding checking
package_secret = refl

validate-stable_example : validate filled ≡ (filled, none)
validate-stable_example = validate-stable received filled received_fills

validate-Serves_example :
    All (Serves filled.provider) filled.access
    × IsDistinct (map (λ (m : AccessMode). m.kind) filled.access)
validate-Serves_example = validate-Serves received filled received_fills
