-- ===== src/Contract/Samples.antt =====
-- Connectors and calls, and everything that their checks compute with.
use kei_connector_contracts.Prelude.{
  false, Option, none, some, List, [], ◌∷◌, Text, codes, ◌==◌, any, all, keep, find, pos, int_lt,
  int_eq, first_error,
}
use kei_connector_contracts.Strings.{
  has_prefix, cut_prefix, trim_prefix, has_suffix, cut_suffix, trim_suffix, cut, contains,
  contains_any, split, is_space, fields_from, fields, last_index, index, lower, equal_fold, text_lt,
  to_lower, upper, to_upper, contains_text, trim_left_by, trim_right_by, trim_space,
}
use kei_connector_contracts.Net.Escape.{
  is_digit, is_letter, is_alnum, is_hex, unhex, among, should_escape_mark, should_escape,
  escape_allowed, plain_allowed, unescape, hex_digit, escape, valid_encoded_byte,
}
use kei_connector_contracts.Net.Ip.{
  value_of, v4_field, v4_bytes, hex_run, expand, v6_tail, v6_groups, parse_v6, first_mark, parse_ip,
  to4, is_loopback, is_private, is_link_local_unicast, is_link_local_multicast, is_unspecified,
}
use kei_connector_contracts.Net.Url.{
  cut_or_all, scheme_from, get_scheme, valid_optional_port, is_ip_literal, parse_literal,
  parse_host, valid_userinfo, is_valid_user, parse_authority, with_path, split_query,
  with_authority, parse_rest, parse_no_fragment, parse, split_host_port, hostname, port,
  escaped_path,
}
use kei_connector_contracts.Json.{
  is_white, begin_value, end_value, after_value, step, is_complete, run, valid,
}
use kei_connector_contracts.Contract.Catalog.{
  is_one_of, entry_of, capabilities_for, defined_capability, defined_providers, valid_provider,
  valid_status, valid_action, account_models_for, identifier, valid_id, valid_ids,
  contains_secret_material,
}
use kei_connector_contracts.Contract.Account.{
  effective_source, shared_subject, credential_subject, check_per_user, check_shared,
  check_delegation, check_model, needs_opaque, check_source, validate_credential_binding,
}
use kei_connector_contracts.Contract.Targets.{
  method_action, is_supported, has_body, capability_method, contains_fold, check_part,
  reads_as_path, validate_relative_path, validate_path_pattern, path_matches, validate_target,
}
use kei_connector_contracts.Contract.HttpApi.{
  safe_http_name, in_range, is_reserved_name, valid_public_hostname, check_base_url,
  check_allowlists, check_limits, check_redaction, validate_http_api, is_json_object,
  validate_request,
}
use kei_connector_contracts.Contract.Grafana.{
  numeric_label, last_label, metadata_destination, is_origin, validate_grafana,
}
use kei_connector_contracts.Contract.References.{has_scheme, validate_credential_ref}
use kei_connector_contracts.Contract.Calls.{
  is_http_api, validate_http_capability_action, check_http_block, check_grafana_block,
  check_capability, validate, validate_executable, validate_call_scope, names_method, check_request,
  check_declared, validate_call_boundary, validate_call, named_target, authorize_target,
  authorize_call, validate_invocation,
}
use kei_connector_contracts.Contract.Types.{
  Capability, HttpApi, HttpInvocation, Metadata, Invocation,
}
use kei_connector_contracts.Contract.Names.Provider
use kei_connector_contracts.Contract.Names.Status
use kei_connector_contracts.Contract.Names.Action
use kei_connector_contracts.Contract.Names.Method
use kei_connector_contracts.Contract.Names.AccountModel
use kei_connector_contracts.Contract.Names.CredentialSource

-- What these checks unfold.
unfoldable pub checking : Unit {0}
unfolding ◌==◌ any all keep find first_error int_lt int_eq has_prefix cut_prefix trim_prefix
    has_suffix cut_suffix trim_suffix cut contains contains_any split is_space fields_from fields
    last_index index lower equal_fold text_lt to_lower upper to_upper contains_text trim_left_by
    trim_right_by trim_space is_digit is_letter is_alnum is_hex unhex among should_escape_mark
    should_escape escape_allowed plain_allowed unescape hex_digit escape valid_encoded_byte value_of
    v4_field v4_bytes hex_run expand v6_tail v6_groups parse_v6 first_mark parse_ip to4 is_loopback
    is_private is_link_local_unicast is_link_local_multicast is_unspecified cut_or_all scheme_from
    get_scheme valid_optional_port is_ip_literal parse_literal parse_host valid_userinfo
    is_valid_user parse_authority with_path split_query with_authority parse_rest parse_no_fragment
    parse split_host_port hostname port escaped_path is_white begin_value end_value after_value step
    is_complete run valid is_one_of entry_of capabilities_for defined_capability defined_providers
    valid_provider valid_status valid_action account_models_for identifier valid_id valid_ids
    contains_secret_material effective_source shared_subject credential_subject check_per_user
    check_shared check_delegation check_model needs_opaque check_source validate_credential_binding
    method_action is_supported has_body capability_method contains_fold check_part reads_as_path
    validate_relative_path validate_path_pattern path_matches validate_target safe_http_name
    in_range is_reserved_name valid_public_hostname check_base_url check_allowlists check_limits
    check_redaction validate_http_api is_json_object validate_request numeric_label last_label
    metadata_destination is_origin validate_grafana has_scheme validate_credential_ref is_http_api
    validate_http_capability_action check_http_block check_grafana_block check_capability validate
    validate_executable validate_call_scope names_method check_request check_declared
    validate_call_boundary validate_call named_target authorize_target authorize_call
    validate_invocation
checking = tt

abbrev pub api_sample : HttpApi
api_sample = record {
  registered_base_url = codes "https://api.example.com";
  registered_hostname = codes "api.example.com";
  allowed_methods = Method.get ∷ Method.post ∷ [];
  allowed_path_patterns = codes "/v1/items*" ∷ [];
  query_allowlist = codes "page" ∷ [];
  request_max_bytes = pos 1024;
  response_max_bytes = pos 4096;
  timeout_ms = pos 5000;
  allow_redirects = false;
  max_redirects = pos 0;
  allow_cross_host_redirects = false;
  credential_injection = record {
    location = codes "header";
    name = codes "Authorization";
    scheme = codes "Bearer";
  };
  redaction = record {
    headers = codes "authorization" ∷ [];
    query_parameters = [];
    response_fields = [];
  };
}

abbrev pub capability : Text → Text → Capability
capability name action = record { name = name; action = action; description = [] }

abbrev pub connector : Text → List Capability → Option HttpApi → Text → Text → Metadata
connector provider capabilities api source model = record {
  id = codes "c1";
  tenant_id = codes "t1";
  workspace_id = codes "w1";
  name = codes "items";
  provider = provider;
  status = Status.active;
  credential_ref = codes "ref1";
  scopes = codes "all" ∷ [];
  resources = [];
  policy = record {
    allowed_actions = [];
    allowed_resources = [];
    allowed_prefixes = [];
    gmail_include_body = false;
  };
  capabilities = capabilities;
  created_by = codes "ann";
  http_api = api;
  grafana = none;
  credential_source = source;
  subject = [];
  account_model = model;
}

abbrev pub items : Metadata
items =
    connector Provider.http_api
      (capability (codes "http.get") Action.read
        ∷ capability (codes "http.post") Action.create
        ∷ [])
      (some api_sample) [] []

abbrev pub mail : Metadata
mail =
    connector Provider.gmail (capability (codes "message.get") Action.read ∷ []) none
      CredentialSource.oauth AccountModel.per_user

abbrev pub call_of : Text → Text → Text → Option HttpInvocation → Invocation
call_of capability action resource http = record {
  tenant_id = codes "t1";
  workspace_id = codes "w1";
  subject = codes "ann";
  agent_id = codes "a1";
  connector_id = codes "c1";
  capability = capability;
  action = action;
  resource = resource;
  trace_id = codes "trace1";
  idempotency_key = [];
  http = http;
}

abbrev pub new_item : HttpInvocation
new_item = record {
  method = Method.post;
  path = codes "/v1/items";
  query = (codes "page", codes "2" ∷ []) ∷ [];
  content_type = codes "application/json";
  body = codes "{\"name\": [1, true]}";
}

abbrev pub list_items : HttpInvocation
list_items = record {
  method = Method.get;
  path = codes "/v1/items/7";
  query = [];
  content_type = [];
  body = [];
}

abbrev pub post_call : Invocation
post_call = call_of (codes "http.post") Action.create (codes "items") (some new_item)

abbrev pub get_call : Invocation
get_call = call_of (codes "http.get") Action.read (codes "items") (some list_items)

abbrev pub mail_call : Invocation
mail_call = call_of (codes "message.get") Action.read (codes "m1") none
