-- ===== src/Contract/Types.antt =====
-- contract/*.go: the metadata of a connector and the invocation of one. The closed string types of
-- the code (Provider, Status, Action and the like) are the strings, since a decoded value need not
-- be one of the listed ones.
use kei_connector_contracts.Prelude.{Bool, Option, List, Text, ℤ}

pub record Capability : Type 0 where
  pub name : Text
  pub action : Text
  pub description : Text

pub record PolicyAttributes : Type 0 where
  pub allowed_actions : List Text
  pub allowed_resources : List Text
  pub allowed_prefixes : List Text
  pub gmail_include_body : Bool

pub record CredentialInjection : Type 0 where
  pub location : Text
  pub name : Text
  pub scheme : Text

pub record RedactionRules : Type 0 where
  pub headers : List Text
  pub query_parameters : List Text
  pub response_fields : List Text

pub record HttpApi : Type 0 where
  pub registered_base_url : Text
  pub registered_hostname : Text
  pub allowed_methods : List Text
  pub allowed_path_patterns : List Text
  pub query_allowlist : List Text
  pub request_max_bytes : ℤ
  pub response_max_bytes : ℤ
  pub timeout_ms : ℤ
  pub allow_redirects : Bool
  pub max_redirects : ℤ
  pub allow_cross_host_redirects : Bool
  pub credential_injection : CredentialInjection
  pub redaction : RedactionRules

-- The query is a map from names to values.
pub record HttpInvocation : Type 0 where
  pub method : Text
  pub path : Text
  pub query : List (Text × List Text)
  pub content_type : Text
  pub body : Text

pub record GrafanaConfig : Type 0 where
  pub base_url : Text

-- The fields that the contract reads: the times and the setup configuration are left out.
pub record Metadata : Type 0 where
  pub id : Text
  pub tenant_id : Text
  pub workspace_id : Text
  pub name : Text
  pub provider : Text
  pub status : Text
  pub credential_ref : Text
  pub scopes : List Text
  pub resources : List Text
  pub policy : PolicyAttributes
  pub capabilities : List Capability
  pub created_by : Text
  pub http_api : Option HttpApi
  pub grafana : Option GrafanaConfig
  pub credential_source : Text
  pub subject : Text
  pub account_model : Text

pub record Invocation : Type 0 where
  pub tenant_id : Text
  pub workspace_id : Text
  pub subject : Text
  pub agent_id : Text
  pub connector_id : Text
  pub capability : Text
  pub action : Text
  pub resource : Text
  pub trace_id : Text
  pub idempotency_key : Text
  pub http : Option HttpInvocation

-- The errors of the validators.
pub data ContractError : Type 0 where
  invalid_id unsupported_provider invalid_status : ContractError
  http_api_required http_api_misplaced grafana_required grafana_misplaced : ContractError
  no_scope no_capability secret_material invalid_action method_action_mismatch : ContractError
  not_executable : ContractError
  unsupported_source source_not_opaque no_declared_subject model_not_allowed : ContractError
  model_needs_oauth model_needs_opaque subject_declared subject_not_shared : ContractError
  invalid_base_url invalid_hostname no_method method_not_allowed no_path_pattern : ContractError
  path_not_relative invalid_escape path_traversal pattern_has_query invalid_query_name :
      ContractError
  invalid_limits invalid_timeout invalid_redirects cross_host_redirects : ContractError
  invalid_injection invalid_redaction invalid_response_field header_not_redacted : ContractError
  path_not_allowed query_not_allowed body_not_taken invalid_content_type : ContractError
  body_too_large body_not_object : ContractError
  invalid_origin metadata_address : ContractError
  not_active not_found no_resource wrong_subject : ContractError
  http_required method_mismatch no_http_method action_mismatch not_declared : ContractError
  no_reference legacy_namespace reference_not_opaque invalid_characters credential_material :
      ContractError
