-- ===== src/Contract/Calls.antt =====
-- contract/contract.go: the validation of metadata and of calls.
pub mod Laws
pub mod Authorized
pub mod Requests
pub mod Executable
use kei_connector_contracts.Prelude.{
  Bool, true, false, not, ◌&&◌, ◌||◌, Option, none, some, List, [], ◌∷◌, Text, ◌==◌, all, find,
  if◌then◌else◌, is_empty, refuse_if, ◌>>?◌, first_error,
}
use kei_connector_contracts.Contract.Types.{
  Capability, Metadata, Invocation, HttpInvocation, ContractError, unsupported_provider,
  invalid_status, http_api_required, http_api_misplaced, grafana_required, grafana_misplaced,
  no_scope, no_capability, secret_material, invalid_action, method_action_mismatch, not_executable,
  not_active, not_found, no_resource, wrong_subject, http_required, method_mismatch, no_http_method,
  action_mismatch, not_declared,
}
use kei_connector_contracts.Contract.Names.Provider
use kei_connector_contracts.Contract.Names.CredentialSource
use kei_connector_contracts.Contract.Names.Status
use kei_connector_contracts.Contract.Catalog.{
  valid_provider, valid_status, valid_action, valid_id, valid_ids, defined_capability,
  contains_secret_material,
}
use kei_connector_contracts.Contract.Account.{effective_source, validate_credential_binding}
use kei_connector_contracts.Contract.Targets.{method_action, capability_method, validate_target}
use kei_connector_contracts.Contract.HttpApi.{validate_http_api, validate_request}
use kei_connector_contracts.Contract.Grafana.{validate_grafana}

unfoldable pub is_http_api : Metadata → Bool
is_http_api m = m.provider == Provider.http_api

-- `validateHTTPCapabilityAction`
unfoldable pub validate_http_capability_action : Capability → Option ContractError
validate_http_capability_action c = elim (capability_method c.name) [
  | none ↦ none
  | some method ↦ elim (method_action method) [
    | none ↦ none
    | some action ↦ refuse_if (not (c.action == action)) method_action_mismatch
  ]
]

-- The block that only one provider carries.
unfoldable pub check_http_block : Metadata → Option ContractError
check_http_block m = elim m.http_api [
  | none ↦ refuse_if (is_http_api m) http_api_required
  | some api ↦ if is_http_api m then validate_http_api api else some http_api_misplaced
]

unfoldable pub check_grafana_block : Metadata → Option ContractError
check_grafana_block m = elim m.grafana [
  | none ↦ refuse_if (m.provider == Provider.grafana) grafana_required
  | some g ↦ if m.provider == Provider.grafana then validate_grafana g else some grafana_misplaced
]

unfoldable pub check_capability : Metadata → Capability → Option ContractError
check_capability m c =
    refuse_if (contains_secret_material c.description) secret_material
    >>? valid_id c.name
    >>? refuse_if (not (valid_action c.action)) invalid_action
    >>? (if is_http_api m then validate_http_capability_action c else none)

-- `Metadata.Validate`
unfoldable pub validate : Metadata → Option ContractError
validate m =
    valid_ids (m.id ∷ m.tenant_id ∷ m.workspace_id ∷ m.name ∷ m.credential_ref ∷ m.created_by ∷ [])
    >>? refuse_if (not (valid_provider m.provider)) unsupported_provider
    >>? refuse_if (not (valid_status m.status)) invalid_status
    >>? validate_credential_binding m
    >>? check_http_block m
    >>? check_grafana_block m
    >>? refuse_if (is_empty m.scopes) no_scope
    >>? refuse_if (is_empty m.capabilities) no_capability
    >>? first_error (check_capability m) m.capabilities

-- `Metadata.ValidateExecutable`
unfoldable pub validate_executable : Metadata → Option ContractError
validate_executable m =
    refuse_if (not (all (defined_capability m.provider) m.capabilities)) not_executable

-- `validateCallScope`
unfoldable pub validate_call_scope : Metadata → Invocation → Option ContractError
validate_call_scope m call =
    valid_ids (
      call.tenant_id ∷ call.workspace_id ∷ call.subject ∷ call.agent_id ∷ call.connector_id
      ∷ call.capability ∷ call.trace_id ∷ [])
    >>? refuse_if (not (m.status == Status.active)) not_active
    >>? refuse_if
        (not (call.tenant_id == m.tenant_id)
          || not (call.workspace_id == m.workspace_id)
          || not (call.connector_id == m.id))
        not_found
    >>? refuse_if (call.resource == []) no_resource
    >>? refuse_if
        (m.account_model == []
          && effective_source m == CredentialSource.oauth
          && not (call.subject == m.subject))
        wrong_subject

-- The method of the request is the one that the capability names.
unfoldable pub names_method : Text → Text → Bool
names_method capability method = elim (capability_method capability) [
  | none ↦ false
  | some named ↦ named == method
]

-- The request of an http_api call, where it carries one. The code reads the connector's block
-- without a test, after the metadata has been validated: a validated http_api connector has one.
unfoldable pub check_request : Metadata → Invocation → Option ContractError
check_request m call = elim call.http [
  | none ↦ none
  | some request ↦ if not (is_http_api m) then none else elim m.http_api [
    | none ↦ some http_api_required
    | some api ↦
        refuse_if (not (names_method call.capability request.method)) method_mismatch
        >>? validate_request api request
  ]
]

-- The first capability of the name decides.
unfoldable pub check_declared : List Capability → Invocation → Option ContractError
check_declared capabilities call = elim (find (λ c. c.name == call.capability) capabilities) [
  | none ↦ some not_declared
  | some c ↦ refuse_if (not (c.action == call.action)) action_mismatch
]

-- `validateCallBoundary`
unfoldable pub validate_call_boundary : Metadata → Invocation → Option ContractError
validate_call_boundary m call =
    validate_call_scope m call >>? check_request m call >>? check_declared m.capabilities call

abbrev has_request : Invocation → Bool
has_request call = elim call.http [ none ↦ false | some request ↦ true ]

-- `ValidateCall`
unfoldable pub validate_call : Metadata → Invocation → Option ContractError
validate_call m call =
    validate m
    >>? validate_executable m
    >>? validate_call_boundary m call
    >>? refuse_if (is_http_api m && not (has_request call)) http_required

-- The target that an http_api call without a request is authorized on.
unfoldable pub named_target : Text → Text → HttpInvocation
named_target method path = record {
  method = method;
  path = path;
  query = [];
  content_type = [];
  body = [];
}

-- What `AuthorizeCall` checks of an http_api call without a request.
unfoldable pub authorize_target : Metadata → Invocation → Option ContractError
authorize_target m call = validate_call_scope m call >>? elim (capability_method call.capability) [
  | none ↦ some no_http_method
  | some method ↦ elim m.http_api [
    | none ↦ some http_api_required
    | some api ↦ validate_target api (named_target method call.resource)
  ]
]

-- `AuthorizeCall`
unfoldable pub authorize_call : Metadata → Invocation → Option ContractError
authorize_call m call =
    validate m
    >>? (if is_http_api m && not (has_request call) then authorize_target m call else none)
    >>? validate_call_boundary m call

-- `ValidateInvocation`
unfoldable pub validate_invocation : Invocation → Option ContractError
validate_invocation call =
    valid_ids (
      call.tenant_id ∷ call.workspace_id ∷ call.subject ∷ call.agent_id ∷ call.connector_id
      ∷ call.capability ∷ call.trace_id ∷ [])
    >>? refuse_if (not (valid_action call.action)) invalid_action
    >>? refuse_if (call.resource == []) no_resource
    >>? (if call.idempotency_key == [] then none else valid_id call.idempotency_key)
