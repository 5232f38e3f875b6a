-- ===== src/Contract/Tests.antt =====
-- The contract of connectors at concrete inputs.
use kei_connector_contracts.Prelude.{
  ◌≤◌, ◌≡◌, refl, ◌≢◌, ◌↔◌, ◌⊎◌, inl, inr, true, false, none, some, [], arith, codes, length,
}
use kei_connector_contracts.Contract.Account.{
  effective_source, shared_subject, credential_subject, validate_credential_binding,
}
use kei_connector_contracts.Contract.Targets.{method_action, validate_target}
use kei_connector_contracts.Contract.HttpApi.{valid_public_hostname}
use kei_connector_contracts.Contract.Grafana.{metadata_destination}
use kei_connector_contracts.Contract.References.{validate_credential_ref}
use kei_connector_contracts.Contract.Calls.{is_http_api, validate, validate_call, authorize_call}
use kei_connector_contracts.Contract.Types.{HttpApi, HttpInvocation}
use kei_connector_contracts.Contract.Names.Action
use kei_connector_contracts.Contract.Names.AccountModel
use kei_connector_contracts.Contract.Names.CredentialSource
use kei_connector_contracts.Contract.Types.{
  not_found, action_mismatch, body_not_taken, path_traversal, reference_not_opaque,
}
use kei_connector_contracts.Net.Url.{Url, parse, hostname}
use kei_connector_contracts.Contract.HttpApi.{validate_http_api}
use kei_connector_contracts.Net.Dotted.{dotted, IsField}
use kei_connector_contracts.Contract.Calls.Laws.{validate_call-authorize_call}
use kei_connector_contracts.Contract.Calls.Authorized.{
  IsInScope, IsDeclared, authorize_call-IsInScope, credential_subject_lem,
}
use kei_connector_contracts.Contract.Calls.Requests.{
  HasFittingBody, validate_call_request, validate_call_body-le,
}
use kei_connector_contracts.Contract.Calls.Executable.{validate_call-read_only}
use kei_connector_contracts.Contract.Targets.Allowed.{IsAllowedTarget, validate_target_iff}
use kei_connector_contracts.Contract.Account.Laws.{IsBound, validate_credential_binding_iff}
use kei_connector_contracts.Contract.Hosts.{validate_http_api-internal}
use kei_connector_contracts.Contract.Samples.{
  checking, api_sample, items, mail, new_item, list_items, post_call, get_call, mail_call,
}

mail_runs : validate_call mail mail_call ≡ none
unfolding checking
mail_runs = refl

post_runs : validate_call items post_call ≡ none
unfolding checking
post_runs = refl

get_runs : validate_call items get_call ≡ none
unfolding checking
get_runs = refl

mail_authorized : authorize_call mail mail_call ≡ none
unfolding checking
mail_authorized = refl

items_http : is_http_api items ≡ true
unfolding checking
items_http = refl

-- A call from another tenant, a write under a read, and a body under a GET.
other_tenant : validate_call mail (record mail_call { tenant_id = codes "t2" }) ≡ some not_found
unfolding checking
other_tenant = refl

read_as_write :
    validate_call items (record post_call { action = Action.read }) ≡ some action_mismatch
unfolding checking
read_as_write = refl

get_with_body :
    validate_call items (record get_call { http = some (record list_items { body = codes "{}" }) })
    ≡ some body_not_taken
unfolding checking
get_with_body = refl

climbing_path :
    validate_call items
      (record get_call { http = some (record list_items { path = codes "/v1/items/%2e%2e/x" }) })
    ≡ some path_traversal
unfolding checking
climbing_path = refl

-- A numeric host, which resolvers read as 127.0.0.1, passes the check of an http_api host, and not
-- that of a Grafana host.
numeric_host :
    (valid_public_hostname (codes "2130706433") ≡ true)
    × (metadata_destination (codes "2130706433") ≡ true)
unfolding checking
numeric_host = (refl, refl)

-- A reference with a scheme is refused, unless it does not parse as a URL.
schemes :
    (validate_credential_ref (codes "https://example.com/a") ≡ some reference_not_opaque)
    × (validate_credential_ref (codes "https://example.com/%zz") ≡ none)
unfolding checking
schemes = (refl, refl)

f172 : IsField (codes "172") 172
unfolding checking
f172 = refl

f20 : IsField (codes "20") 20
unfolding checking
f20 = refl

f0 : IsField (codes "0") 0
unfolding checking
f0 = refl

f9 : IsField (codes "9") 9
unfolding checking
f9 = refl

validate_call-authorize_call_example : authorize_call items post_call ≡ none
validate_call-authorize_call_example = validate_call-authorize_call items post_call post_runs

authorize_call-IsInScope_example :
    (validate mail ≡ none) × IsInScope mail mail_call × IsDeclared mail mail_call
authorize_call-IsInScope_example = authorize_call-IsInScope mail mail_call mail_authorized

credential_subject_lem_example :
    (effective_source mail ≡ CredentialSource.oauth
      → mail.account_model ≢ AccountModel.shared
      → credential_subject mail mail_call ≡ mail_call.subject)
    × ((effective_source mail ≡ CredentialSource.opaque_ref)
          ⊎ (mail.account_model ≡ AccountModel.shared)
        → credential_subject mail mail_call ≡ shared_subject mail.id)
credential_subject_lem_example = credential_subject_lem mail mail_call mail_authorized

validate_call_request_example :
    (r : HttpInvocation) × (api : HttpApi) × (post_call.http ≡ some r)
    × (items.http_api ≡ some api)
    × IsAllowedTarget api r
    × HasFittingBody api r
    × (method_action r.method ≡ some post_call.action)
validate_call_request_example = validate_call_request items post_call post_runs items_http

validate_call_body-le_example : length new_item.body ≤ 10485760
validate_call_body-le_example =
    validate_call_body-le items post_call new_item post_runs items_http refl

validate_call-read_only_example : mail_call.action ≡ Action.read
validate_call-read_only_example =
    validate_call-read_only mail mail_call mail_runs (inr (inr (inr (inr (inl refl)))))

validate_target_iff_example :
    (validate_target api_sample list_items ≡ none) ↔ IsAllowedTarget api_sample list_items
validate_target_iff_example = validate_target_iff api_sample list_items

validate_credential_binding_iff_example : (validate_credential_binding mail ≡ none) ↔ IsBound mail
validate_credential_binding_iff_example = validate_credential_binding_iff mail

api_valid : validate_http_api api_sample ≡ none
unfolding checking
api_valid = refl

abbrev api_url : Url
api_url = record {
  scheme = codes "https";
  opaque = [];
  has_user = false;
  host = codes "api.example.com";
  path = [];
  raw_path = [];
  raw_query = [];
  force_query = false;
  fragment = [];
}

api_url_parses : parse api_sample.registered_base_url ≡ some api_url
unfolding checking
api_url_parses = refl

validate_http_api-internal_example :
    hostname api_url ≢ dotted (codes "172") (codes "20") (codes "0") (codes "9")
validate_http_api-internal_example =
    validate_http_api-internal (codes "172") (codes "20") (codes "0") (codes "9") f172 f20 f0 f9
      api_sample api_url api_valid api_url_parses (inr (inr (inl (refl, omega arith, omega arith))))
