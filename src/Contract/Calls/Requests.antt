-- ===== src/Contract/Calls/Requests.antt =====
-- contract/contract.go and contract/http_api.go: the request of an executed http_api call.
use kei_connector_contracts.Prelude.{
  ℕ, ◌≤◌, ◌≡◌, refl, sym, ap, subst, ◌∙◌, ◌⊎◌, inl, inr, true, false, none, some, [], arith, Text,
  codes, ==_iff, Bool-cases, Option-cases, All, In, All_at, length, ℤ, pos, negsuc, int_lt,
  first_error-eq-none,
}
use kei_connector_contracts.Contract.Types.{
  Capability, Metadata, Invocation, HttpApi, HttpInvocation,
}
use kei_connector_contracts.Contract.Names.Action
use kei_connector_contracts.Contract.Names.Method
use kei_connector_contracts.Contract.Catalog.Laws.{entry_of_In}
use kei_connector_contracts.Contract.Targets.{
  method_action, method_actions, is_supported, has_body, capability_method,
}
use kei_connector_contracts.Contract.Targets.Allowed.{IsAllowedTarget, validate_target_iff}
use kei_connector_contracts.Contract.HttpApi.{
  in_range, max_body_bytes, check_limits, validate_http_api, validate_request, is_json_object,
}
use kei_connector_contracts.Contract.Calls.{
  is_http_api, check_http_block, check_capability, validate_http_capability_action, validate,
  names_method, check_request, validate_call,
}
use kei_connector_contracts.Contract.Calls.Laws.{validate_call_parts, validate_call-authorize_call}
use kei_connector_contracts.Contract.Calls.Authorized.{
  authorize_call_parts, authorize_call-IsInScope,
}

-- A read carries no body; a write carries a JSON object, as JSON, within the connector's limit.
abbrev pub HasFittingBody : HttpApi → HttpInvocation → Type 0
HasFittingBody api r =
    ((has_body r.method ≡ false) × (r.content_type ≡ []) × (r.body ≡ []))
    ⊎ ((has_body r.method ≡ true)
        × (r.content_type ≡ codes "application/json")
        × (int_lt api.request_max_bytes (pos (length r.body)) ≡ false)
        × (is_json_object r.body ≡ true))

request_sound :
    (api : HttpApi) (r : HttpInvocation)
    → validate_request api r ≡ none
    → IsAllowedTarget api r × HasFittingBody api r
unfolding validate_request
request_sound api r h =
    let typed = ==_iff r.content_type [] in
    let empty = ==_iff r.body [] in
    let json = ==_iff r.content_type (codes "application/json") in
    (
      (validate_target_iff api r).0 (ground arith),
      elim (Bool-cases (has_body r.method)) [
        | inl e ↦ inr (e, json.0 (ground arith), ground arith, ground arith)
        | inr e ↦ inl (e, typed.0 (ground arith), empty.0 (ground arith))
      ],
    )

pub record Request (m : Metadata) (call : Invocation) : Type 0 where
  pub request : HttpInvocation
  pub api : HttpApi
  pub sent : call.http ≡ some request
  pub configured : m.http_api ≡ some api
  pub named : names_method call.capability request.method ≡ true
  pub valid : validate_request api request ≡ none

-- The request that an executed http_api call carries.
pub request_of :
    (m : Metadata) (call : Invocation)
    → validate_call m call ≡ none
    → is_http_api m ≡ true
    → Request m call
unfolding check_request
request_of m call h http =
    let (v, x, b, r) = (validate_call_parts m call).0 h in
    let (v', s, q, d) = authorize_call_parts m call (validate_call-authorize_call m call h) in
    elim (Option-cases call.http) [
      | inl e ↦ absurd (ground arith)
      | inr (request, e) ↦ elim (Option-cases m.http_api) [
        | inl f ↦ absurd (ground arith)
        | inr (api, f) ↦ record {
          request = request;
          api = api;
          sent = e;
          configured = f;
          named = ground arith;
          valid = ground arith;
        }
      ]
    ]

capability_checked :
    (m : Metadata) (c : Capability)
    → validate m ≡ none
    → is_http_api m ≡ true
    → In c m.capabilities
    → validate_http_capability_action c ≡ none
unfolding validate check_capability
capability_checked m c v http i =
    let checked =
      All_at (λ c. check_capability m c ≡ none) c m.capabilities
        ((first_error-eq-none (check_capability m) m.capabilities).0 (ground arith)) i in
    ground arith

action_of_method :
    (c : Capability) (method action : Text)
    → validate_http_capability_action c ≡ none
    → capability_method c.name ≡ some method
    → method_action method ≡ some action
    → c.action ≡ action
unfolding validate_http_capability_action
action_of_method c method action h e f = (==_iff c.action action).0 (ground arith)

named_lem :
    (capability method : Text)
    → names_method capability method ≡ true
    → capability_method capability ≡ some method
unfolding names_method
named_lem capability method h = elim (Option-cases (capability_method capability)) [
  | inl e ↦ absurd (ground arith)
  | inr (named, e) ↦ e ∙ ap some ((==_iff named method).0 (ground arith))
]

supported_lem :
    (method : Text) → is_supported method ≡ true → (a : Text) × (method_action method ≡ some a)
unfolding is_supported
supported_lem method h = elim (Option-cases (method_action method)) [
  | inl e ↦ absurd (ground arith)
  | inr found ↦ found
]

-- An http_api call that `ValidateCall` accepts carries a request whose target the connector allows,
-- whose body fits its method, and whose method performs the action of the call.
pub validate_call_request :
    (m : Metadata) (call : Invocation)
    → validate_call m call ≡ none
    → is_http_api m ≡ true
    → (r : HttpInvocation) × (api : HttpApi) × (call.http ≡ some r)
      × (m.http_api ≡ some api)
      × IsAllowedTarget api r
      × HasFittingBody api r
      × (method_action r.method ≡ some call.action)
validate_call_request m call h http =
    let q = request_of m call h http in
    let (v, s, (c, i, n, a)) =
      authorize_call-IsInScope m call (validate_call-authorize_call m call h) in
    let (target, body) = request_sound q.api q.request q.valid in
    let (action, f) = supported_lem q.request.method target.supported in
    let agrees =
      action_of_method c q.request.method action (capability_checked m c v http i)
        (ap capability_method n ∙ named_lem call.capability q.request.method q.named) f in
    (q.request, q.api, q.sent, q.configured, target, body, f ∙ ap some (sym agrees ∙ a))

abbrev IsReading : Text × Text → Type 0
IsReading (method, action) = action ≡ Action.read → (method ≡ Method.get) ⊎ (method ≡ Method.head)

table_reads : All IsReading method_actions
table_reads = (λ e. inl refl, (λ e. inr refl, (λ e. cc, (λ e. cc, tt))))

-- An accepted read of an http_api connector is a GET or a HEAD without a body.
pub validate_call-read :
    (m : Metadata) (call : Invocation)
    → validate_call m call ≡ none
    → is_http_api m ≡ true
    → call.action ≡ Action.read
    → (r : HttpInvocation) × (call.http ≡ some r)
      × ((r.method ≡ Method.get) ⊎ (r.method ≡ Method.head))
      × (r.content_type ≡ [])
      × (r.body ≡ [])
unfolding method_action has_body
validate_call-read m call h http reads =
    let (r, api, sent, f, target, body, action) = validate_call_request m call h http in
    let listed = entry_of_In method_actions r.method call.action action in
    let method = All_at IsReading (r.method, call.action) method_actions table_reads listed reads in
    let bodyless : has_body r.method ≡ false =
      ground (arith, ==_iff r.method Method.post, ==_iff r.method Method.patch) in
    elim body [ inl (e, t, b) ↦ (r, sent, method, t, b) | inr (e, t, k, j) ↦ absurd (cc) ]

limit_of :
    (m : Metadata) (api : HttpApi)
    → validate m ≡ none
    → is_http_api m ≡ true
    → m.http_api ≡ some api
    → in_range api.request_max_bytes max_body_bytes ≡ true
unfolding validate check_http_block validate_http_api check_limits
limit_of m api v http e = ground arith

within_limit :
    (n : ℕ) (limit : ℤ)
    → in_range limit max_body_bytes ≡ true
    → int_lt limit (pos n) ≡ false
    → n ≤ 10485760
unfolding in_range int_lt
within_limit n (pos k) r h = ground arith
within_limit n (negsuc k) r h = cc

-- The body of an accepted http_api request is at most ten mebibytes long.
pub validate_call_body-le :
    (m : Metadata) (call : Invocation) (r : HttpInvocation)
    → validate_call m call ≡ none
    → is_http_api m ≡ true
    → call.http ≡ some r
    → length r.body ≤ 10485760
validate_call_body-le m call r h http sent =
    let (q, api, sent', f, target, body, action) = validate_call_request m call h http in
    let same : q ≡ r = cc in
    let (v, x, b, n) = (validate_call_parts m call).0 h in
    let limit = limit_of m api v http f in
    let short : length q.body ≤ 10485760 = elim body [
      | inl (e, t, b) ↦ let none_sent = ap length b in omega arith
      | inr (e, t, k, j) ↦ within_limit (length q.body) api.request_max_bytes limit k
    ] in
    subst (λ q. length q.body ≤ 10485760) same short
