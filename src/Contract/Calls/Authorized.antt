-- ===== src/Contract/Calls/Authorized.antt =====
-- contract/contract.go: what an authorized call is, and whose credential it uses.
use kei_connector_contracts.Prelude.{
  ◌≡◌, ◌≢◌, ◌⊎◌, inl, inr, false, ◌&&◌, none, [], arith, ==_iff, ◌==◌, find, Option-cases, In,
  find_sound,
}
use kei_connector_contracts.Contract.Types.{Capability, Metadata, Invocation}
use kei_connector_contracts.Contract.Names.CredentialSource
use kei_connector_contracts.Contract.Names.AccountModel
use kei_connector_contracts.Contract.Names.Status
use kei_connector_contracts.Contract.Account.{effective_source, shared_subject, credential_subject}
use kei_connector_contracts.Contract.Account.Laws.{IsBound, validate_credential_binding_iff}
use kei_connector_contracts.Contract.Calls.{
  validate, validate_call_scope, check_request, check_declared, validate_call_boundary,
  authorize_call,
}

-- The connector is active, it is the one that the call names, and an oauth connector without an
-- account model acts for the subject that it declares.
pub record IsInScope (m : Metadata) (call : Invocation) : Type 0 where
  pub active : m.status ≡ Status.active
  pub tenant : call.tenant_id ≡ m.tenant_id
  pub workspace : call.workspace_id ≡ m.workspace_id
  pub connector : call.connector_id ≡ m.id
  pub resource : call.resource ≢ []
  pub subject :
      m.account_model ≡ [] → effective_source m ≡ CredentialSource.oauth → call.subject ≡ m.subject

-- A declared capability has the name and the action of the call.
abbrev pub IsDeclared : Metadata → Invocation → Type 0
IsDeclared m call =
    (c : Capability) × In c m.capabilities × (c.name ≡ call.capability) × (c.action ≡ call.action)

pub authorize_call_parts :
    (m : Metadata) (call : Invocation)
    → authorize_call m call ≡ none
    → (validate m ≡ none)
      × (validate_call_scope m call ≡ none)
      × (check_request m call ≡ none)
      × (check_declared m.capabilities call ≡ none)
unfolding authorize_call validate_call_boundary
authorize_call_parts m call h = (ground arith, ground arith, ground arith, ground arith)

scope_sound :
    (m : Metadata) (call : Invocation) → validate_call_scope m call ≡ none → IsInScope m call
unfolding validate_call_scope
scope_sound m call h = record {
  active = (==_iff m.status Status.active).0 (ground arith);
  tenant = (==_iff call.tenant_id m.tenant_id).0 (ground arith);
  workspace = (==_iff call.workspace_id m.workspace_id).0 (ground arith);
  connector = (==_iff call.connector_id m.id).0 (ground arith);
  resource = λ e. let e' = (==_iff call.resource []).1 e in absurd (ground arith);
  subject = λ u o.
      let u' = (==_iff m.account_model []).1 u in
      let o' = (==_iff (effective_source m) CredentialSource.oauth).1 o in
      (==_iff call.subject m.subject).0 (ground arith);
}

check_declared-IsDeclared :
    (m : Metadata) (call : Invocation)
    → check_declared m.capabilities call ≡ none
    → IsDeclared m call
unfolding check_declared
check_declared-IsDeclared m call h =
    elim (Option-cases (find (λ c. c.name == call.capability) m.capabilities)) [
      | inl e ↦ absurd (ground arith)
      | inr (c, e) ↦
          let (i, n) = find_sound (λ c. c.name == call.capability) m.capabilities c e in
          (
            c,
            i,
            (==_iff c.name call.capability).0 n,
            (==_iff c.action call.action).0 (ground arith),
          )
    ]

-- An authorized call is for an active connector with valid metadata, in the tenant and the workspace
-- of the connector, and names a resource, and a capability that the connector declares has the
-- call's name and action. Where the connector has an oauth credential and no account model, the
-- call's subject is the one that the connector declares.
pub authorize_call-IsInScope :
    (m : Metadata) (call : Invocation)
    → authorize_call m call ≡ none
    → (validate m ≡ none) × IsInScope m call × IsDeclared m call
authorize_call-IsInScope m call h =
    let (v, s, r, d) = authorize_call_parts m call h in
    (v, scope_sound m call s, check_declared-IsDeclared m call d)

pub binding_of : (m : Metadata) → validate m ≡ none → IsBound m
unfolding validate
binding_of m h = (validate_credential_binding_iff m).0 (ground arith)

-- The connector's own credential: an opaque reference or a shared account.
abbrev pub IsOwn : Metadata → Type 0
IsOwn m =
    (effective_source m ≡ CredentialSource.opaque_ref) ⊎ (m.account_model ≡ AccountModel.shared)

not_per_user : (m : Metadata) → IsBound m → IsOwn m → m.account_model ≢ AccountModel.per_user
not_per_user m b (inr e) p = cc
not_per_user m b (inl e) p = elim b.model [
  | inl (u, f) ↦ cc
  | inr (u, i, f) ↦ elim f [
    | inl (q, a, c) ↦ cc
    | inr (inl (q, a, c)) ↦ cc
    | inr (inr (q, a, c)) ↦ cc
  ]
]

not_declared_subject :
    (m : Metadata)
    → IsOwn m
    → (m.account_model == [] && effective_source m == CredentialSource.oauth) ≡ false
not_declared_subject m own =
    ground (arith, ==_iff m.account_model [], ==_iff (effective_source m) CredentialSource.oauth)

-- The credential subject of an authorized call is the invoking subject where the connector has an
-- oauth credential that is not shared, and the connector's own subject otherwise.
pub credential_subject_lem :
    (m : Metadata) (call : Invocation)
    → authorize_call m call ≡ none
    → (effective_source m ≡ CredentialSource.oauth
        → m.account_model ≢ AccountModel.shared
        → credential_subject m call ≡ call.subject)
      × ((effective_source m ≡ CredentialSource.opaque_ref)
            ⊎ (m.account_model ≡ AccountModel.shared)
          → credential_subject m call ≡ shared_subject m.id)
unfolding credential_subject
credential_subject_lem m call h =
    let (v, s, d) = authorize_call-IsInScope m call h in
    let bound = binding_of m v in
    let own = ==_iff m.account_model AccountModel.per_user in
    let unset = ==_iff m.account_model [] in
    let oauth = ==_iff (effective_source m) CredentialSource.oauth in
    (
      λ o n. elim bound.model [
        | inl (u, f) ↦
            let same = s.subject u o in
            let u' = unset.1 u in let o' = oauth.1 o in ground (arith, own)
        | inr (u, i, f) ↦ elim f [
          | inl (e, a, b) ↦ let e' = own.1 e in ground arith
          | inr (inl (e, a, b)) ↦ absurd (n e)
          | inr (inr (e, a, b)) ↦ absurd (cc)
        ]
      ],
      λ k.
          let n = not_per_user m bound k in
          let d' = not_declared_subject m k in ground (arith, own),
    )
