-- ===== src/Audit/Laws.antt =====
-- audit/audit.go: what the audit record of a decision says.
use kei_connector_contracts.Prelude.{
  ℕ, ◌≡◌, refl, ap, ◌∙◌, ◌≢◌, ◌↔◌, ◌⊎◌, inl, inr, true, none, some, [], ◌∷◌, arith, Text, ==_iff,
  ==_refl, ◌==◌, first_error,
}
use kei_connector_contracts.Contract.Types.{Metadata}
use kei_connector_contracts.Contract.Names.CredentialSource
use kei_connector_contracts.Contract.Catalog.{valid_id, valid_ids}
use kei_connector_contracts.Contract.Account.{effective_source}
use kei_connector_contracts.Contract.Calls
use kei_connector_contracts.Contract.Calls.{validate_invocation}
use kei_connector_contracts.Contract.Calls.Authorized.{authorize_call-IsInScope, binding_of}
use kei_connector_contracts.Envelope
use kei_connector_contracts.Envelope.{Envelope}
use kei_connector_contracts.Governance.{Reason, decision_allow, decision_deny, decide}
use kei_connector_contracts.Governance.Laws.{decide_iff, decide_capability}
use kei_connector_contracts.Audit.{
  secret_store, oauth, nonempty, AuditRecord, span_of, build_audit_record, credential_kind_for,
  is_valid_kind,
}

valid_id-ne-nil : (t : Text) → valid_id t ≡ none → t ≢ []
unfolding valid_id
valid_id-ne-nil t h e = let e' = (==_iff t []).1 e in cc

invocation_ids :
    (e : Envelope)
    → Envelope.validate e ≡ none
    → (e.invocation.tenant_id ≢ [])
      × (e.invocation.workspace_id ≢ [])
      × (e.invocation.trace_id ≢ [])
unfolding Envelope.validate validate_invocation valid_ids first_error
invocation_ids e h = (
  valid_id-ne-nil e.invocation.tenant_id (ground arith),
  valid_id-ne-nil e.invocation.workspace_id (ground arith),
  valid_id-ne-nil e.invocation.trace_id (ground arith),
)

-- What the record of an allowed call says: whose tenant and workspace, which resource, who called,
-- and a key.
pub record IsAttributed (m : Metadata) (e : Envelope) (rec : AuditRecord) : Type 0 where
  pub org : rec.org_id ≡ some m.tenant_id
  pub workspace : rec.workspace_id ≡ some m.workspace_id
  pub subject : rec.invoking_subject ≡ e.invocation.subject
  pub resources : rec.resources_touched ≡ e.invocation.resource ∷ []
  pub no_reason : rec.policy_reason ≡ none
  pub keyed : rec.span_id ≢ []

nonempty-some : (t : Text) → t ≢ [] → nonempty t ≡ some t
nonempty-some [] n = absurd (n refl)
nonempty-some (c ∷ t) n = refl

span-ne-nil : (e : Envelope) → e.invocation.trace_id ≢ [] → span_of e.invocation ≢ []
unfolding span_of
span-ne-nil e n h = ground (arith, ==_iff e.invocation.idempotency_key [], n)

abbrev pub Describes : Metadata → Envelope → AuditRecord → Type 0
Describes m e rec =
    ((rec.decision ≡ decision_allow) × IsAttributed m e rec)
    ⊎ ((rec.decision ≡ decision_deny) × ((r : Reason) × (rec.policy_reason ≡ some r)))

-- The record of a decision names the decision. That of an allow is attributed to the tenant and
-- the workspace of the connector and to the invoking subject, lists the resource and has a key;
-- that of a deny gives a reason.
pub audit-decide :
    (m : Metadata) (e : Envelope) (at : ℕ) → Describes m e (build_audit_record e (decide m e) at)
unfolding build_audit_record
audit-decide m e at = elim (decide_capability m e) [
  | inr (d, r) ↦ inr (d, r)
  | inl (d, n, i, name, action) ↦
      let (v, w, a) = (decide_iff m e).0 d in
      let (v', s, c) = authorize_call-IsInScope m e.invocation a in
      let (tenant, workspace, trace) = invocation_ids e w in
      inl (
        d,
        record {
          org = nonempty-some e.invocation.tenant_id tenant ∙ ap some s.tenant;
          workspace = nonempty-some e.invocation.workspace_id workspace ∙ ap some s.workspace;
          subject = refl;
          resources = refl;
          no_reason = n;
          keyed = span-ne-nil e trace;
        },
      )
]

abbrev pub IsKind : Metadata → Text → Type 0
IsKind m k =
    (credential_kind_for m.credential_source ≡ some k)
    × (is_valid_kind k ≡ true)
    × ((k ≡ oauth) ↔ (effective_source m ≡ CredentialSource.oauth))

IsKind-of_secret :
    (m : Metadata) → effective_source m ≡ CredentialSource.opaque_ref → IsKind m secret_store
unfolding credential_kind_for is_valid_kind effective_source ◌==◌
IsKind-of_secret m e = (
  ground (
    arith,
    ==_iff m.credential_source [],
    ==_iff m.credential_source CredentialSource.opaque_ref,
  ),
  refl,
  (λ k. cc, λ o. cc),
)

IsKind-of_oauth : (m : Metadata) → effective_source m ≡ CredentialSource.oauth → IsKind m oauth
unfolding credential_kind_for is_valid_kind effective_source
IsKind-of_oauth m e = (
  ground (
    arith,
    ==_iff m.credential_source [],
    ==_iff m.credential_source CredentialSource.opaque_ref,
    ==_iff m.credential_source CredentialSource.oauth,
  ),
  ground (arith, ==_refl oauth),
  (λ k. e, λ o. refl),
)

-- The credential source of validated metadata has a defined credential kind, and the kind is
-- oauth exactly for an oauth credential.
pub credential_kind_for_lem : (m : Metadata) → Calls.validate m ≡ none → (k : Text) × IsKind m k
credential_kind_for_lem m v = elim (binding_of m v).source [
  | inl e ↦ (oauth, IsKind-of_oauth m e)
  | inr e ↦ (secret_store, IsKind-of_secret m e)
]
