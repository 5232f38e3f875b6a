-- ===== src/Audit.antt =====
-- audit/audit.go: the audit record of a governed invocation.
pub mod Laws
mod Tests
use kei_connector_contracts.Prelude.{
  ℕ, Bool, ◌||◌, Option, none, some, List, [], ◌∷◌, ◌++◌, Text, codes, ◌==◌, if◌then◌else◌, ℤ, pos,
}
use kei_connector_contracts.Contract.Types.{Invocation}
use kei_connector_contracts.Contract.Names.CredentialSource
use kei_connector_contracts.Envelope.{Envelope}
use kei_connector_contracts.Governance.{PolicyDecision, Reason}

abbrev pub secret_store : Text
secret_store = codes "secret_store"

abbrev pub oauth : Text
oauth = codes "oauth"

-- `CredentialKind.Valid`
unfoldable pub is_valid_kind : Text → Bool
is_valid_kind k = k == secret_store || k == oauth

-- `CredentialKindFor`; `none` where Go's second result is false.
unfoldable pub credential_kind_for : Text → Option Text
credential_kind_for source =
    if source == [] || source == CredentialSource.opaque_ref
    then some secret_store
    else if source == CredentialSource.oauth
    then some oauth
    else none

-- A nil pointer is `none`.
pub record AuditRecord : Type 0 where
  pub span_id : Text
  pub invoked_at : ℕ
  pub invoking_subject : Text
  pub parent_span : Option Text
  pub delegation_depth : ℤ
  pub agent_id : Text
  pub agent_version : Option Text
  pub framework : Text
  pub tool_name : Text
  pub tool_args_digest : Option Text
  pub resources_touched : List Text
  pub decision : Text
  pub policy_id : Option Text
  pub policy_reason : Option Reason
  pub org_id : Option Text
  pub workspace_id : Option Text
  pub credential_kind : Text

abbrev pub nonempty : Text → Option Text
nonempty [] = none
nonempty (c ∷ s) = some (c ∷ s)

unfoldable pub span_of : Invocation → Text
span_of call = if call.idempotency_key == [] then call.trace_id else call.idempotency_key

unfoldable pub tool_name_of : Invocation → Text
tool_name_of call = codes "connector/" ++ (call.connector_id ++ (codes "/" ++ call.capability))

-- `BuildAuditRecord`
unfoldable pub build_audit_record : Envelope → PolicyDecision → ℕ → AuditRecord
build_audit_record e d invoked_at = record {
  span_id = span_of e.invocation;
  invoked_at = invoked_at;
  invoking_subject = e.invocation.subject;
  parent_span = none;
  delegation_depth = pos 0;
  agent_id = e.invocation.agent_id;
  agent_version = none;
  framework = codes "connector";
  tool_name = tool_name_of e.invocation;
  tool_args_digest = none;
  resources_touched = e.invocation.resource ∷ [];
  decision = d.decision;
  policy_id = none;
  policy_reason = d.reason;
  org_id = nonempty e.invocation.tenant_id;
  workspace_id = nonempty e.invocation.workspace_id;
  credential_kind = [];
}
