-- ===== src/Governance.antt =====
-- governance/decision.go: the structural decision on an envelope.
pub mod Laws
use kei_connector_contracts.Prelude.{
  Bool, not, ◌&&◌, Option, none, some, [], Text, codes, ◌==◌, find, refuse_if, ◌>>?◌,
}
use kei_connector_contracts.Contract.Types.{Capability, Metadata, Invocation, ContractError}
use kei_connector_contracts.Contract.Names.Status
use kei_connector_contracts.Contract.Calls
use kei_connector_contracts.Contract.Calls.{authorize_call}
use kei_connector_contracts.Envelope
use kei_connector_contracts.Envelope.{Envelope, EnvelopeError}

abbrev pub decision_allow : Text
decision_allow = codes "allow"

abbrev pub decision_deny : Text
decision_deny = codes "deny"

pub data Reason : Type 0 where
  invalid_metadata : ContractError → Reason
  invalid_envelope : EnvelopeError → Reason
  inactive_connector unknown_connector capability_not_allowed : Reason
  refused : ContractError → Reason

-- An empty reason is `none`.
pub record PolicyDecision : Type 0 where
  pub decision : Text
  pub reason : Option Reason
  pub capability : Capability

abbrev pub zero_capability : Capability
zero_capability = record { name = []; action = []; description = [] }

abbrev pub deny_with : Reason → PolicyDecision
deny_with r = record { decision = decision_deny; reason = some r; capability = zero_capability }

abbrev pub allow_with : Capability → PolicyDecision
allow_with c = record { decision = decision_allow; reason = none; capability = c }

unfoldable pub is_for : Metadata → Invocation → Bool
is_for m call =
    call.tenant_id == m.tenant_id
    && call.workspace_id == m.workspace_id
    && call.connector_id == m.id

-- The first reason to deny.
unfoldable pub refusal : Metadata → Envelope → Option Reason
refusal m e =
    Envelope.wrap invalid_metadata (Calls.validate m)
    >>? Envelope.wrap invalid_envelope (Envelope.validate e)
    >>? refuse_if (not (m.status == Status.active)) inactive_connector
    >>? refuse_if (not (is_for m e.invocation)) unknown_connector
    >>? Envelope.wrap refused (authorize_call m e.invocation)

-- `Decide`
unfoldable pub decide : Metadata → Envelope → PolicyDecision
decide m e = elim (refusal m e) [
  | some r ↦ deny_with r
  | none ↦ elim (find (λ c. c.name == e.invocation.capability) m.capabilities) [
    | none ↦ deny_with capability_not_allowed
    | some c ↦ allow_with c
  ]
]
