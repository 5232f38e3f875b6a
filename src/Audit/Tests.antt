-- ===== src/Audit/Tests.antt =====
-- The decision on an envelope, and its audit record, at concrete inputs.
use kei_connector_contracts.Prelude.{◌≡◌, refl, ◌↔◌, codes}
use kei_connector_contracts.Contract.Calls.{validate_invocation}
use kei_connector_contracts.Contract.Samples.{checking, mail, mail_call}
use kei_connector_contracts.Contract.Names.Status
use kei_connector_contracts.Envelope.{
  Envelope, envelope_version1, minted_by_control_plane, validate,
}
use kei_connector_contracts.Governance.{
  decision_allow, deny_with, inactive_connector, decide, refusal, is_for,
}
use kei_connector_contracts.Governance.Laws.{IsPermitted, decide_iff}
use kei_connector_contracts.Audit.{tool_name_of, build_audit_record}
use kei_connector_contracts.Audit.Laws.{Describes, audit-decide}

abbrev mail_envelope : Envelope
mail_envelope = record {
  version = envelope_version1;
  invocation = mail_call;
  minted_by = minted_by_control_plane;
  issued_at = 1700;
}

mail_allowed : (decide mail mail_envelope).decision ≡ decision_allow
unfolding checking validate_invocation validate decide refusal is_for
mail_allowed = refl

suspended :
    decide (record mail { status = Status.suspended }) mail_envelope ≡ deny_with inactive_connector
unfolding checking validate_invocation validate decide refusal is_for
suspended = refl

mail_tool :
    (build_audit_record mail_envelope (decide mail mail_envelope) 1800).tool_name
    ≡ codes "connector/c1/message.get"
unfolding build_audit_record tool_name_of
mail_tool = refl

decide_iff_example :
    ((decide mail mail_envelope).decision ≡ decision_allow) ↔ IsPermitted mail mail_envelope
decide_iff_example = decide_iff mail mail_envelope

audit-decide_example :
    Describes mail mail_envelope (build_audit_record mail_envelope (decide mail mail_envelope) 1800)
audit-decide_example = audit-decide mail mail_envelope 1800
