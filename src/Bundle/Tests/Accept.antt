-- ===== src/Bundle/Tests/Accept.antt =====
-- The acceptance of received bundles at concrete inputs.
use kei_connector_contracts.Prelude.{◌≡◌, refl, true, false, none, some, [], arith, codes, pos, ok}
use kei_connector_contracts.Bundle.Kinds.{
  validate_harnesses, validate_harness_kinds, validate_kinds_from, validate_harnesses_from,
  known_harness_kind,
}
use kei_connector_contracts.Bundle.Session.{subject_snapshot_fresh}
use kei_connector_contracts.Bundle.Validate.{
  Envelope, Received, SchemaValidator, Expected, schema_error, validate_schema, validate_identity,
  validate_window, validate_policy_dialect, has_empty_condition, has_invalid_plan,
  validate_policy_set_v2, then_check, harness_check, validate_v1_envelope, validate_snapshot,
  validate_v2_envelope, accept, validate_v2, validate,
}
use kei_connector_contracts.Bundle.Validate.Laws.{
  IsAcceptable, validate-IsAcceptable, validate_v2-fresh,
}
use kei_connector_contracts.Bundle.Tests.{checking, bundle_v2}

-- What validation computes with, opened at once.
validating : Unit {0}
unfolding checking validate_harnesses validate_harness_kinds validate_kinds_from
    validate_harnesses_from known_harness_kind schema_error validate_schema validate_identity
    validate_window validate_policy_dialect has_empty_condition has_invalid_plan
    validate_policy_set_v2 then_check harness_check validate_v1_envelope validate_snapshot
    validate_v2_envelope accept validate_v2 validate
validating = tt

abbrev envelope : Envelope
envelope = record {
  issuer = codes "kei-policy-catalog";
  bundle_id = codes "b7";
  bundle_version = pos 7;
  policy_revision = pos 3;
  installation_id = codes "inst";
  not_after = 5000;
  dialect = some (record {
    schema = codes "kei.policy-set/v2";
    match_semantics = codes "kei.match/v2";
    order = [];
    checks = codes "per_capability_first_match_and";
    default_effect = codes "deny";
  });
  body = bundle_v2;
}

abbrev received : Received
received = record {
  is_empty = false;
  repeats_key = false;
  schema = some (codes "kei.policy-bundle/v2");
  envelope = some envelope;
}

abbrev expected : Expected
expected = record {
  installation_id = codes "inst";
  org_id = codes "org";
  workspace_id = codes "ws";
  highest_version = pos 6;
  now = 2000;
}

-- A schema validator that accepts what decodes.
abbrev decodable : SchemaValidator
decodable =
    some (λ (r : Received). elim r.envelope [ none ↦ some (codes "not an object") | some e ↦ none ])

v2_accepted : validate_v2 decodable none expected received ≡ ok envelope
unfolding validating
v2_accepted = refl

bundle_accepted : validate none decodable none expected received ≡ ok envelope
unfolding validating
bundle_accepted = refl

validate-IsAcceptable_example : IsAcceptable expected envelope
validate-IsAcceptable_example =
    validate-IsAcceptable none decodable none expected received envelope bundle_accepted

validate_v2-fresh_example : subject_snapshot_fresh bundle_v2 9000 ≡ true
validate_v2-fresh_example =
    validate_v2-fresh decodable none expected received envelope 9000 v2_accepted (omega arith)
