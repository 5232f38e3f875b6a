-- ===== src/Health/Tests.antt =====
-- Health reports at concrete inputs.
use kei_connector_contracts.Prelude.{
  ℕ, ◌≡◌, refl, false, Option, none, some, codes, all, pos, int_lt, int_eq,
}
use kei_connector_contracts.Strings.{cut_prefix}
use kei_connector_contracts.Health.{
  stale, bundle_stale, Timestamp, Health, given, one_if, present, is_negative, is_hex,
  digest_pattern, malformed_digest, malformed_time, before, is_cold, wrong_check, interval_error,
  valid_state_reason, validate_metadata, validate,
}
use kei_connector_contracts.Health.Laws.{IsComplete, reason_of, validate-IsComplete}

abbrev at : ℕ → Option Timestamp
at t = some (record { instant = t; offset = pos 0 })

abbrev stale_report : Health
stale_report = record {
  schema_version = pos 1;
  state = some stale;
  bundle_version = some (pos 7);
  policy_revision = some (pos 3);
  bundle_digest =
      some (codes "sha256:0123456789abcdef0123456789abcdef0123456789abcdef0123456789abcdef");
  checked_at = at 30;
  accepted_at = at 10;
  expires_at = at 100;
  reason_code = some bundle_stale;
  reported_at = none;
}

stale_valid : validate stale_report false ≡ none
unfolding validate validate_metadata valid_state_reason interval_error wrong_check is_cold before
    malformed_time malformed_digest digest_pattern is_hex is_negative present one_if given
    cut_prefix all int_eq int_lt
stale_valid = refl

stale_reason : reason_of stale ≡ some (some bundle_stale)
unfolding reason_of
stale_reason = refl

validate-IsComplete_example :
    IsComplete stale_report × (stale_report.reason_code ≡ some bundle_stale)
validate-IsComplete_example =
    validate-IsComplete stale_report false stale (some bundle_stale) stale_valid refl stale_reason
