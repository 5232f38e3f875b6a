-- ===== src/AuthorizeRequest/Tests.antt =====
-- Authorize requests at concrete inputs.
use kei_connector_contracts.Prelude.{◌≡◌, refl, ◌↔◌, none, some, [], codes, ◌==◌, any, all}
use kei_connector_contracts.AuthorizeRequest.{
  Request, validate, validate_caller, absent_or, harness_pattern, is_lower_alnum,
  session_ref_pattern, is_origin, has_connector, incomplete,
}
use kei_connector_contracts.AuthorizeRequest.Laws.{IsWellFormed, validate_iff}

abbrev by_connector : Request
by_connector = record {
  schema = codes "kei.authorize-request/v1";
  tool = [];
  connector = some (record { connector_id = codes "linear"; capability = codes "issues:read" });
  caller = some (record {
    harness = some (codes "openwebui");
    origin = some (codes "automation");
    session_ref = none;
  });
}

by_connector_valid : validate by_connector ≡ none
unfolding validate validate_caller absent_or harness_pattern is_lower_alnum session_ref_pattern
    is_origin has_connector incomplete all any ◌==◌
by_connector_valid = refl

validate_iff_example : (validate by_connector ≡ none) ↔ IsWellFormed by_connector
validate_iff_example = validate_iff by_connector
