-- ===== src/Bundle/Validate.antt =====
-- bundle/bundle.go: which received bundles are accepted. The JSON decoders are not modelled: the
-- received bytes stand as what the decoders make of them, `none` where one refuses.
pub mod Laws
use kei_connector_contracts.Prelude.{
  ℕ, zero, suc, ◌+◌, ◌-◌, ◌*◌, ◌≤◌, ◌<◌, String, ◌≡◌, refl, sym, ap, ap₂, subst, ◌∙◌, ◌≢◌, ◌↔◌, ◌⊎◌,
  inl, inr, Bool, true, false, not, ◌&&◌, ◌||◌, Option, none, some, List, [], ◌∷◌, ◌++◌, map,
  reverse, arith, Text, codes, ==_iff, ==_refl, ◌==◌, any, all, keep, find, ltb, leb, eqb,
  if◌then◌else◌, eqb_iff, Bool-cases, Option-cases, &&-eq-true, All, In, All_at, length, take, drop,
  length-append, In-append, In-keep, keep-In, any_iff, any_none, all_at, find_sound, find_complete,
  find-append, In-map, map-In, ℤ, pos, negsuc, int_lt, int_eq, int_lt_asym, int_lt_cotrans,
  int_eq_lem, Try, ok, err, ◌>>=◌,
}
use kei_connector_contracts.Strings.{index, lower}
use kei_connector_contracts.Bundle.Types.{
  Time, Payload, V2PolicySet, V2Tool, V2HarnessPolicy, schema_v2, eval_deny_overrides,
  strict_policy_set,
}
use kei_connector_contracts.Bundle.Kinds.{KindError, validate_harnesses}
use kei_connector_contracts.Bundle.Session.{max_issued_at_clock_skew}
use kei_connector_contracts.Bundle.Plan.{PlanValidator, plan_valid, is_set}

-- What the policy set declares of its dialect; `order` is read in v1 and `checks` in v2.
pub record Dialect : Type 0 where
  pub schema : Text
  pub match_semantics : Text
  pub order : Text
  pub checks : Text
  pub default_effect : Text

-- A decoded bundle: the fields that only validation reads, and the payload.
pub record Envelope : Type 0 where
  pub issuer : Text
  pub bundle_id : Text
  pub bundle_version : ℤ
  pub policy_revision : ℤ
  pub installation_id : Text
  pub not_after : Time
  pub dialect : Option Dialect
  pub body : Payload

-- The received bytes: whether they are none, whether an object repeats a key, the schema that a
-- lenient decoding gives, and what the strict decoding gives.
pub record Received : Type 0 where
  pub is_empty : Bool
  pub repeats_key : Bool
  pub schema : Option Text
  pub envelope : Option Envelope

pub data ValidateError : Type 0 where
  empty_bundle duplicate_key bad_identity unsupported_schema schema_unavailable : ValidateError
  unknown_field invalid_schema undecodable : ValidateError
  invalid_identity audience_mismatch rollback issued_in_future expired invalid_window :
      ValidateError
  unsupported_mode no_identities bad_dialect unsupported_dialect unsupported_policy_set :
      ValidateError
  empty_condition invalid_plan : ValidateError
  invalid_harnesses : KindError → ValidateError

-- A validator that a caller installs: the text of its error, or `none`.
abbrev pub SchemaValidator : Type 0
SchemaValidator = Option (Received → Option Text)

-- Whom the bundle is for, the highest version seen, and the clock.
pub record Expected : Type 0 where
  pub installation_id : Text
  pub org_id : Text
  pub workspace_id : Text
  pub highest_version : ℤ
  pub now : Time

abbrev pub bundle_issuer : Text
bundle_issuer = codes "kei-policy-catalog"

abbrev pub one_day : ℕ
one_day = 86_400_000_000_000

-- The code that follows an error of a schema validator.
unfoldable pub schema_error : Text → ValidateError
schema_error message = elim (index (map lower message) (codes "additional properties")) [
  | some i ↦ unknown_field
  | none ↦ invalid_schema
]

-- The schema check, which both versions begin with.
unfoldable pub validate_schema : SchemaValidator → Received → Option ValidateError
validate_schema none r = some schema_unavailable
validate_schema (some validator) r = elim (validator r) [
  | none ↦ none
  | some message ↦ some (schema_error message)
]

unfoldable pub validate_identity : Envelope → Option ValidateError
validate_identity e =
    if not (e.issuer == bundle_issuer)
      || e.bundle_id == []
      || int_lt e.bundle_version (pos 1)
      || int_lt e.policy_revision (pos 1)
    then some invalid_identity
    else none

-- The audience, the version and the validity window, in the order of the code.
unfoldable pub validate_window : Expected → Envelope → Option ValidateError
validate_window x e =
    if not (e.installation_id == x.installation_id)
      || not (e.body.org_id == x.org_id)
      || not (e.body.workspace_id == x.workspace_id)
    then some audience_mismatch
    else if not (int_lt x.highest_version e.bundle_version)
    then some rollback
    else if ltb (x.now + max_issued_at_clock_skew) e.body.issued_at
    then some issued_in_future
    else if not (ltb x.now e.not_after)
    then some expired
    else if ltb (e.body.issued_at + one_day) e.not_after || not (ltb e.body.issued_at e.not_after)
    then some invalid_window
    else none

unfoldable pub validate_policy_dialect : Option Dialect → Option ValidateError
validate_policy_dialect none = some bad_dialect
validate_policy_dialect (some d) =
    if not (d.match_semantics == codes "kei.match/v1")
      || (not (d.order == codes "array_order_first_match") && not (d.order == eval_deny_overrides))
      || not (d.default_effect == codes "deny")
    then some unsupported_dialect
    else none

-- A condition that is there and names no harness.
unfoldable pub has_empty_condition : V2HarnessPolicy → Bool
has_empty_condition p = elim p.condition [ none ↦ false | some harness ↦ harness == [] ]

unfoldable pub has_invalid_plan : PlanValidator → V2Tool → Bool
has_invalid_plan plan t =
    is_set t.connector_binding && ltb 0 t.plan_length && not (plan_valid plan t)

unfoldable pub validate_policy_set_v2 :
    PlanValidator → Option Dialect → Option V2PolicySet → Option ValidateError
validate_policy_set_v2 plan none set = some bad_dialect
validate_policy_set_v2 plan (some d) set =
    if not (d.schema == codes "kei.policy-set/v2")
      || not (d.match_semantics == codes "kei.match/v2")
      || not (d.checks == codes "per_capability_first_match_and")
      || not (d.default_effect == codes "deny")
    then some unsupported_dialect
    else elim set [
      | none ↦ some unsupported_policy_set
      | some s ↦
          if any has_empty_condition s.harness_policies
          then some empty_condition
          else if any (has_invalid_plan plan) s.tools
          then some invalid_plan
          else none
    ]

-- The first of two checks that refuses.
unfoldable pub then_check : Option ValidateError → Option ValidateError → Option ValidateError
then_check (some e) later = some e
then_check none later = later

-- The error of the harness registry, wrapped.
unfoldable pub harness_check : Payload → Option ValidateError
harness_check v = elim (validate_harnesses v) [ none ↦ none | some e ↦ some (invalid_harnesses e) ]

unfoldable pub validate_v1_envelope : Expected → Envelope → Option ValidateError
validate_v1_envelope x e = then_check (validate_identity e) (
    then_check (validate_window x e) (
      then_check
        (if e.body.mode == codes "online" || e.body.mode == codes "bundle"
          then none
          else some unsupported_mode)
        (then_check (validate_policy_dialect e.dialect) (harness_check e.body))))

-- The mode and the snapshot that a v2 bundle must carry.
unfoldable pub validate_snapshot : Payload → Option ValidateError
validate_snapshot v =
    if not (v.mode == codes "bundle")
    then some unsupported_mode
    else elim v.identities [ none ↦ some no_identities | some ids ↦ none ]

unfoldable pub validate_v2_envelope : PlanValidator → Expected → Envelope → Option ValidateError
validate_v2_envelope plan x e =
    then_check (if not (e.body.schema == schema_v2) then some invalid_identity else none) (
      then_check (validate_identity e) (
        then_check (validate_window x e) (
          then_check (validate_snapshot e.body) (
            then_check (validate_policy_set_v2 plan e.dialect (strict_policy_set e.body))
              (harness_check e.body)))))

-- The envelope, if the schema check and the checks of the envelope pass.
unfoldable pub accept :
    SchemaValidator → (Envelope → Option ValidateError) → Received → Try ValidateError Envelope
accept validator checks r = elim (validate_schema validator r) [
  | some e ↦ err e
  | none ↦ elim r.envelope [
    | none ↦ err undecodable
    | some v ↦ elim (checks v) [ some e ↦ err e | none ↦ ok v ]
  ]
]

unfoldable pub validate_v2 :
    SchemaValidator → PlanValidator → Expected → Received → Try ValidateError Envelope
validate_v2 validator plan x r =
    if r.is_empty
    then err empty_bundle
    else if r.repeats_key
    then err duplicate_key
    else accept validator (validate_v2_envelope plan x) r

-- `Validate`, with the validators of both versions.
unfoldable pub validate :
    SchemaValidator
    → SchemaValidator
    → PlanValidator
    → Expected
    → Received
    → Try ValidateError Envelope
validate validator validator_v2 plan x r =
    if r.is_empty
    then err empty_bundle
    else if r.repeats_key
    then err duplicate_key
    else elim r.schema [
      | none ↦ err bad_identity
      | some schema ↦
          if schema == schema_v2
          then validate_v2 validator_v2 plan x r
          else if not (schema == codes "kei.policy-bundle/v1")
          then err unsupported_schema
          else accept validator (validate_v1_envelope x) r
    ]
