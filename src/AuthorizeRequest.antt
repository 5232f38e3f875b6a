-- ===== src/AuthorizeRequest.antt =====
-- authorizerequest/request.go: the authorize request, once decoded.
mod Tests
pub mod Laws
use kei_connector_contracts.Prelude.{
  ℕ, zero, suc, ◌+◌, ◌-◌, ◌*◌, ◌≤◌, ◌<◌, String, ◌≡◌, refl, sym, ap, ap₂, subst, ◌∙◌, ◌≢◌, ◌↔◌, ◌⊎◌,
  inl, inr, Bool, true, false, not, ◌&&◌, ◌||◌, Option, none, some, List, [], ◌∷◌, ◌++◌, map,
  reverse, arith, Text, codes, ==_iff, ==_refl, ◌==◌, any, all, keep, find, ltb, leb, eqb,
  if◌then◌else◌, eqb_iff, Bool-cases, Option-cases, &&-eq-true, All, In, All_at, length, take, drop,
  length-append, In-append, In-keep, keep-In, any_iff, any_none, all_at, find_sound, find_complete,
  find-append, In-map, map-In, ℤ, pos, negsuc, int_lt, int_eq, int_lt_asym, int_lt_cotrans,
  int_eq_lem, Try, ok, err, ◌>>=◌,
}

pub record Connector : Type 0 where
  pub connector_id : Text
  pub capability : Text

-- A field that was not sent is `none`.
pub record Caller : Type 0 where
  pub harness : Option Text
  pub origin : Option Text
  pub session_ref : Option Text

-- The fields that `Validate` reads.
pub record Request : Type 0 where
  pub schema : Text
  pub tool : Text
  pub connector : Option Connector
  pub caller : Option Caller

pub data RequestError : Type 0 where
  bad_schema tool_or_connector incomplete_connector : RequestError
  bad_harness bad_origin bad_session_ref : RequestError

abbrev pub request_schema : Text
request_schema = codes "kei.authorize-request/v1"

-- A byte of `[a-z0-9]`.
unfoldable pub is_lower_alnum : ℕ → Bool
is_lower_alnum c = (leb b'a' c && leb c b'z') || (leb b'0' c && leb c b'9')

-- `^[a-z0-9][a-z0-9._-]{0,63}$`
unfoldable pub harness_pattern : Text → Bool
harness_pattern [] = false
harness_pattern (c ∷ s) =
    is_lower_alnum c
    && all (λ x. is_lower_alnum x || any (eqb x) (codes "._-")) s
    && leb (length s) 63

-- `^[A-Za-z0-9._:/-]{1,128}$`
unfoldable pub session_ref_pattern : Text → Bool
session_ref_pattern s =
    all (λ x. is_lower_alnum x || (leb b'A' x && leb x b'Z') || any (eqb x) (codes "._:/-")) s
    && leb 1 (length s)
    && leb (length s) 128

-- A field that is not sent, or passes the test.
unfoldable pub absent_or : (Text → Bool) → Option Text → Bool
absent_or test none = true
absent_or test (some t) = test t

unfoldable pub is_origin : Text → Bool
is_origin t = t == codes "interactive" || t == codes "automation"

unfoldable pub validate_caller : Caller → Option RequestError
validate_caller c =
    if not (absent_or harness_pattern c.harness)
    then some bad_harness
    else if not (absent_or is_origin c.origin)
    then some bad_origin
    else if not (absent_or session_ref_pattern c.session_ref)
    then some bad_session_ref
    else none

unfoldable pub has_connector : Option Connector → Bool
has_connector none = false
has_connector (some c) = true

unfoldable pub incomplete : Option Connector → Bool
incomplete none = false
incomplete (some c) = c.connector_id == [] || c.capability == []

-- `Request.Validate`; `none` is a nil error.
unfoldable pub validate : Request → Option RequestError
validate r =
    if not (r.schema == request_schema)
    then some bad_schema
    else if (if r.tool == [] then not (has_connector r.connector) else has_connector r.connector)
    then some tool_or_connector
    else if incomplete r.connector
    then some incomplete_connector
    else elim r.caller [ none ↦ none | some c ↦ validate_caller c ]
