-- ===== src/Health.antt =====
-- policybundlehealth/health.go: the health report of a runtime's policy bundle, once decoded.
mod Tests
pub mod Laws
use kei_connector_contracts.Prelude.{
  ℕ, zero, suc, ◌+◌, ◌-◌, ◌*◌, ◌≤◌, ◌<◌, String, ◌≡◌, refl, sym, ap, ap₂, subst, ◌∙◌, ◌≢◌, ◌↔◌, ◌⊎◌,
  inl, inr, Bool, true, false, not, ◌&&◌, ◌||◌, Option, none, some, List, [], ◌∷◌, ◌++◌, map,
  reverse, arith, Text, codes, ==_iff, ==_refl, ◌==◌, any, all, keep, find, ltb, leb, eqb,
  if◌then◌else◌, eqb_iff, Bool-cases, Option-cases, &&-eq-true, All, In, All_at, length, take, drop,
  length-append, In-append, In-keep, keep-In, any_iff, any_none, all_at, find_sound, find_complete,
  find-append, In-map, map-In, ℤ, pos, negsuc, int_lt, int_eq, int_lt_asym, int_lt_cotrans,
  int_eq_lem, Try, ok, err, ◌>>=◌,
}
use kei_connector_contracts.Strings.{cut_prefix}

pub data State : Type 0 where
  cold active stale expired invalid unsupported revoked : State

pub data Reason : Type 0 where
  bundle_missing refresh_failed bundle_stale bundle_expired integrity_rejected : Reason
  audience_rejected schema_unsupported rollback_rejected runtime_revoked : Reason
  unknown_reason : Text → Reason

-- A `time.Time`: the nanoseconds since the zero time, and the offset of its zone.
pub record Timestamp : Type 0 where
  pub instant : ℕ
  pub offset : ℤ

-- A state of `none` is a text that `knownState` does not know.
pub record Health : Type 0 where
  pub schema_version : ℤ
  pub state : Option State
  pub bundle_version : Option ℤ
  pub policy_revision : Option ℤ
  pub bundle_digest : Option Text
  pub checked_at : Option Timestamp
  pub accepted_at : Option Timestamp
  pub expires_at : Option Timestamp
  pub reason_code : Option Reason
  pub reported_at : Option Timestamp

pub data HealthError : Type 0 where
  bad_schema bad_state bad_receipt bad_version incomplete bad_digest bad_timestamp : HealthError
  bad_check bad_interval bad_ordering bad_combination : HealthError

-- A pointer that is not nil.
unfoldable pub given : {A : Type 0} → Option A → Bool
given none = false
given (some a) = true

unfoldable pub one_if : Bool → ℕ
one_if false = 0
one_if true = 1

-- The count of the five fields of an accepted bundle.
unfoldable pub present : Health → ℕ
present h =
    one_if (given h.bundle_version)
    + (one_if (given h.policy_revision)
        + (one_if (given h.bundle_digest)
            + (one_if (given h.accepted_at) + one_if (given h.expires_at))))

unfoldable pub is_negative : Option ℤ → Bool
is_negative none = false
is_negative (some v) = int_lt v (pos 0)

-- A byte of `[0-9a-f]`.
unfoldable pub is_hex : ℕ → Bool
is_hex c = (leb b'0' c && leb c b'9') || (leb b'a' c && leb c b'f')

-- `^sha256:[0-9a-f]{64}$`
unfoldable pub digest_pattern : Text → Bool
digest_pattern t = elim (cut_prefix t (codes "sha256:")) [
  | none ↦ false
  | some hex ↦ eqb (length hex) 64 && all is_hex hex
]

unfoldable pub malformed_digest : Option Text → Bool
malformed_digest none = false
malformed_digest (some d) = not (digest_pattern d)

unfoldable pub malformed_time : Option Timestamp → Bool
malformed_time none = false
malformed_time (some t) = not (int_eq t.offset (pos 0)) || eqb t.instant 0

unfoldable pub before : Timestamp → Timestamp → Bool
before a b = ltb a.instant b.instant

unfoldable pub is_cold : Option State → Bool
is_cold (some cold) = true
is_cold _ = false

-- The condition of the check timestamp, with the nested test of the code.
unfoldable pub wrong_check : Health → Bool
wrong_check h =
    let unchecked = not (given h.checked_at) in
    let cold_start = is_cold h.state && not (given h.reason_code) in
    let differ = if unchecked then not cold_start else cold_start in
    differ && (unchecked || not (is_cold h.state))

-- The interval and the order of the timestamps of an accepted bundle.
unfoldable pub interval_error :
    Option Timestamp → Option Timestamp → Option Timestamp → Option HealthError
interval_error none expires checked = none
interval_error (some accepted) expires checked = elim expires [
  | none ↦ some bad_interval
  | some e ↦ if not (before accepted e) then some bad_interval else elim checked [
    | none ↦ some bad_ordering
    | some c ↦ if before c accepted then some bad_ordering else none
  ]
]

-- `validStateReason`, for the states and reasons in turn.
unfoldable pub valid_state_reason : State → Option Reason → Bool → Bool → Bool
valid_state_reason cold (some bundle_missing) accepted checked = not accepted && checked
valid_state_reason cold none accepted checked = not accepted && not checked
valid_state_reason active none accepted checked = accepted && checked
valid_state_reason stale (some bundle_stale) accepted checked = accepted && checked
valid_state_reason expired (some bundle_expired) accepted checked = accepted && checked
valid_state_reason invalid (some refresh_failed) accepted checked = checked
valid_state_reason invalid (some integrity_rejected) accepted checked = checked
valid_state_reason invalid (some audience_rejected) accepted checked = checked
valid_state_reason invalid (some rollback_rejected) accepted checked = checked
valid_state_reason unsupported (some schema_unsupported) accepted checked = checked
valid_state_reason revoked (some runtime_revoked) accepted checked = checked
valid_state_reason _ _ accepted checked = false

-- What follows the version checks, for a known state.
unfoldable pub validate_metadata : Health → State → Option HealthError
validate_metadata h st =
    if not (eqb (present h) 0) && not (eqb (present h) 5)
    then some incomplete
    else if malformed_digest h.bundle_digest
    then some bad_digest
    else if malformed_time h.checked_at
        || malformed_time h.accepted_at
        || malformed_time h.expires_at
        || malformed_time h.reported_at
    then some bad_timestamp
    else if wrong_check h
    then some bad_check
    else elim (interval_error h.accepted_at h.expires_at h.checked_at) [
      | some e ↦ some e
      | none ↦
          if not (valid_state_reason st h.reason_code (eqb (present h) 5) (given h.checked_at))
          then some bad_combination
          else none
    ]

-- `Health.Validate`; `none` is a nil error.
unfoldable pub validate : Health → Bool → Option HealthError
validate h read_projection =
    if not (int_eq h.schema_version (pos 1)) then some bad_schema else elim h.state [
      | none ↦ some bad_state
      | some st ↦
          if (if read_projection then not (given h.reported_at) else given h.reported_at)
          then some bad_receipt
          else if is_negative h.bundle_version || is_negative h.policy_revision
          then some bad_version
          else validate_metadata h st
    ]
