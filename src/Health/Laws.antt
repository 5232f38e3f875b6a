-- ===== src/Health/Laws.antt =====
-- policybundlehealth/health.go: what a valid report says of the bundle.
use kei_connector_contracts.Prelude.{
  ◌≤◌, ◌<◌, ◌≡◌, refl, sym, Bool, true, false, Option, none, some, arith, Text, eqb,
}
use kei_connector_contracts.Health.{
  State, active, stale, expired, Reason, bundle_stale, bundle_expired, Timestamp, Health, given,
  one_if, present, digest_pattern, malformed_digest, before, interval_error, valid_state_reason,
  validate_metadata, validate,
}

-- A complete description of an accepted bundle, which was valid when it was accepted, and was
-- accepted no later than it was checked.
pub record IsComplete (h : Health) : Type 0 where
  pub version : given h.bundle_version ≡ true
  pub revision : given h.policy_revision ≡ true
  pub digest : Text
  pub digested : h.bundle_digest ≡ some digest
  pub digest_form : digest_pattern digest ≡ true
  pub accepted : Timestamp
  pub accepted_at : h.accepted_at ≡ some accepted
  pub expires : Timestamp
  pub expires_at : h.expires_at ≡ some expires
  pub checked : Timestamp
  pub checked_at : h.checked_at ≡ some checked
  pub interval : accepted.instant < expires.instant
  pub ordering : accepted.instant ≤ checked.instant

-- The states of a bundle that was accepted, and the reason that each is reported with.
unfoldable pub reason_of : State → Option (Option Reason)
reason_of active = some none
reason_of stale = some (some bundle_stale)
reason_of expired = some (some bundle_expired)
reason_of _ = none

given-some : {A : Type 0} (o : Option A) → given o ≡ true → (a : A) × (o ≡ some a)
unfolding given
given-some none h = absurd (cc)
given-some (some a) h = (a, refl)

all_present :
    (h : Health)
    → eqb (present h) 5 ≡ true
    → (given h.bundle_version ≡ true)
      × (given h.policy_revision ≡ true)
      × (given h.bundle_digest ≡ true)
      × (given h.accepted_at ≡ true)
      × (given h.expires_at ≡ true)
unfolding present one_if
all_present h e = ground arith

state_reason :
    (st : State) (reason : Option Reason) (r : Option Reason) (accepted checked : Bool)
    → reason_of st ≡ some r
    → valid_state_reason st reason accepted checked ≡ true
    → (reason ≡ r) × (accepted ≡ true) × (checked ≡ true)
unfolding reason_of valid_state_reason
state_reason st reason r accepted checked e h = ground arith

interval_passed :
    (a e c : Timestamp)
    → interval_error (some a) (some e) (some c) ≡ none
    → (a.instant < e.instant) × (a.instant ≤ c.instant)
unfolding interval_error before
interval_passed a e c h = (ground arith, ground arith)

well_formed : (d : Text) → malformed_digest (some d) ≡ false → digest_pattern d ≡ true
unfolding malformed_digest
well_formed d h = ground arith

metadata_passed :
    (h : Health) (read_projection : Bool) (st : State)
    → validate h read_projection ≡ none
    → h.state ≡ some st
    → (malformed_digest h.bundle_digest ≡ false)
      × (interval_error h.accepted_at h.expires_at h.checked_at ≡ none)
      × (valid_state_reason st h.reason_code (eqb (present h) 5) (given h.checked_at) ≡ true)
unfolding validate validate_metadata
metadata_passed h read_projection st v s = (ground arith, ground arith, ground arith)

-- The record of the facts, once each field is known to be there.
describe :
    (h : Health)
    → eqb (present h) 5 ≡ true
    → given h.checked_at ≡ true
    → malformed_digest h.bundle_digest ≡ false
    → interval_error h.accepted_at h.expires_at h.checked_at ≡ none
    → IsComplete h
describe h full checked form passed =
    let (version, revision, digested, accepted, expires) = all_present h full in
    let (d, de) = given-some h.bundle_digest digested in
    let (a, ae) = given-some h.accepted_at accepted in
    let (x, xe) = given-some h.expires_at expires in
    let (c, ce) = given-some h.checked_at checked in
    let (interval, ordering) = interval_passed a x c (rw (sym ae, sym xe, sym ce) passed) in
    record {
      version = version;
      revision = revision;
      digest = d;
      digested = de;
      digest_form = well_formed d (rw (sym de) form);
      accepted = a;
      accepted_at = ae;
      expires = x;
      expires_at = xe;
      checked = c;
      checked_at = ce;
      interval = interval;
      ordering = ordering;
    }

-- A valid report in the state active, stale or expired describes an accepted bundle completely: all
-- five fields, a well-formed digest, a validity interval that is not empty, and a check that is no
-- earlier than the acceptance; and its reason is the one of the state.
pub validate-IsComplete :
    (h : Health) (read_projection : Bool) (st : State) (r : Option Reason)
    → validate h read_projection ≡ none
    → h.state ≡ some st
    → reason_of st ≡ some r
    → IsComplete h × (h.reason_code ≡ r)
validate-IsComplete h read_projection st r v s o =
    let (form, passed, valid) = metadata_passed h read_projection st v s in
    let (reason, full, checked) =
      state_reason st h.reason_code r (eqb (present h) 5) (given h.checked_at) o valid in
    (describe h full checked form passed, reason)
