-- ===== src/Bundle/Validate/Laws.antt =====
-- bundle/bundle.go: accepted bundles.
use kei_connector_contracts.Prelude.{
  ℕ, ◌+◌, ◌≤◌, ◌<◌, ◌≡◌, refl, subst, ◌≢◌, ◌⊎◌, inl, inr, true, false, not, ◌||◌, Option, none,
  some, [], arith, codes, ==_iff, ◌==◌, ltb, if◌then◌else◌, Bool-cases, Option-cases, pos, int_lt,
  ok,
}
use kei_connector_contracts.Bundle.Types.{Time, V2PolicySet, schema_v2, strict_policy_set}
use kei_connector_contracts.Bundle.Kinds.{validate_harnesses}
use kei_connector_contracts.Bundle.Session.{
  max_issued_at_clock_skew, subject_snapshot_fresh, has_identities,
}
use kei_connector_contracts.Bundle.Plan.{PlanValidator}
use kei_connector_contracts.Bundle.Validate.{
  Dialect, Envelope, Received, ValidateError, unsupported_mode, invalid_identity, SchemaValidator,
  Expected, bundle_issuer, one_day, validate_schema, validate_identity, validate_window,
  validate_policy_dialect, validate_policy_set_v2, then_check, harness_check, validate_v1_envelope,
  validate_snapshot, validate_v2_envelope, accept, validate_v2, validate,
}

-- What both versions of a bundle satisfy when it is accepted.
pub record IsAcceptable (x : Expected) (e : Envelope) : Type 0 where
  pub issuer : e.issuer ≡ bundle_issuer
  pub named : e.bundle_id ≢ []
  pub version : int_lt e.bundle_version (pos 1) ≡ false
  pub revision : int_lt e.policy_revision (pos 1) ≡ false
  pub installation : e.installation_id ≡ x.installation_id
  pub org : e.body.org_id ≡ x.org_id
  pub workspace : e.body.workspace_id ≡ x.workspace_id
  pub newer : int_lt x.highest_version e.bundle_version ≡ true
  pub issued : e.body.issued_at ≤ x.now + max_issued_at_clock_skew
  pub unexpired : x.now < e.not_after
  pub window : e.not_after ≤ e.body.issued_at + one_day
  pub nonempty_window : e.body.issued_at < e.not_after
  pub dialect : Dialect
  pub declared : e.dialect ≡ some dialect
  pub default_deny : dialect.default_effect ≡ codes "deny"
  pub harnesses : validate_harnesses e.body ≡ none

then_check-none : (a b : Option ValidateError) → then_check a b ≡ none → (a ≡ none) × (b ≡ none)
unfolding then_check
then_check-none none b h = (refl, h)
then_check-none (some e) b h = absurd (cc)

-- The dialect is there and denies by default.
abbrev IsClosed : Option Dialect → Type 0
IsClosed o = (d : Dialect) × (o ≡ some d) × (d.default_effect ≡ codes "deny")

dialect-IsClosed : (o : Option Dialect) → validate_policy_dialect o ≡ none → IsClosed o
unfolding validate_policy_dialect
dialect-IsClosed none h = absurd (cc)
dialect-IsClosed (some d) h = (d, refl, ground (arith, ==_iff d.default_effect (codes "deny")))

policy_set-IsClosed :
    (plan : PlanValidator) (o : Option Dialect) (set : Option V2PolicySet)
    → validate_policy_set_v2 plan o set ≡ none
    → IsClosed o
unfolding validate_policy_set_v2
policy_set-IsClosed plan none set h = absurd (cc)
policy_set-IsClosed plan (some d) set h =
    (d, refl, ground (arith, ==_iff d.default_effect (codes "deny")))

module _ (x : Expected) (e : Envelope) where
  acceptable :
      validate_identity e ≡ none
      → validate_window x e ≡ none
      → IsClosed e.dialect
      → harness_check e.body ≡ none
      → IsAcceptable x e
  unfolding validate_identity validate_window harness_check
  acceptable i w (d, c, n) k = record {
    issuer = ground (arith, ==_iff e.issuer bundle_issuer);
    named = λ n. ground (arith, (==_iff e.bundle_id []).1 n);
    version = ground arith;
    revision = ground arith;
    installation = ground (arith, ==_iff e.installation_id x.installation_id);
    org = ground (arith, ==_iff e.body.org_id x.org_id);
    workspace = ground (arith, ==_iff e.body.workspace_id x.workspace_id);
    newer = ground arith;
    issued = ground arith;
    unexpired = ground arith;
    window = ground arith;
    nonempty_window = ground arith;
    dialect = d;
    declared = c;
    default_deny = n;
    harnesses = ground arith;
  }

  v1-IsAcceptable : validate_v1_envelope x e ≡ none → IsAcceptable x e
  unfolding validate_v1_envelope
  v1-IsAcceptable h =
      let mode =
        if e.body.mode == codes "online" || e.body.mode == codes "bundle"
        then none
        else some unsupported_mode in
      let dialect = validate_policy_dialect e.dialect in
      let harness = harness_check e.body in
      let (i, h1) =
        then_check-none (validate_identity e)
          (then_check (validate_window x e) (then_check mode (then_check dialect harness))) h in
      let (w, h2) =
        then_check-none (validate_window x e) (then_check mode (then_check dialect harness)) h1 in
      let (m, h3) = then_check-none mode (then_check dialect harness) h2 in
      let (d, k) = then_check-none dialect harness h3 in
      acceptable i w (dialect-IsClosed e.dialect d) k

  v2-IsAcceptable :
      (plan : PlanValidator)
      → validate_v2_envelope plan x e ≡ none
      → IsAcceptable x e × (e.body.schema ≡ schema_v2) × (validate_snapshot e.body ≡ none)
  unfolding validate_v2_envelope
  v2-IsAcceptable plan h =
      let schema = if not (e.body.schema == schema_v2) then some invalid_identity else none in
      let snapshot = validate_snapshot e.body in
      let set = validate_policy_set_v2 plan e.dialect (strict_policy_set e.body) in
      let harness = harness_check e.body in
      let after_window = then_check snapshot (then_check set harness) in
      let (s, h1) =
        then_check-none schema
          (then_check (validate_identity e) (then_check (validate_window x e) after_window)) h in
      let (i, h2) =
        then_check-none (validate_identity e) (then_check (validate_window x e) after_window) h1 in
      let (w, h3) = then_check-none (validate_window x e) after_window h2 in
      let (n, h4) = then_check-none snapshot (then_check set harness) h3 in
      let (c, k) = then_check-none set harness h4 in
      (
        acceptable i w (policy_set-IsClosed plan e.dialect (strict_policy_set e.body) c) k,
        ground (arith, ==_iff e.body.schema schema_v2),
        n,
      )

accept_ok :
    (validator : SchemaValidator) (checks : Envelope → Option ValidateError) (r : Received)
    (e : Envelope)
    → accept validator checks r ≡ ok e
    → (validate_schema validator r ≡ none) × (checks e ≡ none)
unfolding accept
accept_ok validator checks r e h = elim (Option-cases (validate_schema validator r)) [
  | inr (x, f) ↦ absurd (ground arith)
  | inl f ↦ elim (Option-cases r.envelope) [
    | inl n ↦ absurd (ground arith)
    | inr (v, g) ↦ elim (Option-cases (checks v)) [
      | inr (x, c) ↦ absurd (ground arith)
      | inl c ↦ (f, let same : v ≡ e = ground arith in subst (λ t. checks t ≡ none) same c)
    ]
  ]
]

v2_ok :
    (validator : SchemaValidator) (plan : PlanValidator) (x : Expected) (r : Received)
    (e : Envelope)
    → validate_v2 validator plan x r ≡ ok e
    → (validate_schema validator r ≡ none) × (validate_v2_envelope plan x e ≡ none)
unfolding validate_v2
v2_ok validator plan x r e h = accept_ok validator (validate_v2_envelope plan x) r e (ground arith)

-- Which version's checks an accepted bundle has passed, and the schema check before them.
validate-cases :
    (validator validator_v2 : SchemaValidator) (plan : PlanValidator) (x : Expected) (r : Received)
    (e : Envelope)
    → validate validator validator_v2 plan x r ≡ ok e
    → ((validate_schema validator r ≡ none) × (validate_v1_envelope x e ≡ none))
      ⊎ ((validate_schema validator_v2 r ≡ none) × (validate_v2_envelope plan x e ≡ none))
unfolding validate
validate-cases validator validator_v2 plan x r e h = elim (Option-cases r.schema) [
  | inl n ↦ absurd (ground arith)
  | inr (schema, s) ↦ elim (Bool-cases (schema == schema_v2)) [
    | inl y ↦ inr (v2_ok validator_v2 plan x r e (ground arith))
    | inr n ↦ inl (accept_ok validator (validate_v1_envelope x) r e (ground arith))
  ]
]

-- An accepted bundle, of either version, comes from the catalog, names itself, is for this
-- installation, is newer than the highest version seen, is issued and not expired, is valid for at
-- most a day, denies by default, and has a well-formed harness registry.
pub validate-IsAcceptable :
    (validator validator_v2 : SchemaValidator) (plan : PlanValidator) (x : Expected) (r : Received)
    (e : Envelope)
    → validate validator validator_v2 plan x r ≡ ok e
    → IsAcceptable x e
validate-IsAcceptable validator validator_v2 plan x r e h =
    elim (validate-cases validator validator_v2 plan x r e h) [
      | inl (s, c) ↦ v1-IsAcceptable x e c
      | inr (s, c) ↦ (v2-IsAcceptable x e plan c).0
    ]

-- A v2 bundle that is accepted has a subject snapshot that is fresh at once and ever after.
pub validate_v2-fresh :
    (validator : SchemaValidator) (plan : PlanValidator) (x : Expected) (r : Received)
    (e : Envelope) (later : Time)
    → validate_v2 validator plan x r ≡ ok e
    → x.now ≤ later
    → subject_snapshot_fresh e.body later ≡ true
unfolding subject_snapshot_fresh has_identities validate_snapshot
validate_v2-fresh validator plan x r e later h l =
    let (s, c) = v2_ok validator plan x r e h in
    let (a, schema, snapshot) = v2-IsAcceptable x e plan c in
    elim (Option-cases e.body.identities) [
      | inl n ↦ absurd (ground arith)
      | inr (ids, i) ↦
          let issued : ltb (later + max_issued_at_clock_skew) e.body.issued_at ≡ false =
            ltb_late x.now later max_issued_at_clock_skew e.body.issued_at l a.issued in
          ground (arith, (==_iff e.body.schema schema_v2).1 schema)
    ]
  where
    ltb_late : (now later skew t : ℕ) → now ≤ later → t ≤ now + skew → ltb (later + skew) t ≡ false
    ltb_late now later skew t l k = ground arith

-- Without the schema validators no bundle is accepted, whatever it holds.
pub validate-needs_schema :
    (plan : PlanValidator) (x : Expected) (r : Received) (e : Envelope)
    → validate none none plan x r ≢ ok e
unfolding validate_schema
validate-needs_schema plan x r e h = elim (validate-cases none none plan x r e h) [
  | inl (s, c) ↦ absurd (cc)
  | inr (s, c) ↦ absurd (cc)
]
