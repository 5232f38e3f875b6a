-- ===== src/Bundle/Session/Gate.antt =====
-- bundle/evaluate_v2.go: which session subjects pass the gate.
use kei_connector_contracts.Prelude.{
  ◌≡◌, refl, ◌≢◌, inl, inr, true, Option, none, some, [], arith, ==_iff, ◌==◌, Bool-cases,
  Option-cases,
}
use kei_connector_contracts.Bundle.Types.{Time, Payload, Identity, schema_v2, Decision, deny}
use kei_connector_contracts.Bundle.Session.{
  SessionSubject, linked, subject_gate, subject_snapshot_fresh, session_identity, identity_denial,
  v2_subject_denial,
}

-- What a session subject has shown when it passes the gate of the v2 decisions.
pub record IsAdmitted (v : Payload) (s : SessionSubject) (now : Time) : Type 0 where
  pub current : subject_snapshot_fresh v now ≡ true
  pub status : s.status ≡ linked
  pub named : s.user_id ≢ []
  pub identity : Identity
  pub known : session_identity v s now ≡ some identity
  pub same_user : identity.user_id ≡ s.user_id
  pub is_linked : identity.status ≡ linked

pub gate_passed :
    (s : SessionSubject) → subject_gate s ≡ none → (s.status ≡ linked) × (s.user_id ≢ [])
unfolding subject_gate
gate_passed s h =
    (ground (arith, ==_iff s.status linked), λ e. ground (arith, (==_iff s.user_id []).1 e))

identity_passed :
    (s : SessionSubject) (id : Option Identity)
    → identity_denial s id ≡ none
    → (i : Identity) × (id ≡ some i) × (i.user_id ≡ s.user_id) × (i.status ≡ linked)
unfolding identity_denial
identity_passed s none h = absurd (cc)
identity_passed s (some i) h =
    (i, refl, ground (arith, ==_iff i.user_id s.user_id), ground (arith, ==_iff i.status linked))

pub gate_denies : (s : SessionSubject) (d : Decision) → subject_gate s ≡ some d → d.outcome ≡ deny
unfolding subject_gate
gate_denies s d h = ground arith

identity_denies :
    (s : SessionSubject) (id : Option Identity) (d : Decision)
    → identity_denial s id ≡ some d
    → d.outcome ≡ deny
unfolding identity_denial
identity_denies s none d h = ground arith
identity_denies s (some i) d h = ground arith

pub fresh_schema :
    (v : Payload) (now : Time)
    → subject_snapshot_fresh v now ≡ true
    → (v.schema == schema_v2) ≡ true
unfolding subject_snapshot_fresh
fresh_schema v now h = ground arith

-- The gate never answers with an allow.
pub v2_subject_denial_deny :
    (v : Payload) (subject : Option SessionSubject) (now : Time) (d : Decision)
    → v2_subject_denial v subject now ≡ some d
    → d.outcome ≡ deny
unfolding v2_subject_denial
v2_subject_denial_deny v none now d h = ground arith
v2_subject_denial_deny v (some s) now d h = elim (Bool-cases (subject_snapshot_fresh v now)) [
  | inr n ↦ ground arith
  | inl f ↦ elim (Option-cases (subject_gate s)) [
    | inr (g, e) ↦ gate_denies s d (ground (arith, fresh_schema v now f))
    | inl e ↦ identity_denies s (session_identity v s now) d (ground (arith, fresh_schema v now f))
  ]
]

pub v2_subject_denial-none :
    (v : Payload) (subject : Option SessionSubject) (now : Time)
    → v2_subject_denial v subject now ≡ none
    → (s : SessionSubject) × (subject ≡ some s) × IsAdmitted v s now
unfolding v2_subject_denial
v2_subject_denial-none v none now h = ground arith
v2_subject_denial-none v (some s) now h =
    let current : subject_snapshot_fresh v now ≡ true = ground arith in
    elim (Option-cases (subject_gate s)) [
      | inr (d, e) ↦ ground arith
      | inl e ↦
          let (status, named) = gate_passed s e in
          let (i, known, same, is_linked) =
            identity_passed s (session_identity v s now) (ground arith) in
          (
            s,
            refl,
            record {
              current = current;
              status = status;
              named = named;
              identity = i;
              known = known;
              same_user = same;
              is_linked = is_linked;
            },
          )
    ]

pub denial_of_IsAdmitted :
    (v : Payload) (s : SessionSubject) (now : Time)
    → IsAdmitted v s now
    → v2_subject_denial v (some s) now ≡ none
unfolding v2_subject_denial subject_gate identity_denial
denial_of_IsAdmitted v s now a = ground (
  arith,
  fresh_schema v now a.current,
  (==_iff s.status linked).1 a.status,
  ==_iff s.user_id [],
  (==_iff a.identity.user_id s.user_id).1 a.same_user,
  (==_iff a.identity.status linked).1 a.is_linked,
)
