-- ===== src/Bundle/Harness/Admission.antt =====
-- bundle/harness_match.go: what precedes the policies of a shell or server call.
use kei_connector_contracts.Prelude.{
  ◌≡◌, refl, subst, ◌≢◌, inl, inr, Bool, true, not, ◌||◌, Option, none, some, [], arith, Text,
  ==_iff, ◌==◌, Bool-cases, Option-cases,
}
use kei_connector_contracts.HarnessMatch.Match.{Call}
use kei_connector_contracts.Bundle.Types.{Time, Payload, V2PolicySet, allow, strict_policy_set}
use kei_connector_contracts.Bundle.Session.{
  SessionSubject, Membership, v2_subject_denial, bundle_memberships_at,
}
use kei_connector_contracts.Bundle.Session.Gate.{
  v2_subject_denial_deny, IsAdmitted, v2_subject_denial-none,
}
use kei_connector_contracts.Bundle.Harness.{
  decide_harness_call, harness_policy_set, evaluate_v2_harness,
}
use kei_connector_contracts.Bundle.Outcomes.{deny_allow}

-- What an allowed shell or server call has shown before the policies decide.
abbrev pub IsHarnessShown : Payload → Bool → Call → Option SessionSubject → Time → Type 0
IsHarnessShown v shell call subject now =
    (s : SessionSubject) × ((members : Text → Membership) × ((set : V2PolicySet) × (subject
          ≡ some s)
        × (call.agent_id ≢ [])
        × IsAdmitted v s now
        × (bundle_memberships_at v now ≡ some members)
        × ((members s.user_id).known ≡ true)
        × ((members s.user_id).granted ≡ true)
        × (harness_policy_set (strict_policy_set v) ≡ some set)
        × ((decide_harness_call v shell call s (members s.user_id) set).outcome ≡ allow)))

-- A shell or server call is allowed only for a named agent and an admitted session subject whose
-- memberships in the bundle are known and granted, by the policies of a policy set that declares the
-- harness semantics.
pub evaluate_v2_harness_allow :
    (v : Payload) (shell : Bool) (call : Call) (subject : Option SessionSubject) (now : Time)
    → (evaluate_v2_harness v shell call subject now).outcome ≡ allow
    → IsHarnessShown v shell call subject now
unfolding evaluate_v2_harness
evaluate_v2_harness_allow v shell call none now h = elim (Bool-cases (call.agent_id == [])) [
  | inl y ↦ absurd (ground arith)
  | inr n ↦ elim (Option-cases (v2_subject_denial v none now)) [
    | inl e ↦ absurd (ground arith)
    | inr (d, e) ↦ absurd (deny_allow (v2_subject_denial_deny v none now d e) (ground arith))
  ]
]
evaluate_v2_harness_allow v shell call (some s) now h = elim (Bool-cases (call.agent_id == [])) [
  | inl y ↦ absurd (ground arith)
  | inr n ↦ elim (Option-cases (v2_subject_denial v (some s) now)) [
    | inr (d, e) ↦ absurd (deny_allow (v2_subject_denial_deny v (some s) now d e) (ground arith))
    | inl e ↦
        let (s', given, admitted) = v2_subject_denial-none v (some s) now e in
        elim (Option-cases (bundle_memberships_at v now)) [
          | inl k ↦ absurd (ground arith)
          | inr (members, k) ↦
              elim (Bool-cases (not (members s.user_id).known || not (members s.user_id).granted)) [
                | inl g ↦ absurd (ground arith)
                | inr g ↦ elim (Option-cases (harness_policy_set (strict_policy_set v))) [
                  | inl p ↦ absurd (ground arith)
                  | inr (set, p) ↦ (
                    s,
                    (
                      members,
                      (
                        set,
                        refl,
                        λ q. ground (arith, (==_iff call.agent_id []).1 q),
                        subst (λ t. IsAdmitted v t now) (same s s' given) admitted,
                        k,
                        ground arith,
                        ground arith,
                        p,
                        ground arith,
                      ),
                    ),
                  )
                ]
              ]
        ]
  ]
]
  where
    same : (a b : SessionSubject) → some a ≡ some b → b ≡ a
    same a b e = cc
