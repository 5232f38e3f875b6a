-- ===== src/Bundle/Plan/Models.antt =====
-- bundle/model_v2.go: what an allowed model call has shown.
use kei_connector_contracts.Prelude.{
  ◌≡◌, refl, ◌≢◌, inl, inr, Option, none, some, [], arith, Text, codes, ==_iff, find, Option-cases,
  In, find_sound,
}
use kei_connector_contracts.Bundle.Types.{Time, Payload, allow, AgentModelProfile}
use kei_connector_contracts.Bundle.Session.{SessionSubject, v2_subject_denial}
use kei_connector_contracts.Bundle.Session.Gate.{
  v2_subject_denial_deny, IsAdmitted, v2_subject_denial-none,
}
use kei_connector_contracts.Bundle.Plan.{assigns, by_assignment, evaluate_v2_model}
use kei_connector_contracts.Bundle.Outcomes.{deny_allow}

assignment_allow :
    (a : Option AgentModelProfile)
    → (by_assignment a).outcome ≡ allow
    → (p : AgentModelProfile) × (a ≡ some p) × (p.status ≡ codes "active")
unfolding by_assignment
assignment_allow none h = absurd (ground arith)
assignment_allow (some p) h = (p, refl, ground (arith, ==_iff p.status (codes "active")))

-- What an allowed model call has shown.
abbrev pub IsModelShown : Payload → Text → Text → Option SessionSubject → Time → Type 0
IsModelShown v profile_id agent_id subject now =
    (s : SessionSubject) × ((p : AgentModelProfile) × (subject ≡ some s)
      × IsAdmitted v s now
      × In p v.agent_model_profiles
      × (p.agent_id ≡ agent_id)
      × (p.profile_id ≡ profile_id)
      × (p.status ≡ codes "active")
      × (agent_id ≢ [])
      × (profile_id ≢ []))

-- A model call is allowed only to an admitted session subject of an agent to which the profile is
-- assigned, by an assignment that is listed and active.
pub evaluate_v2_model_allow :
    (v : Payload) (profile_id agent_id : Text) (subject : Option SessionSubject) (now : Time)
    → (evaluate_v2_model v profile_id agent_id subject now).outcome ≡ allow
    → IsModelShown v profile_id agent_id subject now
unfolding evaluate_v2_model assigns
evaluate_v2_model_allow v profile_id agent_id subject now h =
    elim (Option-cases (v2_subject_denial v subject now)) [
      | inr (d, e) ↦ absurd (deny_allow (v2_subject_denial_deny v subject now d e) (ground arith))
      | inl e ↦
          let (s, given, admitted) = v2_subject_denial-none v subject now e in
          let (p, found, active) =
            assignment_allow (find (assigns agent_id profile_id) v.agent_model_profiles)
              (ground arith) in
          let (m, t) = find_sound (assigns agent_id profile_id) v.agent_model_profiles p found in
          (
            s,
            (
              p,
              given,
              admitted,
              m,
              ground (arith, ==_iff p.agent_id agent_id),
              ground (arith, ==_iff p.profile_id profile_id),
              active,
              λ n. ground (arith, (==_iff agent_id []).1 n),
              λ n. ground (arith, (==_iff profile_id []).1 n),
            ),
          )
    ]
