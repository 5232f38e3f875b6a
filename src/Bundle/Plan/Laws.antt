-- ===== src/Bundle/Plan/Laws.antt =====
-- bundle/evaluate_v2.go: what an allowed plan and an allowed harness tool have shown.
use kei_connector_contracts.Prelude.{
  ◌≡◌, ◌≢◌, inl, inr, true, false, Option, some, List, [], ◌∷◌, arith, Text, codes, ==_iff, ◌==◌,
  all, Option-cases,
}
use kei_connector_contracts.Bundle.Types.{
  Time, Payload, V2PolicySet, V2Tool, Decision, allow, strict_policy_set,
}
use kei_connector_contracts.Bundle.Session.{
  subject_snapshot_fresh, SessionSubject, v2_subject_denial,
}
use kei_connector_contracts.Bundle.Session.Gate.{
  fresh_schema, v2_subject_denial_deny, IsAdmitted, v2_subject_denial-none,
}
use kei_connector_contracts.Bundle.Checks.{deny_overrides, evaluate_v2_check}
use kei_connector_contracts.Bundle.Connectors.{agent_bound_to_connector}
use kei_connector_contracts.Bundle.Plan.{
  PlanValidator, tool_named, Operation, decide_operations, routed_connector, decide_plan, ask,
  gated, evaluate_v2_plan, evaluate_v2_harness_tool, decide_harness_tool, is_harness_route,
  v2_harness_tool, agent_bound,
}
use kei_connector_contracts.Bundle.Outcomes.{deny_allow}
use kei_connector_contracts.Bundle.Plan.Operations.{IsComplete, operations_allowed}

-- What precedes a v2 decision that allows.
gated_allow :
    (v : Payload) (subject : Option SessionSubject) (now : Time)
    (decision : SessionSubject → V2PolicySet → Decision)
    → (gated v subject now decision).outcome ≡ allow
    → (s : SessionSubject) × ((set : V2PolicySet) × (subject ≡ some s)
        × IsAdmitted v s now
        × (strict_policy_set v ≡ some set)
        × ((decision s set).outcome ≡ allow))
unfolding gated
gated_allow v subject now decision h = elim (Option-cases (v2_subject_denial v subject now)) [
  | inr (d, e) ↦ absurd (deny_allow (v2_subject_denial_deny v subject now d e) (ground arith))
  | inl e ↦
      let (s, given, admitted) = v2_subject_denial-none v subject now e in
      elim (Option-cases (strict_policy_set v)) [
        | inl n ↦ absurd (ground arith)
        | inr (set, p) ↦ (s, (set, given, admitted, p, ground arith))
      ]
]

routed_allow :
    (v : Payload) (validator : PlanValidator) (name agent_id : Text) (ops : List Operation)
    (s : SessionSubject) (now : Time) (set : V2PolicySet)
    → (decide_plan v validator name agent_id ops s now set).outcome ≡ allow
    → (t : V2Tool) × ((connector_id : Text) × (tool_named set name ≡ some t)
        × (routed_connector validator t ≡ some connector_id)
        × ((decide_operations v agent_id ops t connector_id (λ request.
              evaluate_v2_check set.checks
                (deny_overrides set)
                (ask v agent_id s now request))).outcome
            ≡ allow))
unfolding decide_plan
routed_allow v validator name agent_id ops s now set h = elim (Option-cases (tool_named set name)) [
  | inl n ↦ absurd (ground arith)
  | inr (t, e) ↦ elim (Option-cases (routed_connector validator t)) [
    | inl n ↦ absurd (ground arith)
    | inr (c, r) ↦ (t, (c, e, r, ground arith))
  ]
]

bound_any :
    (v : Payload) (agent_id connector_id : Text) (required : List Text)
    → agent_bound v agent_id connector_id required ≡ true
    → agent_bound v agent_id connector_id [] ≡ true
unfolding agent_bound all
bound_any v agent_id connector_id required h = ground arith

routed_named :
    (validator : PlanValidator) (t : V2Tool) (connector_id : Text)
    → routed_connector validator t ≡ some connector_id
    → (connector_id == []) ≡ false
unfolding routed_connector
routed_named validator t connector_id r = elim (Option-cases t.connector_binding) [
  | inl n ↦ absurd (ground arith)
  | inr (c, e) ↦ ground arith
]

bound_to :
    (v : Payload) (validator : PlanValidator) (agent_id : Text) (t : V2Tool) (connector_id : Text)
    → routed_connector validator t ≡ some connector_id
    → agent_id ≢ []
    → agent_bound v agent_id connector_id t.required_capabilities ≡ true
    → agent_bound_to_connector v agent_id connector_id ≡ true
unfolding agent_bound_to_connector
bound_to v validator agent_id t connector_id r a b =
    let named : (connector_id == []) ≡ false = routed_named validator t connector_id r in
    ground (arith, ==_iff agent_id [], bound_any v agent_id connector_id t.required_capabilities b)

-- What an allowed plan has shown.
abbrev pub IsPlanShown :
    Payload → PlanValidator → Text → Text → Option SessionSubject → List Operation → Time → Type 0
IsPlanShown v validator name agent_id subject ops now =
    (s : SessionSubject) × ((set : V2PolicySet) × ((t : V2Tool) × ((connector_id : Text) × (subject
            ≡ some s)
          × IsAdmitted v s now
          × (strict_policy_set v ≡ some set)
          × (tool_named set name ≡ some t)
          × (routed_connector validator t ≡ some connector_id)
          × (agent_bound_to_connector v agent_id connector_id ≡ true)
          × IsComplete v agent_id ops t connector_id (λ request.
            evaluate_v2_check set.checks (deny_overrides set) (ask v agent_id s now request)))))

-- A plan is allowed only for an admitted session subject and a registered connector tool whose plan
-- is valid, to an agent that is bound to the connector with all required capabilities; it has an
-- operation, each of its operations is allowed by a check of its own, on the tool's connector and
-- registered resources, and together they cover every required capability. The lookup of bindings
-- reports the agent bound to that connector.
pub evaluate_v2_plan_allow :
    (v : Payload) (validator : PlanValidator) (name agent_id : Text)
    (subject : Option SessionSubject) (ops : List Operation) (now : Time)
    → (evaluate_v2_plan v validator name agent_id subject ops now).outcome ≡ allow
    → IsPlanShown v validator name agent_id subject ops now
unfolding evaluate_v2_plan
evaluate_v2_plan_allow v validator name agent_id subject ops now h =
    let (s, (set, given, admitted, strict, d)) =
      gated_allow v subject now (λ s set. decide_plan v validator name agent_id ops s now set) h in
    let (t, (c, named, routed, o)) = routed_allow v validator name agent_id ops s now set d in
    let complete =
      operations_allowed v agent_id ops t c
        (λ request.
          evaluate_v2_check set.checks (deny_overrides set) (ask v agent_id s now request))
        o in
    (
      s,
      (
        set,
        (
          t,
          (
            c,
            given,
            admitted,
            strict,
            named,
            routed,
            bound_to v validator agent_id t c routed complete.agent complete.bound,
            complete,
          ),
        ),
      ),
    )

reported :
    (v : Payload) (name : Text) (now : Time) (set : V2PolicySet) (t : V2Tool)
    → subject_snapshot_fresh v now ≡ true
    → strict_policy_set v ≡ some set
    → tool_named set name ≡ some t
    → is_harness_route t ≡ true
    → v2_harness_tool v name now ≡ true
unfolding v2_harness_tool
reported v name now set t f s n r = ground (arith, fresh_schema v now f)

-- What an allowed harness tool has shown.
abbrev pub IsHarnessToolShown : Payload → Text → Text → Option SessionSubject → Time → Type 0
IsHarnessToolShown v name agent_id subject now =
    (s : SessionSubject) × ((set : V2PolicySet) × ((t : V2Tool) × (subject ≡ some s)
        × IsAdmitted v s now
        × (strict_policy_set v ≡ some set)
        × (tool_named set name ≡ some t)
        × (is_harness_route t ≡ true)
        × (v2_harness_tool v name now ≡ true)
        × ((evaluate_v2_check set.tool_policies (deny_overrides set) (
              ask v agent_id s now
                ((codes "tool", t.name) ∷ (codes "source", t.source) ∷ []))).outcome
            ≡ allow)))

-- A harness tool is allowed only to an admitted session subject, if the policy set registers it to a
-- harness executor and no connector, its policies allow the question, and the lookup of harness tools
-- reports it.
pub evaluate_v2_harness_tool_allow :
    (v : Payload) (name agent_id : Text) (subject : Option SessionSubject) (now : Time)
    → (evaluate_v2_harness_tool v name agent_id subject now).outcome ≡ allow
    → IsHarnessToolShown v name agent_id subject now
unfolding evaluate_v2_harness_tool decide_harness_tool
evaluate_v2_harness_tool_allow v name agent_id subject now h =
    let (s, (set, given, admitted, strict, d)) =
      gated_allow v subject now (λ s set. decide_harness_tool v name agent_id s now set) h in
    elim (Option-cases (tool_named set name)) [
      | inl n ↦ absurd (ground arith)
      | inr (t, e) ↦
          let route : is_harness_route t ≡ true = ground arith in
          (
            s,
            (
              set,
              (
                t,
                given,
                admitted,
                strict,
                e,
                route,
                reported v name now set t admitted.current strict e route,
                ground arith,
              ),
            ),
          )
    ]
