-- ===== src/Bundle/Plan.antt =====
-- bundle/evaluate_v2.go and bundle/model_v2.go: harness tools, operation plans and model calls.
pub mod Operations
pub mod Laws
pub mod Models
use kei_connector_contracts.Prelude.{
  String, Bool, true, false, not, ◌&&◌, ◌||◌, Option, none, some, List, [], ◌∷◌, ◌++◌, Text, codes,
  ◌==◌, any, all, find, ltb, eqb, if◌then◌else◌, length,
}
use kei_connector_contracts.Bundle.Types.{
  Time, Payload, V2PolicySet, V2Tool, ResourceType, Identity, Binding, AgentModelProfile, Decision,
  refuse, allow, allow_by, policy_bundle_invalid, tool_not_registered, agent_not_assigned,
  agent_not_bound_to_connector, operation_plan_invalid, policy_permit, model_assigned,
  model_not_assigned, model_profile_inactive, strict_policy_set, identity_list, contains_exact,
  schema_v2, deny, subject_unlinked,
}
use kei_connector_contracts.Bundle.Session.{
  SessionSubject, linked, is_unexpired, subject_snapshot_fresh, v2_subject_denial,
}
use kei_connector_contracts.Bundle.Checks.{Question, deny_overrides, evaluate_v2_check}

-- The groups and roles of the linked, unexpired identities of a user.
pub record Members : Type 0 where
  pub groups : List Text
  pub roles : List Text

unfoldable pub membership_values : List Identity → Text → Time → Members
membership_values [] user_id now = record { groups = []; roles = [] }
membership_values (id ∷ ids) user_id now =
    let rest = membership_values ids user_id now in
    if not (id.user_id == user_id) || not (id.status == linked) || not (is_unexpired now id)
    then rest
    else record { groups = id.groups ++ rest.groups; roles = id.org_roles ++ rest.roles }

-- The validator that a caller installs, if any.
abbrev pub PlanValidator : Type 0
PlanValidator = Option (V2Tool → Bool)

unfoldable pub plan_valid : PlanValidator → V2Tool → Bool
plan_valid none tool = true
plan_valid (some validator) tool = validator tool

unfoldable pub tool_named : V2PolicySet → Text → Option V2Tool
tool_named set name = find (λ (t : V2Tool). t.name == name) set.tools

-- A nil pointer that is not.
unfoldable pub is_set : Option Text → Bool
is_set none = false
is_set (some t) = true

unfoldable pub is_harness_route : V2Tool → Bool
is_harness_route t = t.has_harness_executor && not (is_set t.connector_binding)

unfoldable pub v2_harness_tool : Payload → Text → Time → Bool
v2_harness_tool v name now =
    if not (v.schema == schema_v2) || not (subject_snapshot_fresh v now)
    then false
    else elim (strict_policy_set v) [
      | none ↦ false
      | some set ↦ elim (tool_named set name) [ none ↦ false | some t ↦ is_harness_route t ]
    ]

unfoldable v2_connector_tool : Payload → PlanValidator → Text → Time → Option V2Tool
v2_connector_tool v validator name now =
    if not (v.schema == schema_v2) || not (subject_snapshot_fresh v now)
    then none
    else elim (strict_policy_set v) [
      | none ↦ none
      | some set ↦
          find
            (λ (t : V2Tool).
              t.name == name
              && is_set t.connector_binding
              && ltb 0 t.plan_length
              && plan_valid validator t)
            set.tools
    ]

-- The question of a subject, in the scope of the bundle.
unfoldable pub ask : Payload → Text → SessionSubject → Time → List (Text × Text) → Question
ask v agent_id s now request =
    let m = membership_values (identity_list v) s.user_id now in
    record {
      request = request;
      subject = s;
      groups = m.groups ++ s.groups;
      roles = m.roles;
      agent_id = agent_id;
      org_id = v.org_id;
      workspace_id = v.workspace_id;
    }

unfoldable pub decide_harness_tool :
    Payload → Text → Text → SessionSubject → Time → V2PolicySet → Decision
decide_harness_tool v name agent_id s now set = elim (tool_named set name) [
  | none ↦ refuse tool_not_registered
  | some t ↦
      if not (is_harness_route t)
      then refuse tool_not_registered
      else evaluate_v2_check set.tool_policies (deny_overrides set)
          (ask v agent_id s now ((codes "tool", t.name) ∷ (codes "source", t.source) ∷ []))
]

-- The subject gate and the decoding of the policy set come before both decisions. A subject that
-- passes the gate is not nil.
unfoldable pub gated :
    Payload → Option SessionSubject → Time → (SessionSubject → V2PolicySet → Decision) → Decision
gated v subject now decision = elim (v2_subject_denial v subject now) [
  | some d ↦ d
  | none ↦ elim (strict_policy_set v) [
    | none ↦ refuse policy_bundle_invalid
    | some set ↦ elim subject [ none ↦ refuse subject_unlinked | some s ↦ decision s set ]
  ]
]

unfoldable pub evaluate_v2_harness_tool :
    Payload → Text → Text → Option SessionSubject → Time → Decision
evaluate_v2_harness_tool v name agent_id subject now =
    gated v subject now (λ s set. decide_harness_tool v name agent_id s now set)

pub record Operation : Type 0 where
  pub connector_id : Text
  pub capability : Text
  pub action : Text
  pub resource_type : Text
  pub resource_id : Text
  pub resource_parent : Text
  pub resource_parent_type : Text

unfoldable pub agent_bound : Payload → Text → Text → List Text → Bool
agent_bound v agent_id connector_id required = elim v.bindings [
  | none ↦ false
  | some bs ↦
      elim (find (λ (b : Binding). b.agent_id == agent_id && b.connector_id == connector_id) bs) [
        | none ↦ false
        | some b ↦ all (contains_exact b.capabilities) required
      ]
]

-- One resource type of the tool, against the operation.
unfoldable pub resource_matches : Operation → ResourceType → Bool
resource_matches op rt =
    if not (rt.type_name == op.resource_type && rt.parent_type == op.resource_parent_type)
    then false
    else if rt.parent_type == []
        && (not (op.resource_parent == []) || not (op.resource_parent_type == []))
    then false
    else if not (rt.parent_type == [])
        && (op.resource_parent == [] || not (op.resource_parent_type == rt.parent_type))
    then false
    else true

unfoldable pub operation_resource_registered : V2Tool → Operation → Bool
operation_resource_registered t op =
    if op.resource_type == []
    then op.resource_id == [] && op.resource_parent == [] && op.resource_parent_type == []
    else any (resource_matches op) t.resource_types

-- An entry that is added to the request if its value is not empty.
abbrev entry : String → Text → List (Text × Text)
entry key value = if value == [] then [] else (codes key, value) ∷ []

unfoldable pub operation_request : V2Tool → Text → Operation → List (Text × Text)
operation_request t connector_id op =
    (codes "source", t.source)
    ∷ (codes "connector_id", connector_id)
    ∷ (codes "tool", t.name)
    ∷ (codes "capability", op.capability)
    ∷ (entry "resource_type" op.resource_type
        ++ (entry "resource_id" op.resource_id ++ entry "resource_parent" op.resource_parent))

-- One round of the loop over the operations: a refusal, or `none` to go on.
unfoldable pub operation_refusal :
    V2Tool → Text → (List (Text × Text) → Decision) → Operation → Option Decision
operation_refusal t connector_id check op =
    if not (op.connector_id == connector_id) || op.capability == [] || op.action == []
    then some (refuse operation_plan_invalid)
    else if not (contains_exact t.required_capabilities op.capability)
        || not (operation_resource_registered t op)
    then some (refuse operation_plan_invalid)
    else let d = check (operation_request t connector_id op) in
      elim d.outcome [ allow ↦ none | deny ↦ some d ]

unfoldable pub first_refusal :
    V2Tool → Text → (List (Text × Text) → Decision) → List Operation → Option Decision
first_refusal t connector_id check [] = none
first_refusal t connector_id check (op ∷ ops) =
    let rest = first_refusal t connector_id check ops in
    elim (operation_refusal t connector_id check op) [ some d ↦ some d | none ↦ rest ]

-- The map of covered capabilities, once every operation has passed.
unfoldable pub is_covered : List Operation → Text → Bool
is_covered ops required = any (λ (op : Operation). op.capability == required) ops

unfoldable pub decide_operations :
    Payload → Text → List Operation → V2Tool → Text → (List (Text × Text) → Decision) → Decision
decide_operations v agent_id ops t connector_id check =
    if agent_id == []
    then refuse agent_not_assigned
    else if not (agent_bound v agent_id connector_id t.required_capabilities)
    then refuse agent_not_bound_to_connector
    else if eqb (length ops) 0 || eqb (length t.required_capabilities) 0
    then refuse operation_plan_invalid
    else elim (first_refusal t connector_id check ops) [
      | some d ↦ d
      | none ↦
          if not (all (is_covered ops) t.required_capabilities)
          then refuse operation_plan_invalid
          else allow_by [] policy_permit
    ]

-- The connector that a valid connector tool is bound to.
unfoldable pub routed_connector : PlanValidator → V2Tool → Option Text
routed_connector validator t = elim t.connector_binding [
  | none ↦ none
  | some connector_id ↦
      if connector_id == [] || not (plan_valid validator t) then none else some connector_id
]

unfoldable pub decide_plan :
    Payload
    → PlanValidator
    → Text
    → Text
    → List Operation
    → SessionSubject
    → Time
    → V2PolicySet
    → Decision
decide_plan v validator name agent_id ops s now set = elim (tool_named set name) [
  | none ↦ refuse tool_not_registered
  | some t ↦ elim (routed_connector validator t) [
    | none ↦ refuse tool_not_registered
    | some connector_id ↦ decide_operations v agent_id ops t connector_id (λ request.
        evaluate_v2_check set.checks (deny_overrides set) (ask v agent_id s now request))
  ]
]

unfoldable pub evaluate_v2_plan :
    Payload → PlanValidator → Text → Text → Option SessionSubject → List Operation → Time → Decision
evaluate_v2_plan v validator name agent_id subject ops now =
    gated v subject now (λ s set. decide_plan v validator name agent_id ops s now set)

unfoldable pub assigns : Text → Text → AgentModelProfile → Bool
assigns agent_id profile_id a = a.agent_id == agent_id && a.profile_id == profile_id

unfoldable pub by_assignment : Option AgentModelProfile → Decision
by_assignment none = refuse model_not_assigned
by_assignment (some a) =
    if not (a.status == codes "active")
    then refuse model_profile_inactive
    else allow_by [] model_assigned

unfoldable pub evaluate_v2_model : Payload → Text → Text → Option SessionSubject → Time → Decision
evaluate_v2_model v profile_id agent_id subject now = elim (v2_subject_denial v subject now) [
  | some d ↦ d
  | none ↦
      if not (profile_id == []) && not (agent_id == [])
      then by_assignment (find (assigns agent_id profile_id) v.agent_model_profiles)
      else refuse model_not_assigned
]
