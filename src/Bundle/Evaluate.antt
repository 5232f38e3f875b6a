-- ===== src/Bundle/Evaluate.antt =====
-- bundle/evaluate.go: the decision of a v1 bundle for a registered tool.
pub mod Walks
pub mod Laws
use kei_connector_contracts.Prelude.{
  ℕ, zero, suc, ◌+◌, ◌-◌, ◌*◌, ◌≤◌, ◌<◌, String, ◌≡◌, refl, sym, ap, ap₂, subst, ◌∙◌, ◌≢◌, ◌↔◌, ◌⊎◌,
  inl, inr, Bool, true, false, not, ◌&&◌, ◌||◌, Option, none, some, List, [], ◌∷◌, ◌++◌, map,
  reverse, arith, Text, codes, ==_iff, ==_refl, ◌==◌, any, all, keep, find, ltb, leb, eqb,
  if◌then◌else◌, eqb_iff, Bool-cases, Option-cases, &&-eq-true, All, In, All_at, length, take, drop,
  length-append, In-append, In-keep, keep-In, any_iff, any_none, all_at, find_sound, find_complete,
  ℤ, pos, negsuc, int_lt, int_eq, int_lt_asym, int_lt_cotrans, int_eq_lem, Try, ok, err, ◌>>=◌,
}
use kei_connector_contracts.Bundle.Types.{
  Payload, PolicySet, Policy, Tool, Agent, Call, Subject, Binding, Decision, ReasonCode, refuse,
  allow_by, deny_by, no_code, policy_bundle_invalid, tool_not_registered, tool_action_mismatch,
  agent_not_assigned, agent_not_bound_to_connector, subject_resolution_unavailable,
  identity_access_denied, enrollment_required, identity_unassigned, identity_access_pending,
  no_matching_policy, eval_deny_overrides, permit_action, nil_or, contains_exact,
}
use kei_connector_contracts.Bundle.Sources.{src_match, dst_match, requires_subject}

-- What the loop over the policies reads.
pub record Walk : Type 0 where
  pub call : Call
  pub has_subject : Bool
  pub groups : List Text
  pub roles : List Text
  pub reg : Tool
  pub deny_overrides : Bool

-- The end of the loop. An empty id is no permit, as in the code.
unfoldable pub finish : Text → Decision
finish first_permit =
    if not (first_permit == []) then allow_by first_permit no_code else refuse no_matching_policy

-- The first two conditions of the loop: the policy is in scope and its target matches.
unfoldable pub reaches : Walk → Policy → Bool
reaches w p = nil_or p.scope.agent_id w.call.agent_id && dst_match p.dst w.call w.reg

unfoldable pub walk_policies : Walk → Text → List Policy → Decision
walk_policies w first_permit [] = finish first_permit
walk_policies w first_permit (p ∷ ps) =
    let rest = walk_policies w first_permit ps in
    let permitted = walk_policies w (if first_permit == [] then p.id else first_permit) ps in
    if not (reaches w p)
    then rest
    else if not w.has_subject && requires_subject p.src
    then refuse subject_resolution_unavailable
    else if not (src_match p.src w.call w.groups w.roles)
    then rest
    else if p.action == codes "deny"
    then deny_by p.id
    else if p.action == permit_action
    then (if not w.deny_overrides then allow_by p.id no_code else permitted)
    else rest

unfoldable pub status_refusal : Text → ReasonCode
status_refusal status =
    if status == codes "unlinked"
    then enrollment_required
    else if status == codes "linked_unassigned"
    then identity_unassigned
    else if status == codes "linked_pending"
    then identity_access_pending
    else identity_access_denied

-- The user id of the subject, where the call names none.
unfoldable pub with_user : Option Subject → Call → Call
with_user none call = call
with_user (some s) call =
    if not (s.user_id == []) && call.user_id == []
    then record call { user_id = s.user_id }
    else call

-- The walk that the call and its subject ask for.
unfoldable pub walk_of : PolicySet → Call → Option Subject → Tool → Walk
walk_of set call none reg = record {
  call = call;
  has_subject = false;
  groups = [];
  roles = [];
  reg = reg;
  deny_overrides = set.order == eval_deny_overrides;
}
walk_of set call (some s) reg = record {
  call = call;
  has_subject = true;
  groups = s.effective_groups;
  roles = s.org_roles;
  reg = reg;
  deny_overrides = set.order == eval_deny_overrides;
}

unfoldable pub walk_with : PolicySet → Call → Option Subject → Tool → Decision
walk_with set call none reg =
    if not (call.user_id == []) || not (call.email == [])
    then refuse subject_resolution_unavailable
    else walk_policies (walk_of set call none reg) [] set.policies
walk_with set call (some s) reg =
    if not (s.status == codes "linked_approved")
    then refuse (status_refusal s.status)
    else walk_policies (walk_of set call (some s) reg) [] set.policies

unfoldable pub evaluate_policies : PolicySet → Call → Option Subject → Tool → Decision
evaluate_policies set call subject reg = walk_with set (with_user subject call) subject reg

unfoldable pub default_agent : PolicySet → Text
default_agent set = elim (find (λ (a : Agent). a.is_default) set.agents) [
  | none ↦ []
  | some a ↦ a.id
]

unfoldable pub is_assigned : PolicySet → Text → Bool
is_assigned set agent_id = any (λ (a : Agent). a.id == agent_id) set.agents

-- The binding of the agent to the connector names the capability.
unfoldable pub binds : Call → Binding → Bool
binds call b =
    b.agent_id == call.agent_id
    && b.connector_id == call.connector_id
    && contains_exact b.capabilities call.capability

-- The connector and capability of the registration, where the call names none.
unfoldable pub with_registration : Tool → Call → Call
with_registration reg call = record call {
  connector_id = if call.connector_id == [] then reg.connector_id else call.connector_id;
  capability = if call.capability == [] then reg.capability else call.capability;
}

-- The end of `evaluateRegistered`, from the binding check on.
unfoldable pub evaluate_bound : Payload → Call → Option Subject → PolicySet → Tool → Decision
evaluate_bound v call subject set reg =
    if call.connector_invocation && not (call.connector_id == [])
    then elim v.bindings [
      | none ↦ refuse policy_bundle_invalid
      | some bs ↦
          if not (any (binds call) bs)
          then refuse agent_not_bound_to_connector
          else evaluate_policies set call subject reg
    ]
    else evaluate_policies set call subject reg

unfoldable pub evaluate_registered : Payload → Call → Option Subject → PolicySet → Tool → Decision
evaluate_registered v call subject set reg =
    if not call.connector_invocation && not (call.action == []) && not (call.action == reg.action)
    then refuse tool_action_mismatch
    else if not (call.agent_id == []) && not (is_assigned set call.agent_id)
    then refuse agent_not_assigned
    else evaluate_bound v (with_registration reg call) subject set reg

unfoldable pub with_agent : PolicySet → Call → Call
with_agent set call =
    if call.agent_id == [] then record call { agent_id = default_agent set } else call

unfoldable pub evaluate : Payload → Call → Option Subject → Decision
evaluate v call subject = elim v.policy_set [
  | none ↦ refuse policy_bundle_invalid
  | some set ↦ elim (find (λ (t : Tool). t.name == call.tool) set.tools) [
    | none ↦ refuse tool_not_registered
    | some reg ↦ evaluate_registered v (with_agent set call) subject set reg
  ]
]

unfoldable pub is_bound_tool : Call → Tool → Bool
is_bound_tool call t = t.connector_id == call.connector_id && t.capability == call.capability

unfoldable pub evaluate_connector : Payload → Call → Option Subject → Decision
evaluate_connector v call subject = elim v.policy_set [
  | none ↦ refuse policy_bundle_invalid
  | some set ↦ elim (find (is_bound_tool call) set.tools) [
    | none ↦ refuse tool_not_registered
    | some reg ↦
        evaluate_registered v
          (record (with_agent set call) { tool = reg.name; connector_invocation = true }) subject
          set reg
  ]
]

abbrev pub no_tool : Tool
no_tool = record { name = []; service = []; action = []; connector_id = []; capability = [] }

unfoldable evaluate_action : Payload → Text → Text → Text → Option Subject → Decision
evaluate_action v action resource agent_id subject =
    if not (action == codes "model:invoke") then refuse tool_not_registered else elim v.policy_set [
      | none ↦ refuse policy_bundle_invalid
      | some set ↦
          let agent = if agent_id == [] then default_agent set else agent_id in
          if not (agent == []) && not (is_assigned set agent)
          then refuse agent_not_assigned
          else evaluate_policies set
              (record {
                tool = [];
                action = action;
                resource = resource;
                agent_id = agent;
                connector_id = [];
                capability = [];
                user_id = [];
                email = [];
                connector_invocation = false;
              })
              subject no_tool
    ]

unfoldable names_connector : Call → Tool → Bool
names_connector call t =
    t.name == call.tool && (not (t.connector_id == []) || not (t.capability == []))

unfoldable is_unavailable : ReasonCode → Bool
is_unavailable subject_resolution_unavailable = true
is_unavailable _ = false

unfoldable subject_required : Payload → Call → Bool
subject_required v call = elim v.policy_set [
  | none ↦ false
  | some set ↦
      if any (names_connector call) set.tools
      then true
      else is_unavailable (evaluate v (record call { user_id = []; email = [] }) none).reason_code
]
