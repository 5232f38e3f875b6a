-- ===== src/Bundle/SessionWalk.antt =====
-- bundle/session.go: the decision of a v1 bundle for the in-memory session subject.
pub mod Laws
use kei_connector_contracts.Prelude.{
  ℕ, zero, suc, ◌+◌, ◌-◌, ◌*◌, ◌≤◌, ◌<◌, String, ◌≡◌, refl, sym, ap, ap₂, subst, ◌∙◌, ◌≢◌, ◌↔◌, ◌⊎◌,
  inl, inr, Bool, true, false, not, ◌&&◌, ◌||◌, Option, none, some, List, [], ◌∷◌, ◌++◌, map,
  reverse, arith, Text, codes, ==_iff, ==_refl, ◌==◌, any, all, keep, find, ltb, leb, eqb,
  if◌then◌else◌, eqb_iff, Bool-cases, Option-cases, &&-eq-true, All, In, All_at, length, take, drop,
  length-append, In-append, In-keep, keep-In, any_iff, any_none, all_at, find_sound, find_complete,
  ℤ, pos, negsuc, int_lt, int_eq, int_lt_asym, int_lt_cotrans, int_eq_lem, Try, ok, err, ◌>>=◌,
}
use kei_connector_contracts.Bundle.Types.{
  Time, Payload, PolicySet, Policy, Tool, Call, Decision, ReasonCode, refuse, allow_by, deny_by,
  no_code, policy_bundle_invalid, tool_not_registered, tool_action_mismatch, agent_not_assigned,
  agent_not_bound_to_connector, subject_snapshot_stale, preflight_required, subject_unlinked,
  subject_pending, subject_revoked, no_matching_policy, schema_v2, permit_action, nil_or,
}
use kei_connector_contracts.Bundle.Sources.{
  src_match, dst_match, requires_subject, needs_memberships,
}
use kei_connector_contracts.Bundle.Session.{
  SessionSubject, Membership, unknown_member, subject_gate, subject_snapshot_fresh,
}
use kei_connector_contracts.Bundle.Evaluate.{
  evaluate, evaluate_connector, with_agent, is_bound_tool, no_tool,
}

-- What the loop over the policies reads.
pub record SessionState : Type 0 where
  pub call : Call
  pub reg : Tool
  pub has_subject : Bool
  pub groups : List Text
  pub roles : List Text
  pub known : Bool

-- The call that the inner `srcMatch` is given: the agent alone.
abbrev pub agent_call : Text → Call
agent_call agent_id = record {
  tool = [];
  action = [];
  resource = [];
  agent_id = agent_id;
  connector_id = [];
  capability = [];
  user_id = [];
  email = [];
  connector_invocation = false;
}

-- The source names a person, and not the calling agent.
unfoldable pub names_person : SessionState → Policy → Bool
names_person w p =
    requires_subject p.src && not (src_match p.src (agent_call w.call.agent_id) [] [])

unfoldable pub session_reaches : SessionState → Policy → Bool
session_reaches w p = nil_or p.scope.agent_id w.call.agent_id && dst_match p.dst w.call w.reg

unfoldable pub walk_session : SessionState → List Policy → Decision
walk_session w [] = refuse no_matching_policy
walk_session w (p ∷ ps) =
    let rest = walk_session w ps in
    if not (session_reaches w p)
    then rest
    else if names_person w p && not w.has_subject
    then refuse subject_unlinked
    else if names_person w p && needs_memberships p.src && not w.known
    then refuse subject_pending
    else if not (src_match p.src w.call w.groups w.roles)
    then rest
    else if p.action == codes "deny"
    then deny_by p.id
    else if p.action == permit_action
    then allow_by p.id no_code
    else rest

-- The reason codes of the registry and agent checks, which come before the subject gate.
unfoldable pub is_final : ReasonCode → Bool
is_final policy_bundle_invalid = true
is_final tool_not_registered = true
is_final tool_action_mismatch = true
is_final agent_not_assigned = true
is_final agent_not_bound_to_connector = true
is_final _ = false

-- The registration that the call resolves to.
unfoldable pub session_tool : Call → PolicySet → Tool
session_tool call set =
    elim (find
      (λ (t : Tool).
        if call.connector_invocation then is_bound_tool call t else t.name == call.tool)
      set.tools) [ none ↦ no_tool | some t ↦ t ]

unfoldable pub session_call : Call → Tool → Call
session_call call reg =
    if call.connector_invocation then record call { tool = reg.name } else record call {
      connector_id = if call.connector_id == [] then reg.connector_id else call.connector_id;
      capability = if call.capability == [] then reg.capability else call.capability;
    }

-- The memberships of the subject, if the caller has any.
unfoldable pub session_membership : Option (Text → Membership) → SessionSubject → Membership
session_membership none s = unknown_member
session_membership (some lookup) s = lookup s.user_id

-- What the walk reads for this subject.
unfoldable pub session_state :
    Call → Option SessionSubject → Option (Text → Membership) → Tool → SessionState
session_state call none members reg = record {
  call = call;
  reg = reg;
  has_subject = false;
  groups = [];
  roles = [];
  known = false;
}
session_state call (some s) members reg =
    let m = session_membership members s in
    record {
      call = record call { user_id = s.user_id; email = s.email };
      reg = reg;
      has_subject = true;
      groups = m.groups;
      roles = m.roles;
      known = m.known;
    }

unfoldable pub decide_session :
    Call → Option SessionSubject → Option (Text → Membership) → PolicySet → Tool → Decision
decide_session call none members set reg =
    walk_session (session_state call none members reg) set.policies
decide_session call (some s) members set reg = elim (subject_gate s) [
  | some d ↦ d
  | none ↦
      let m = session_membership members s in
      if m.known && not m.granted
      then refuse subject_revoked
      else walk_session (session_state call (some s) members reg) set.policies
]

-- The v2 branch under the subject is not reached: a v2 bundle is refused above it.
unfoldable pub evaluate_session_at :
    Payload → Call → Option SessionSubject → Option (Text → Membership) → Time → Decision
evaluate_session_at v call subject members now =
    if v.schema == schema_v2
    then (if not (subject_snapshot_fresh v now)
        then refuse subject_snapshot_stale
        else refuse preflight_required)
    else let anonymous = record call { user_id = []; email = [] } in
      let pre =
        if call.connector_invocation
        then evaluate_connector v anonymous none
        else evaluate v anonymous none in
      if is_final pre.reason_code then pre else elim v.policy_set [
        | none ↦ refuse policy_bundle_invalid
        | some set ↦
            let c = with_agent set anonymous in
            let reg = session_tool c set in
            decide_session (session_call c reg) subject members set reg
      ]
