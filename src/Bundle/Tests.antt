-- ===== src/Bundle/Tests.antt =====
-- Two bundles, and everything that their decisions compute with.
mod Checks
mod V2
mod V1
mod Harness
mod Accept
use kei_connector_contracts.Prelude.{
  ℕ, zero, suc, ◌+◌, ◌-◌, ◌*◌, ◌≤◌, ◌<◌, String, ◌≡◌, refl, sym, ap, ap₂, subst, ◌∙◌, ◌≢◌, ◌↔◌, ◌⊎◌,
  inl, inr, Bool, true, false, not, ◌&&◌, ◌||◌, Option, none, some, List, [], ◌∷◌, ◌++◌, map,
  reverse, arith, Text, codes, ==_iff, ==_refl, ◌==◌, any, all, keep, find, ltb, leb, eqb,
  if◌then◌else◌, eqb_iff, Bool-cases, Option-cases, &&-eq-true, All, In, All_at, length, take, drop,
  length-append, In-append, In-keep, keep-In, any_iff, any_none, all_at, find_sound, find_complete,
  find-append, In-map, map-In, ℤ, pos, negsuc, int_lt, int_eq, int_lt_asym, int_lt_cotrans,
  int_eq_lem, Try, ok, err, ◌>>=◌,
}
use kei_connector_contracts.Strings.{
  has_prefix, cut_prefix, trim_prefix, has_suffix, cut_suffix, trim_suffix, cut, contains,
  contains_any, split, fields, fields_from, is_space, last_index, index, lower, equal_fold, text_lt,
}
use kei_connector_contracts.Sort.{sort, insert}
use kei_connector_contracts.Policy.Principals.{
  match_principal, matches_input, matches_group, matches_scheme_wildcard, scheme_wildcard,
  matches_email_domain, email_in_domain,
}
use kei_connector_contracts.Policy.Targets.{
  target_matches, wildcard_matches, shell_matches, tokens_match, connector_matches, segments_match,
}
use kei_connector_contracts.Bundle.Types.{
  Payload, PolicySet, Policy, Tool, Agent, Scope, V2PolicySet, V2Tool, V2Check, V2HarnessPolicy,
  Binding, Identity, AgentModelProfile, schema_v2, eval_deny_overrides, strict_policy_set,
  identity_list, nil_or, contains_exact,
}
use kei_connector_contracts.Bundle.Sources.{
  src_match, dst_match, dst_candidates, requires_subject, needs_memberships,
}
use kei_connector_contracts.Bundle.Session.{
  SessionSubject, is_unexpired, status_reason_code, subject_gate, has_identities,
  subject_snapshot_fresh, is_linked_user, lookup_linked_user, has_key, unique_identity,
  lookup_identity, session_identity, identity_denial, v2_subject_denial, aggregate_membership,
  first_membership, bundle_memberships_at,
}
use kei_connector_contracts.Bundle.Evaluate.{
  finish, reaches, walk_policies, status_refusal, with_user, walk_of, walk_with, evaluate_policies,
  default_agent, is_assigned, binds, with_registration, evaluate_bound, evaluate_registered,
  with_agent, evaluate, is_bound_tool, evaluate_connector,
}
use kei_connector_contracts.Bundle.SessionWalk.{
  names_person, session_reaches, walk_session, is_final, session_tool, session_call,
  session_membership, session_state, decide_session, evaluate_session_at,
}
use kei_connector_contracts.Bundle.Checks.{
  deny_overrides, lookup, value_at, v2_scope_matches, dimension_matches, v2_selector_matches,
  check_applies, ranked_before, by_winner, matching_checks, evaluate_v2_check,
}
use kei_connector_contracts.Bundle.Plan.{
  membership_values, plan_valid, tool_named, is_set, is_harness_route, ask, decide_harness_tool,
  gated, evaluate_v2_harness_tool, agent_bound, resource_matches, operation_resource_registered,
  operation_request, operation_refusal, first_refusal, is_covered, decide_operations,
  routed_connector, decide_plan, evaluate_v2_plan, assigns, by_assignment, evaluate_v2_model,
}

-- Matching, opened at once.
matching : Unit {0}
unfolding match_principal matches_input matches_group matches_scheme_wildcard scheme_wildcard
    matches_email_domain email_in_domain target_matches wildcard_matches shell_matches tokens_match
    connector_matches segments_match has_prefix cut_prefix trim_prefix has_suffix cut_suffix
    trim_suffix cut contains contains_any split fields fields_from is_space last_index index lower
    equal_fold text_lt ◌==◌ sort insert keep find any all int_lt int_eq nil_or contains_exact
    src_match dst_match dst_candidates requires_subject needs_memberships strict_policy_set
    identity_list
matching = tt

-- The gate of a subject, opened at once.
gating : Unit {0}
unfolding matching is_unexpired status_reason_code subject_gate has_identities
    subject_snapshot_fresh is_linked_user lookup_linked_user has_key unique_identity lookup_identity
    session_identity identity_denial v2_subject_denial aggregate_membership first_membership
    bundle_memberships_at
gating = tt

-- The v1 decisions, opened at once.
walking : Unit {0}
unfolding gating finish reaches walk_policies status_refusal with_user walk_of walk_with
    evaluate_policies default_agent is_assigned binds with_registration evaluate_bound
    evaluate_registered with_agent evaluate is_bound_tool evaluate_connector names_person
    session_reaches walk_session is_final session_tool session_call session_membership session_state
    decide_session evaluate_session_at
walking = tt

-- The v2 decisions, opened at once.
checking : Unit {0}
unfolding gating deny_overrides lookup value_at v2_scope_matches dimension_matches
    v2_selector_matches check_applies ranked_before by_winner matching_checks evaluate_v2_check
    membership_values plan_valid tool_named is_set is_harness_route ask decide_harness_tool gated
    evaluate_v2_harness_tool agent_bound resource_matches operation_resource_registered
    operation_request operation_refusal first_refusal is_covered decide_operations routed_connector
    decide_plan evaluate_v2_plan assigns by_assignment evaluate_v2_model
checking = tt

abbrev any_scope : Scope
any_scope = record { org_id = none; workspace_id = none; agent_id = none }

abbrev ann_id : Identity
ann_id = record {
  source = codes "slack";
  external_id = codes "U1";
  user_id = codes "ann";
  status = codes "linked";
  groups = codes "dev" ∷ [];
  org_roles = [];
  expire_time = 0;
}

abbrev ann : SessionSubject
ann = record {
  user_id = codes "ann";
  email = codes "ann@kei.dev";
  source = codes "slack";
  external_id = codes "U1";
  groups = [];
  status = codes "linked";
}

abbrev issues : V2Tool
issues = record {
  name = codes "issues";
  source = codes "catalog";
  connector_binding = some (codes "linear");
  has_harness_executor = false;
  required_capabilities = codes "issues:read" ∷ [];
  resource_types = record { type_name = codes "team"; parent_type = [] } ∷ [];
  plan_length = 1;
}

abbrev lint : V2Tool
lint = record {
  name = codes "lint";
  source = codes "harness";
  connector_binding = none;
  has_harness_executor = true;
  required_capabilities = [];
  resource_types = [];
  plan_length = 0;
}

abbrev check : Text → Text → List (Text × Text) → V2Check
check id effect selector = record {
  policy_id = id;
  effect = effect;
  priority = pos 1;
  scope = any_scope;
  selector = selector;
}

abbrev permit_read : V2Check
permit_read = check (codes "c1") (codes "permit") (
    (codes "tool", codes "issues")
    ∷ (codes "source_principal", codes "group:dev")
    ∷ (codes "capability", codes "issues:read")
    ∷ [])

abbrev deny_ops : V2Check
deny_ops =
    check (codes "c2") (codes "deny")
      ((codes "source_principal", codes "*") ∷ (codes "resource_id", codes "ops") ∷ [])

abbrev harness_policy : Text → Text → Text → V2HarnessPolicy
harness_policy id dst action = record {
  policy_id = id;
  src = codes "harness:*";
  dst = dst;
  action = action;
  priority = pos 0;
  scope = any_scope;
  condition = none;
}

abbrev permit_git : V2HarnessPolicy
permit_git = harness_policy (codes "h1") (codes "shell:git") (codes "permit")

abbrev deny_push : V2HarnessPolicy
deny_push = harness_policy (codes "h2") (codes "shell:git push") (codes "deny")

abbrev set_v2 : V2PolicySet
set_v2 = record {
  precedence = codes "deny_overrides" ∷ [];
  tools = issues ∷ lint ∷ [];
  checks = permit_read ∷ deny_ops ∷ [];
  tool_policies =
      check (codes "t1") (codes "permit")
        ((codes "tool", codes "lint") ∷ (codes "source_principal", codes "agent:a1") ∷ [])
      ∷ [];
  harness_match_semantics = codes "kei.harness-match/v1";
  harness_policies = permit_git ∷ deny_push ∷ [];
}

abbrev bundle_v2 : Payload
bundle_v2 = record {
  schema = codes "kei.policy-bundle/v2";
  org_id = codes "org";
  workspace_id = codes "ws";
  issued_at = 1000;
  mode = codes "bundle";
  policy_set = none;
  policy_set_v2 = some set_v2;
  strict = true;
  bindings = some (
      record {
        agent_id = codes "a1";
        connector_id = codes "linear";
        capabilities = codes "issues:read" ∷ [];
      }
      ∷ []);
  identities = some (ann_id ∷ []);
  harnesses = [];
  harness_kinds = [];
  harness_match_semantics = codes "kei.harness-match/v1";
  subject = none;
  agent_model_profiles =
      record { agent_id = codes "a1"; profile_id = codes "m1"; status = codes "active" } ∷ [];
}

abbrev list_tool : Tool
list_tool = record {
  name = codes "issues";
  service = codes "linear";
  action = codes "issues:read";
  connector_id = codes "linear";
  capability = codes "issues:read";
}

abbrev policy : Text → Text → Text → Text → Policy
policy id src dst action = record {
  id = id;
  src = src;
  dst = dst;
  action = action;
  scope = any_scope;
}

abbrev permit_issues : Policy
permit_issues = policy (codes "p1") (codes "group:dev") (codes "tool:issues") (codes "permit")

abbrev deny_secret : Policy
deny_secret = policy (codes "p2") (codes "*") (codes "resource:secret") (codes "deny")

abbrev deny_shell : Policy
deny_shell = policy (codes "p3") (codes "*") (codes "shell:git push") (codes "deny")

abbrev permit_shell : Policy
permit_shell = policy (codes "p0") (codes "*") (codes "shell:git") (codes "permit")

abbrev set_v1 : PolicySet
set_v1 = record {
  tools = list_tool ∷ [];
  agents = record { id = codes "a1"; is_default = true } ∷ [];
  policies = permit_shell ∷ permit_issues ∷ deny_secret ∷ deny_shell ∷ [];
  order = codes "deny_overrides";
  connectors = [];
}

abbrev bundle_v1 : Payload
bundle_v1 = record bundle_v2 {
  schema = codes "kei.policy-bundle/v1";
  policy_set = some set_v1;
  policy_set_v2 = none;
}
