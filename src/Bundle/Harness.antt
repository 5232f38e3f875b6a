-- ===== src/Bundle/Harness.antt =====
-- bundle/harness_match.go and bundle/deny_overrides.go: harness policies of a bundle.
pub mod Overrides
pub mod Calls
pub mod Admission
use kei_connector_contracts.Prelude.{
  ℕ, zero, suc, ◌+◌, ◌-◌, ◌*◌, ◌≤◌, ◌<◌, String, ◌≡◌, refl, sym, ap, ap₂, subst, ◌∙◌, ◌≢◌, ◌↔◌, ◌⊎◌,
  inl, inr, Bool, true, false, not, ◌&&◌, ◌||◌, Option, none, some, List, [], ◌∷◌, ◌++◌, map,
  reverse, arith, Text, codes, ==_iff, ==_refl, ◌==◌, any, all, keep, find, ltb, leb, eqb,
  if◌then◌else◌, eqb_iff, Bool-cases, Option-cases, &&-eq-true, All, In, All_at, length, take, drop,
  length-append, In-append, In-keep, keep-In, any_iff, any_none, all_at, find_sound, find_complete,
  find-append, In-map, map-In, ℤ, pos, negsuc, int_lt, int_eq, int_lt_asym, int_lt_cotrans,
  int_eq_lem, Try, ok, err, ◌>>=◌,
}
use kei_connector_contracts.Strings.{cut_prefix, has_prefix}
use kei_connector_contracts.Sort.{sort}
use kei_connector_contracts.HarnessMatch.Match.{match_dst}
use kei_connector_contracts.HarnessMatch.Match as M
use kei_connector_contracts.HarnessMatch.Evaluate as E
use kei_connector_contracts.HarnessMatch.Evaluate.{evaluate_with, bundle_invalid}
use kei_connector_contracts.Bundle.Types.{
  Time, Payload, Policy, V2PolicySet, V2HarnessPolicy, Decision, refuse, agent_not_assigned,
  subject_pending, subject_unlinked, policy_bundle_invalid, policy_permit, schema_v2,
  eval_deny_overrides, permit_action, strict_policy_set,
}
use kei_connector_contracts.Bundle.Sources.{src_match}
use kei_connector_contracts.Bundle.Kinds.{known_harness_kind, harness_kind_decides_via_pdp}
use kei_connector_contracts.Bundle.Session.{
  SessionSubject, Membership, subject_snapshot_fresh, v2_subject_denial, bundle_memberships_at,
}
use kei_connector_contracts.Bundle.Checks.{
  Ranked, ranked_before, by_winner, deny_overrides, v2_scope_matches, source_call,
}

abbrev pub harness_semantics : Text
harness_semantics = codes "kei.harness-match/v1"

unfoldable pub when_holds : V2HarnessPolicy → Text → Bool
when_holds p kind = elim p.condition [ none ↦ true | some harness ↦ harness == kind ]

unfoldable pub source_matches : Text → M.Call → SessionSubject → List Text → List Text → Bool
source_matches pattern call s groups roles =
    if pattern == codes "harness:*" then true else elim (cut_prefix pattern (codes "harness:")) [
      | some kind ↦ kind == call.kind
      | none ↦ src_match pattern (source_call call.agent_id s) groups roles
    ]

-- A permit of a shell call must be a literal `shell:` prefix.
unfoldable pub shell_permit_refused : V2HarnessPolicy → Bool
shell_permit_refused p =
    p.action == permit_action
    && (not (has_prefix p.dst (codes "shell:")) || p.dst == codes "shell:*")

-- A policy that the loop does not pass over. `shell` is set in `EvaluateV2ShellForKind`, and not
-- in `EvaluateV2MCP`, which has no check of shell permits.
unfoldable pub harness_policy_applies :
    Payload → Bool → M.Call → SessionSubject → Membership → V2HarnessPolicy → Bool
harness_policy_applies v shell call s m p =
    v2_scope_matches p.scope call.agent_id v.org_id v.workspace_id
    && when_holds p call.kind
    && (match_dst p.dst call).renderable
    && (match_dst p.dst call).matched
    && not (shell && shell_permit_refused p)
    && source_matches p.src call s m.groups m.roles

abbrev pub harness_rank : V2HarnessPolicy → Ranked
harness_rank p = record { effect = p.action; priority = p.priority; policy_id = p.policy_id }

unfoldable pub decide_harness_call :
    Payload → Bool → M.Call → SessionSubject → Membership → V2PolicySet → Decision
decide_harness_call v shell call s m set = by_winner policy_permit (
    sort (ranked_before (deny_overrides set))
      (map harness_rank (keep (harness_policy_applies v shell call s m) set.harness_policies)))

-- The policy set under the harness semantics.
unfoldable pub harness_policy_set : Option V2PolicySet → Option V2PolicySet
harness_policy_set none = none
harness_policy_set (some set) =
    if set.harness_match_semantics == harness_semantics then some set else none

-- The steps that the shell and MCP evaluators share, up to the loop over the policies.
unfoldable pub evaluate_v2_harness :
    Payload → Bool → M.Call → Option SessionSubject → Time → Decision
evaluate_v2_harness v shell call none now =
    if call.agent_id == []
    then refuse agent_not_assigned
    else elim (v2_subject_denial v none now) [ some d ↦ d | none ↦ refuse subject_unlinked ]
evaluate_v2_harness v shell call (some s) now =
    if call.agent_id == []
    then refuse agent_not_assigned
    else elim (v2_subject_denial v (some s) now) [
      | some d ↦ d
      | none ↦ elim (bundle_memberships_at v now) [
        | none ↦ refuse subject_pending
        | some members ↦
            let m = members s.user_id in
            if not m.known || not m.granted
            then refuse subject_pending
            else elim (harness_policy_set (strict_policy_set v)) [
              | none ↦ refuse policy_bundle_invalid
              | some set ↦ decide_harness_call v shell call s m set
            ]
      ]
    ]

abbrev pub harness_call : Text → Text → M.Call
harness_call kind agent_id = record {
  harness_id = [];
  kind = kind;
  agent_id = agent_id;
  tool = [];
  argv = [];
  skill = [];
  path = [];
  home = [];
  mcp_server = [];
  mcp_tool = [];
}

unfoldable evaluate_v2_shell_for_kind :
    Payload → Text → List Text → Text → Option SessionSubject → Time → Decision
evaluate_v2_shell_for_kind v kind argv agent_id subject now =
    evaluate_v2_harness v true (record (harness_call kind agent_id) { argv = argv }) subject now

unfoldable evaluate_v2_shell : Payload → List Text → Text → Option SessionSubject → Time → Decision
evaluate_v2_shell v argv agent_id subject now =
    evaluate_v2_shell_for_kind v (codes "pi") argv agent_id subject now

unfoldable evaluate_v2_mcp :
    Payload → Text → Text → Text → Text → Option SessionSubject → Time → Decision
evaluate_v2_mcp v slug tool agent_id kind subject now =
    evaluate_v2_harness v false
      (record (harness_call kind agent_id) { mcp_server = slug; mcp_tool = tool }) subject now

unfoldable pub deny_before_permit : List M.Policy → List M.Policy
deny_before_permit policies =
    keep (λ (p : M.Policy). p.action == codes "deny") policies
    ++ keep (λ (p : M.Policy). not (p.action == codes "deny")) policies

abbrev pub of_v2_policy : V2HarnessPolicy → M.Policy
of_v2_policy p = record {
  id = p.policy_id;
  src = p.src;
  dst = p.dst;
  action = p.action;
  enabled = true;
  scope = p.scope.agent_id;
}

abbrev pub of_policy : Policy → M.Policy
of_policy p = record {
  id = p.id;
  src = p.src;
  dst = p.dst;
  action = p.action;
  enabled = true;
  scope = p.scope.agent_id;
}

-- The policies that `EvaluateHarness` passes on, in their order; `none` for an invalid bundle.
unfoldable pub harness_policies : Payload → M.Call → Option (List M.Policy)
harness_policies v c =
    if v.schema == schema_v2
    then elim (harness_policy_set v.policy_set_v2) [
      | none ↦ none
      | some set ↦
          let ps = map of_v2_policy (keep (λ p. when_holds p c.kind) set.harness_policies) in
          some (if deny_overrides set then deny_before_permit ps else ps)
    ]
    else elim v.policy_set [
      | none ↦ none
      | some set ↦
          let ps = map of_policy set.policies in
          some (if set.order == eval_deny_overrides then deny_before_permit ps else ps)
    ]

abbrev invalid_bundle : E.Result
invalid_bundle = record { outcome = E.not_renderable; policy_id = []; reason = bundle_invalid }

-- `now` is the time that the code reads from the clock.
unfoldable pub evaluate_harness : Payload → M.Call → Time → E.Result
evaluate_harness v c now =
    if v.schema == schema_v2 && not (subject_snapshot_fresh v now)
    then invalid_bundle
    else elim (harness_policies v c) [
      | none ↦ invalid_bundle
      | some policies ↦
          evaluate_with c policies (record {
            known = known_harness_kind v;
            via_pdp = some (harness_kind_decides_via_pdp v);
          })
    ]
