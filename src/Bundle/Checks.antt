-- ===== src/Bundle/Checks.antt =====
-- bundle/evaluate_v2.go and bundle/deny_overrides.go: the check that decides one operation.
pub mod Ranking
pub mod Laws
use kei_connector_contracts.Prelude.{
  Bool, true, false, not, ◌&&◌, ◌||◌, Option, none, some, List, [], ◌∷◌, map, Text, codes, ◌==◌,
  any, all, keep, if◌then◌else◌, ℤ, int_lt, int_eq,
}
use kei_connector_contracts.Strings.{text_lt}
use kei_connector_contracts.Sort.{sort}
use kei_connector_contracts.Bundle.Types.{
  Scope, V2Check, V2PolicySet, Call, Decision, ReasonCode, refuse, allow_by, deny_by, no_code,
  no_matching_policy, eval_deny_overrides, permit_action, nil_or,
}
use kei_connector_contracts.Bundle.Sources.{src_match}
use kei_connector_contracts.Bundle.Session.{SessionSubject}

unfoldable pub deny_overrides : V2PolicySet → Bool
deny_overrides s = any (λ id. id == eval_deny_overrides) s.precedence

-- A map from text to text; a missing key gives `none`.
unfoldable pub lookup : Text → List (Text × Text) → Option Text
lookup key [] = none
lookup key ((k, v) ∷ m) = if k == key then some v else lookup key m

-- Indexing a Go map: the empty text for a missing key.
unfoldable pub value_at : Text → List (Text × Text) → Text
value_at key m = elim (lookup key m) [ none ↦ [] | some v ↦ v ]

unfoldable pub v2_scope_matches : Scope → Text → Text → Text → Bool
v2_scope_matches scope agent_id org_id workspace_id =
    nil_or scope.org_id org_id
    && nil_or scope.workspace_id workspace_id
    && nil_or scope.agent_id agent_id

-- One round of the loop over the selector.
unfoldable pub dimension_matches : List (Text × Text) → Text × Text → Bool
dimension_matches request (dimension, expected) =
    if dimension == codes "source_principal" then true else elim (lookup dimension request) [
      | none ↦ false
      | some actual ↦ not (expected == []) && (expected == codes "*" || expected == actual)
    ]

unfoldable pub v2_selector_matches : List (Text × Text) → List (Text × Text) → Bool
v2_selector_matches selector request = all (dimension_matches request) selector

-- Who asks for what, in which scope.
pub record Question : Type 0 where
  pub request : List (Text × Text)
  pub subject : SessionSubject
  pub groups : List Text
  pub roles : List Text
  pub agent_id : Text
  pub org_id : Text
  pub workspace_id : Text

-- The call that `srcMatch` is given: the agent and the user.
abbrev pub source_call : Text → SessionSubject → Call
source_call agent_id s = record {
  tool = [];
  action = [];
  resource = [];
  agent_id = agent_id;
  connector_id = [];
  capability = [];
  user_id = s.user_id;
  email = s.email;
  connector_invocation = false;
}

-- A check that is not passed over by the loop.
unfoldable pub check_applies : Question → V2Check → Bool
check_applies q check =
    if value_at (codes "tool") check.selector == [] && check.effect == permit_action
    then false
    else if (not (check.effect == permit_action) && not (check.effect == codes "deny"))
        || not (v2_scope_matches check.scope q.agent_id q.org_id q.workspace_id)
    then false
    else src_match (value_at (codes "source_principal") check.selector)
        (source_call q.agent_id q.subject) q.groups q.roles
      && v2_selector_matches check.selector q.request

-- What the three evaluators sort by: the fields that their comparisons read.
pub record Ranked : Type 0 where
  pub effect : Text
  pub priority : ℤ
  pub policy_id : Text

unfoldable pub ranked_before : Bool → Ranked → Ranked → Bool
ranked_before deny_over a b =
    if not deny_over && not (int_eq a.priority b.priority)
    then int_lt b.priority a.priority
    else if not (a.effect == b.effect)
    then a.effect == codes "deny"
    else text_lt a.policy_id b.policy_id

abbrev pub rank_of : V2Check → Ranked
rank_of c = record { effect = c.effect; priority = c.priority; policy_id = c.policy_id }

-- The winner is the first of the sorted matches; an allow carries the given reason code.
unfoldable pub by_winner : ReasonCode → List Ranked → Decision
by_winner code [] = refuse no_matching_policy
by_winner code (winner ∷ rest) =
    if winner.effect == codes "deny"
    then deny_by winner.policy_id
    else allow_by winner.policy_id code

unfoldable pub matching_checks : Question → List V2Check → List V2Check
matching_checks q checks = keep (check_applies q) checks

unfoldable pub evaluate_v2_check : List V2Check → Bool → Question → Decision
evaluate_v2_check checks deny_over q =
    by_winner no_code (sort (ranked_before deny_over) (map rank_of (matching_checks q checks)))
