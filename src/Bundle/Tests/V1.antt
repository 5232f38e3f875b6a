-- ===== src/Bundle/Tests/V1.antt =====
-- Decisions of a v1 bundle at concrete inputs.
use kei_connector_contracts.Prelude.{
  ◌≡◌, refl, Bool, true, false, Option, none, some, [], ◌∷◌, Text, codes,
}
use kei_connector_contracts.Bundle.Types.{PolicySet, Call, Subject, allow, deny}
use kei_connector_contracts.Bundle.Session.{Membership}
use kei_connector_contracts.Bundle.Evaluate.{Walk, walk_policies, evaluate, evaluate_connector}
use kei_connector_contracts.Bundle.Evaluate.Laws.{
  IsToolShown, IsConnectorShown, evaluate_allow, evaluate_connector_allow,
}
use kei_connector_contracts.Bundle.SessionWalk.{evaluate_session_at}
use kei_connector_contracts.Bundle.SessionWalk.Laws.{IsSessionShown, evaluate_session_at_allow}
use kei_connector_contracts.Bundle.Tests.{walking, ann, bundle_v1, set_v1, list_tool}

abbrev approved : Subject
approved = record {
  user_id = codes "ann";
  status = codes "linked_approved";
  effective_groups = codes "dev" ∷ [];
  org_roles = [];
}

abbrev call_of : Text → Call
call_of resource = record {
  tool = codes "issues";
  action = [];
  resource = resource;
  agent_id = codes "a1";
  connector_id = codes "linear";
  capability = codes "issues:read";
  user_id = [];
  email = [];
  connector_invocation = false;
}

abbrev state : Bool → Text → Walk
state overrides resource = record {
  call = call_of resource;
  has_subject = true;
  groups = codes "dev" ∷ [];
  roles = [];
  reg = list_tool;
  deny_overrides = overrides;
}

-- Without deny-overrides the permit at the front decides, with it the deny behind.
secret_by_order :
    ((walk_policies (state false (codes "secret")) [] set_v1.policies).outcome ≡ allow)
    × ((walk_policies (state true (codes "secret")) [] set_v1.policies).outcome ≡ deny)
unfolding walking
secret_by_order = (refl, refl)

web_allowed : (evaluate bundle_v1 (call_of (codes "web")) (some approved)).outcome ≡ allow
unfolding walking
web_allowed = refl

evaluate_allow_example : IsToolShown bundle_v1 (call_of (codes "web")) (some approved)
evaluate_allow_example =
    evaluate_allow bundle_v1 (call_of (codes "web")) (some approved) web_allowed

-- The same call as a connector invocation, for which the policy names the capability.
abbrev connector_bundle_call : Call
connector_bundle_call = record (call_of (codes "web")) { tool = [] }

abbrev connector_policies : PolicySet
connector_policies = record set_v1 {
  policies =
      record {
        id = codes "p4";
        src = codes "group:dev";
        dst = codes "capability:issues:read";
        action = codes "permit";
        scope = record { org_id = none; workspace_id = none; agent_id = none };
      }
      ∷ [];
}

connector_allowed :
    (evaluate_connector
      (record bundle_v1 { policy_set = some connector_policies })
      connector_bundle_call
      (some approved)).outcome
    ≡ allow
unfolding walking
connector_allowed = refl

evaluate_connector_allow_example :
    IsConnectorShown
      (record bundle_v1 { policy_set = some connector_policies })
      connector_bundle_call
      (some approved)
evaluate_connector_allow_example =
    evaluate_connector_allow (record bundle_v1 { policy_set = some connector_policies })
      connector_bundle_call (some approved) connector_allowed

abbrev members : Option (Text → Membership)
members =
    some (λ user_id. record { groups = codes "dev" ∷ []; roles = []; granted = true; known = true })

-- The same policies under deny-overrides: the session is allowed what the call is denied.
session_of_secret :
    ((evaluate_session_at bundle_v1 (call_of (codes "secret")) (some ann) members 2000).outcome
      ≡ allow)
    × ((evaluate bundle_v1 (call_of (codes "secret")) (some approved)).outcome ≡ deny)
unfolding walking
session_of_secret = (refl, refl)

session_allowed :
    (evaluate_session_at bundle_v1 (call_of (codes "web")) (some ann) members 2000).outcome ≡ allow
unfolding walking
session_allowed = refl

evaluate_session_at_allow_example :
    IsSessionShown bundle_v1 (call_of (codes "web")) (some ann) members 2000
evaluate_session_at_allow_example =
    evaluate_session_at_allow bundle_v1 (call_of (codes "web")) (some ann) members 2000
      session_allowed
