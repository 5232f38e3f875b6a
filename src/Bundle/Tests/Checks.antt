-- ===== src/Bundle/Tests/Checks.antt =====
-- Checks of one operation at concrete inputs.
use kei_connector_contracts.Prelude.{
  ◌≡◌, refl, ◌≢◌, ◌↔◌, inl, inr, true, [], ◌∷◌, arith, Text, codes, In,
}
use kei_connector_contracts.Bundle.Types.{V2Check, allow, deny}
use kei_connector_contracts.Bundle.Checks.{Question, value_at, check_applies, evaluate_v2_check}
use kei_connector_contracts.Bundle.Checks.Laws.{check_order, check_deny, check_allow}
use kei_connector_contracts.Bundle.Tests.{checking, ann, permit_read, deny_ops}

abbrev question : Text → Question
question resource_id = record {
  request =
      (codes "tool", codes "issues")
      ∷ (codes "capability", codes "issues:read")
      ∷ (codes "resource_id", resource_id)
      ∷ [];
  subject = ann;
  groups = codes "dev" ∷ [];
  roles = [];
  agent_id = codes "a1";
  org_id = codes "org";
  workspace_id = codes "ws";
}

abbrev ops : Question
ops = question (codes "ops")

abbrev web : Question
web = question (codes "web")

swapped : (c : V2Check) → In c (permit_read ∷ deny_ops ∷ []) ↔ In c (deny_ops ∷ permit_read ∷ [])
swapped c = (λ m. ground arith, λ m. ground arith)

check_order_example :
    evaluate_v2_check (permit_read ∷ deny_ops ∷ []) true ops
    ≡ evaluate_v2_check (deny_ops ∷ permit_read ∷ []) true ops
check_order_example =
    check_order ops (permit_read ∷ deny_ops ∷ []) (deny_ops ∷ permit_read ∷ []) true swapped

deny_ops_applies : check_applies ops deny_ops ≡ true
unfolding checking
deny_ops_applies = refl

check_deny_example : (evaluate_v2_check (permit_read ∷ deny_ops ∷ []) true ops).outcome ≡ deny
check_deny_example =
    check_deny ops (permit_read ∷ deny_ops ∷ []) deny_ops (inr (inl refl)) deny_ops_applies refl

web_allowed : (evaluate_v2_check (permit_read ∷ deny_ops ∷ []) true web).outcome ≡ allow
unfolding checking
web_allowed = refl

check_allow_example :
    ((c : V2Check) × In c (permit_read ∷ deny_ops ∷ [])
      × (check_applies web c ≡ true)
      × (c.effect ≡ codes "permit")
      × (value_at (codes "tool") c.selector ≢ [])
      × (c.policy_id ≡ (evaluate_v2_check (permit_read ∷ deny_ops ∷ []) true web).policy_id))
    × ((c : V2Check)
        → true ≡ true
        → In c (permit_read ∷ deny_ops ∷ [])
        → check_applies web c ≡ true
        → c.effect ≢ codes "deny")
check_allow_example = check_allow web (permit_read ∷ deny_ops ∷ []) true web_allowed
