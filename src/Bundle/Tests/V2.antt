-- ===== src/Bundle/Tests/V2.antt =====
-- Decisions of a v2 bundle at concrete inputs.
use kei_connector_contracts.Prelude.{◌≡◌, refl, ◌↔◌, none, some, List, [], ◌∷◌, codes}
use kei_connector_contracts.Bundle.Types.{allow}
use kei_connector_contracts.Bundle.Session.{SessionSubject, lookup_identity, v2_subject_denial}
use kei_connector_contracts.Bundle.Session.Corroborated.{IsCorroborated, v2_subject_denial_iff}
use kei_connector_contracts.Bundle.Plan.{
  Operation, evaluate_v2_plan, evaluate_v2_harness_tool, evaluate_v2_model,
}
use kei_connector_contracts.Bundle.Plan.Laws.{IsPlanShown, evaluate_v2_plan_allow}
use kei_connector_contracts.Bundle.Tests.{checking, ann, ann_id, bundle_v2}

ann_found : lookup_identity bundle_v2 (codes "slack") (codes "U1") 2000 ≡ some ann_id
unfolding checking
ann_found = refl

v2_subject_denial_iff_example :
    (v2_subject_denial bundle_v2 (some ann) 2000 ≡ none)
    ↔ ((s : SessionSubject) × (some ann ≡ some s) × IsCorroborated bundle_v2 s 2000)
v2_subject_denial_iff_example = v2_subject_denial_iff bundle_v2 (some ann) 2000

ann_passes : v2_subject_denial bundle_v2 (some ann) 2000 ≡ none
unfolding checking
ann_passes = refl

abbrev read_team : List Operation
read_team =
    record {
      connector_id = codes "linear";
      capability = codes "issues:read";
      action = codes "read";
      resource_type = codes "team";
      resource_id = codes "web";
      resource_parent = [];
      resource_parent_type = [];
    }
    ∷ []

plan_allowed :
    (evaluate_v2_plan bundle_v2 none
      (codes "issues")
      (codes "a1")
      (some ann)
      read_team
      2000).outcome
    ≡ allow
unfolding checking
plan_allowed = refl

evaluate_v2_plan_allow_example :
    IsPlanShown bundle_v2 none (codes "issues") (codes "a1") (some ann) read_team 2000
evaluate_v2_plan_allow_example =
    evaluate_v2_plan_allow bundle_v2 none (codes "issues") (codes "a1") (some ann) read_team 2000
      plan_allowed

lint_allowed :
    (evaluate_v2_harness_tool bundle_v2 (codes "lint") (codes "a1") (some ann) 2000).outcome ≡ allow
unfolding checking
lint_allowed = refl

model_allowed :
    (evaluate_v2_model bundle_v2 (codes "m1") (codes "a1") (some ann) 2000).outcome ≡ allow
unfolding checking
model_allowed = refl
