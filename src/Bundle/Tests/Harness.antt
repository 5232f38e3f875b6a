-- ===== src/Bundle/Tests/Harness.antt =====
-- Harness calls at concrete inputs.
use kei_connector_contracts.Prelude.{
  ◌≡◌, refl, ◌≢◌, ◌↔◌, inl, inr, true, some, List, [], ◌∷◌, arith, Text, codes, In,
}
use kei_connector_contracts.HarnessMatch.Kinds.{valid_kind, calls_pdp}
use kei_connector_contracts.HarnessMatch.Glob.{
  glob_match, segment_match, parts_match, middle_match, any_suffix, one_segment, is_empty,
}
use kei_connector_contracts.HarnessMatch.Match.{
  Call, match_src, match_dst, match_scheme, match_shell, match_path, match_mcp, match_name,
  argv_prefix,
}
use kei_connector_contracts.HarnessMatch.Evaluate.{
  permit, walk, verdict, scope_ok, shell_permit_rejected,
}
use kei_connector_contracts.HarnessMatch.Evaluate.Laws.{bears}
use kei_connector_contracts.Bundle.Types.{V2PolicySet, V2HarnessPolicy, allow, deny, schema_v2}
use kei_connector_contracts.Bundle.Session.{Membership}
use kei_connector_contracts.Bundle.Checks.{deny_overrides}
use kei_connector_contracts.Bundle.Checks.Ranking.{IsDecisive}
use kei_connector_contracts.Bundle.Harness.{
  when_holds, source_matches, harness_policy_applies, shell_permit_refused, harness_rank,
  decide_harness_call, harness_policy_set, evaluate_v2_harness, harness_call, of_v2_policy,
  of_policy, evaluate_harness,
}
use kei_connector_contracts.Bundle.Harness.Overrides.{evaluate_harness_deny_v2}
use kei_connector_contracts.Bundle.Harness.Calls.{harness_call_deny}
use kei_connector_contracts.Bundle.Harness.Admission.{IsHarnessShown, evaluate_v2_harness_allow}
use kei_connector_contracts.Bundle.Tests.{
  checking, ann, bundle_v1, deny_shell, bundle_v2, set_v2, permit_git, deny_push,
}

-- What a harness decision computes with, opened at once.
matching : Unit {0}
unfolding checking walk verdict scope_ok shell_permit_rejected match_src match_dst match_scheme
    match_shell match_path match_mcp match_name argv_prefix glob_match segment_match parts_match
    middle_match any_suffix one_segment is_empty valid_kind calls_pdp when_holds source_matches
    harness_policy_applies shell_permit_refused decide_harness_call harness_policy_set
    evaluate_v2_harness
matching = tt

abbrev shell_call : List Text → Call
shell_call argv = record (harness_call (codes "codex") (codes "a1")) { argv = argv }

abbrev push : Call
push = shell_call (codes "git" ∷ codes "push" ∷ [])

abbrev status : Call
status = shell_call (codes "git" ∷ codes "status" ∷ [])

v1_schema : bundle_v1.schema ≢ schema_v2
v1_schema e = ground arith

v1_bears : bears push (of_policy deny_shell) ≡ true
unfolding matching
v1_bears = refl

v2_set : harness_policy_set bundle_v2.policy_set_v2 ≡ some set_v2
unfolding matching
v2_set = refl

v2_overrides : deny_overrides set_v2 ≡ true
unfolding matching
v2_overrides = refl

v2_holds : when_holds deny_push push.kind ≡ true
unfolding matching
v2_holds = refl

v2_bears : bears push (of_v2_policy deny_push) ≡ true
unfolding matching
v2_bears = refl

evaluate_harness_deny_v2_example : (evaluate_harness bundle_v2 push 2000).outcome ≢ permit
evaluate_harness_deny_v2_example =
    evaluate_harness_deny_v2 bundle_v2 push 2000 set_v2 deny_push refl v2_set v2_overrides
      (inr (inl refl)) v2_holds refl v2_bears

abbrev member : Membership
member = record { groups = codes "dev" ∷ []; roles = []; granted = true; known = true }

abbrev swapped : V2PolicySet
swapped = record set_v2 { harness_policies = deny_push ∷ permit_git ∷ [] }

set-IsDecisive : (p : V2HarnessPolicy) → In p set_v2.harness_policies → IsDecisive (harness_rank p)
set-IsDecisive p (inl e) = rw e (inl refl)
set-IsDecisive p (inr (inl e)) = rw e (inr refl)
set-IsDecisive p (inr (inr m)) = absurd m

same_policies : (p : V2HarnessPolicy) → In p set_v2.harness_policies ↔ In p swapped.harness_policies
same_policies p = (λ m. ground arith, λ m. ground arith)

push_applies : harness_policy_applies bundle_v2 true push ann member deny_push ≡ true
unfolding matching
push_applies = refl

harness_call_deny_example :
    (decide_harness_call bundle_v2 true push ann member set_v2).outcome ≡ deny
harness_call_deny_example =
    harness_call_deny bundle_v2 true push ann member set_v2 deny_push set-IsDecisive v2_overrides
      (inr (inl refl)) push_applies refl

status_allowed : (evaluate_v2_harness bundle_v2 true status (some ann) 2000).outcome ≡ allow
unfolding matching
status_allowed = refl

evaluate_v2_harness_allow_example : IsHarnessShown bundle_v2 true status (some ann) 2000
evaluate_v2_harness_allow_example =
    evaluate_v2_harness_allow bundle_v2 true status (some ann) 2000 status_allowed
