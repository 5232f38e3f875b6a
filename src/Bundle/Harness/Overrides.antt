-- ===== src/Bundle/Harness/Overrides.antt =====
-- bundle/harness_match.go: `EvaluateHarness` under deny-overrides.
use kei_connector_contracts.Prelude.{
  ◌≡◌, ap, subst, ◌∙◌, ◌≢◌, inl, inr, Bool, true, false, not, some, List, ◌++◌, map, arith, codes,
  ==_iff, ◌==◌, keep, find, Bool-cases, Option-cases, In, In-keep, keep-In, find_sound,
  find_complete, find-append, map-In,
}
use kei_connector_contracts.HarnessMatch.Match.{Call, Policy}
use kei_connector_contracts.HarnessMatch.Evaluate.{
  Result, KindSet, permit, walk, evaluate_with, verdict,
}
use kei_connector_contracts.HarnessMatch.Evaluate.Laws.{
  bears, walk-first, first_verdict, evaluate_with-walk,
}
use kei_connector_contracts.Bundle.Types as T
use kei_connector_contracts.Bundle.Types.{
  Time, Payload, PolicySet, V2PolicySet, V2HarnessPolicy, Decision, Outcome, allow, deny,
  policy_permit, schema_v2, eval_deny_overrides, strict_policy_set, permit_action,
}
use kei_connector_contracts.Bundle.Kinds.{known_harness_kind, harness_kind_decides_via_pdp}
use kei_connector_contracts.Bundle.Session.{subject_snapshot_fresh}
use kei_connector_contracts.Bundle.Checks.{deny_overrides}
use kei_connector_contracts.Bundle.Harness.{
  when_holds, harness_policy_set, deny_before_permit, of_v2_policy, of_policy, harness_policies,
  evaluate_harness,
}

verdict_deny :
    (call : Call) (q : Policy)
    → (q.action == codes "deny") ≡ true
    → (verdict call q).outcome ≢ permit
unfolding verdict
verdict_deny call q d h = ground arith

walk_deny :
    (call : Call) (policies : List Policy) (p : Policy)
    → In p policies
    → bears call p ≡ true
    → p.action ≡ codes "deny"
    → (walk call (deny_before_permit policies)).outcome ≢ permit
unfolding deny_before_permit
walk_deny call policies p m b d h =
    let is_deny : Policy → Bool = λ q. q.action == codes "deny" in
    let denies = keep is_deny policies in
    let others = keep (λ (q : Policy). not (q.action == codes "deny")) policies in
    elim (Option-cases (find (bears call) denies)) [
      | inl n ↦
          let t : is_deny p ≡ true = (==_iff p.action (codes "deny")).1 d in
          let f = find_complete (bears call) denies n p (keep-In is_deny p policies m t) in
          absurd (ground arith)
      | inr (q, e) ↦
          let (listed, bearing) = find_sound (bears call) denies q e in
          let (m, t) = In-keep is_deny q policies listed in
          let found : find (bears call) (denies ++ others) ≡ some q =
            ground (arith, find-append (bears call) denies others) in
          let same : walk call (denies ++ others) ≡ verdict call q =
            walk-first call (denies ++ others) ∙ ap (first_verdict call) found in
          verdict_deny call q t (subst (λ (r : Result). r.outcome ≡ permit) same h)
    ]

-- The outcome under a policy set with deny-overrides.
evaluate_deny :
    (c : Call) (policies : List Policy) (kinds : KindSet) (p : Policy)
    → In p policies
    → bears c p ≡ true
    → p.action ≡ codes "deny"
    → (evaluate_with c (deny_before_permit policies) kinds).outcome ≢ permit
evaluate_deny c policies kinds p m b d h =
    let (k, l, r, e) = evaluate_with-walk c (deny_before_permit policies) kinds h in
    walk_deny c policies p m b d (subst (λ (r : Result). r.outcome ≡ permit) e h)

-- Under deny-overrides a deny of a v1 bundle that bears on a harness call keeps it from being
-- permitted, wherever the policy stands.
pub evaluate_harness_deny :
    (v : Payload) (c : Call) (now : Time) (set : PolicySet) (p : T.Policy)
    → v.schema ≢ schema_v2
    → v.policy_set ≡ some set
    → set.order ≡ eval_deny_overrides
    → In p set.policies
    → p.action ≡ codes "deny"
    → bears c (of_policy p) ≡ true
    → (evaluate_harness v c now).outcome ≢ permit
unfolding evaluate_harness harness_policies
evaluate_harness_deny v c now set p s e o m d b h =
    let n : (v.schema == schema_v2) ≡ false = ground (arith, ==_iff v.schema schema_v2) in
    let y : (set.order == eval_deny_overrides) ≡ true =
      (==_iff set.order eval_deny_overrides).1 o in
    evaluate_deny c (map of_policy set.policies)
      (record { known = known_harness_kind v; via_pdp = some (harness_kind_decides_via_pdp v) })
      (of_policy p) (map-In of_policy p set.policies m) b d (ground arith)

-- Under deny-overrides a deny of a v2 bundle that bears on a harness call, and whose condition holds
-- for the kind of the harness, keeps `EvaluateHarness` from permitting the call, wherever the policy
-- stands. The outcome need not be a deny.
pub evaluate_harness_deny_v2 :
    (v : Payload) (c : Call) (now : Time) (set : V2PolicySet) (p : V2HarnessPolicy)
    → v.schema ≡ schema_v2
    → harness_policy_set v.policy_set_v2 ≡ some set
    → deny_overrides set ≡ true
    → In p set.harness_policies
    → when_holds p c.kind ≡ true
    → p.action ≡ codes "deny"
    → bears c (of_v2_policy p) ≡ true
    → (evaluate_harness v c now).outcome ≢ permit
unfolding evaluate_harness harness_policies
evaluate_harness_deny_v2 v c now set p s e o m w d b h =
    let kept = keep (λ (q : V2HarnessPolicy). when_holds q c.kind) set.harness_policies in
    let y : (v.schema == schema_v2) ≡ true = (==_iff v.schema schema_v2).1 s in
    evaluate_deny c (map of_v2_policy kept)
      (record { known = known_harness_kind v; via_pdp = some (harness_kind_decides_via_pdp v) })
      (of_v2_policy p)
      (map-In of_v2_policy p kept
        (keep-In (λ (q : V2HarnessPolicy). when_holds q c.kind) p set.harness_policies m w))
      b d
      (elim (Bool-cases (subject_snapshot_fresh v now)) [
        | inr n ↦ absurd (ground arith)
        | inl f ↦ ground arith
      ])
