-- ===== src/Bundle/Harness/Calls.antt =====
-- bundle/harness_match.go: which harness policy decides a shell or server call.
use kei_connector_contracts.Prelude.{
  ◌≡◌, refl, ap, ◌∙◌, ◌↔◌, inl, inr, Bool, true, List, [], ◌∷◌, map, codes, ==_iff, keep, All, In,
  In-keep, keep-In, In-map, map-In,
}
use kei_connector_contracts.HarnessMatch.Match.{Call}
use kei_connector_contracts.Bundle.Types.{
  Payload, V2PolicySet, V2HarnessPolicy, Decision, deny, policy_permit,
}
use kei_connector_contracts.Bundle.Session.{SessionSubject, Membership}
use kei_connector_contracts.Bundle.Checks.{Ranked, deny_overrides}
use kei_connector_contracts.Bundle.Checks.Ranking.{
  IsDecisive, IsWinner-cases, winner_order, outranks_deny,
}
use kei_connector_contracts.Bundle.Harness.{
  harness_policy_applies, harness_rank, decide_harness_call,
}

-- The policies that apply to a harness call, and what they decide.
module _ (v : Payload) (shell : Bool) (call : Call) (s : SessionSubject) (m : Membership) where
  harness_ranks : List V2HarnessPolicy → List Ranked
  harness_ranks ps = map harness_rank (keep (harness_policy_applies v shell call s m) ps)

  ranked :
      (r : Ranked) (ps : List V2HarnessPolicy)
      → In r (harness_ranks ps)
      → (p : V2HarnessPolicy) × In p ps
        × (harness_policy_applies v shell call s m p ≡ true)
        × (r ≡ harness_rank p)
  unfolding harness_ranks
  ranked r ps i =
      let (p, k, e) = In-map harness_rank r (keep (harness_policy_applies v shell call s m) ps) i in
      let (listed, h) = In-keep (harness_policy_applies v shell call s m) p ps k in
      (p, listed, h, e)

  ranked_of :
      (p : V2HarnessPolicy) (ps : List V2HarnessPolicy)
      → In p ps
      → harness_policy_applies v shell call s m p ≡ true
      → In (harness_rank p) (harness_ranks ps)
  unfolding harness_ranks
  ranked_of p ps i h =
      map-In harness_rank p (keep (harness_policy_applies v shell call s m) ps)
        (keep-In (harness_policy_applies v shell call s m) p ps i h)

  All-of : (P : Ranked → Type 0) (rs : List Ranked) → ((r : Ranked) → In r rs → P r) → All P rs
  All-of P [] f = tt
  All-of P (r ∷ rs) f = (f r (inl refl), All-of P rs (λ q i. f q (inr i)))

  decisive :
      (ps : List V2HarnessPolicy)
      → ((p : V2HarnessPolicy) → In p ps → IsDecisive (harness_rank p))
      → All IsDecisive (harness_ranks ps)
  decisive ps f =
      All-of IsDecisive (harness_ranks ps) (λ r i. let (p, k, h, e) = ranked r ps i in rw e (f p k))

  -- Where every policy permits or denies, the order of the harness policies does not change what is
  -- decided for a shell or server call.
  pub harness_call_order :
      (a b : V2PolicySet)
      → ((p : V2HarnessPolicy) → In p a.harness_policies → IsDecisive (harness_rank p))
      → ((p : V2HarnessPolicy) → In p a.harness_policies ↔ In p b.harness_policies)
      → a.precedence ≡ b.precedence
      → decide_harness_call v shell call s m a ≡ decide_harness_call v shell call s m b
  unfolding decide_harness_call harness_ranks deny_overrides
  harness_call_order a b f same e =
      let da = decisive a.harness_policies f in
      let db = decisive b.harness_policies (λ p i. f p ((same p).1 i)) in
      rw e (
        winner_order (deny_overrides b) policy_permit (harness_ranks a.harness_policies)
          (harness_ranks b.harness_policies) da db
          (λ r. (
            (λ i.
                let (p, k, h, q) = ranked r a.harness_policies i in
                rw q (ranked_of p b.harness_policies ((same p).0 k) h)),
            (λ i.
                let (p, k, h, q) = ranked r b.harness_policies i in
                rw q (ranked_of p a.harness_policies ((same p).1 k) h)),
          )))

  -- Under deny-overrides a deny that applies decides a shell or server call, where every policy
  -- permits or denies.
  pub harness_call_deny :
      (set : V2PolicySet) (p : V2HarnessPolicy)
      → ((q : V2HarnessPolicy) → In q set.harness_policies → IsDecisive (harness_rank q))
      → deny_overrides set ≡ true
      → In p set.harness_policies
      → harness_policy_applies v shell call s m p ≡ true
      → p.action ≡ codes "deny"
      → (decide_harness_call v shell call s m set).outcome ≡ deny
  unfolding decide_harness_call harness_ranks
  harness_call_deny set p f o i h d =
      elim (IsWinner-cases true policy_permit (harness_ranks set.harness_policies)
        (decisive set.harness_policies f)) [
          | inl (_, n) ↦ rw o (ap (λ (d : Decision). d.outcome) n)
          | inr (w, win) ↦ rw o (
              ap (λ (d : Decision). d.outcome) win.decides
              ∙ rw
                  (outranks_deny w (harness_rank p) ((==_iff p.action (codes "deny")).1 d)
                    (win.first (harness_rank p) (ranked_of p set.harness_policies i h)))
                  refl)
        ]
