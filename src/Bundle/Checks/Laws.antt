-- ===== src/Bundle/Checks/Laws.antt =====
-- bundle/evaluate_v2.go: what the check of an operation answers.
use kei_connector_contracts.Prelude.{
  ◌≡◌, refl, sym, ap, subst, ◌∙◌, ◌≢◌, ◌↔◌, inl, inr, Bool, true, List, [], ◌∷◌, map, arith, codes,
  ==_iff, keep, Bool-cases, All, In, In-keep, keep-In, In-map, map-In,
}
use kei_connector_contracts.Bundle.Types.{V2Check, Decision, no_code, Outcome, allow, deny}
use kei_connector_contracts.Bundle.Checks.{
  Question, Ranked, value_at, check_applies, rank_of, matching_checks, evaluate_v2_check,
}
use kei_connector_contracts.Bundle.Checks.Ranking.{
  IsDecisive, IsWinner-cases, winner_order, decision_of, outranks_deny,
}

-- A check that applies permits or denies, and a permit names a tool.
check-IsDecisive : (q : Question) (c : V2Check) → check_applies q c ≡ true → IsDecisive (rank_of c)
unfolding check_applies
check-IsDecisive q c h =
    ground (arith, ==_iff c.effect (codes "permit"), ==_iff c.effect (codes "deny"))

check_permit_tool :
    (q : Question) (c : V2Check)
    → check_applies q c ≡ true
    → c.effect ≡ codes "permit"
    → value_at (codes "tool") c.selector ≢ []
unfolding check_applies
check_permit_tool q c h e n = ground (
  arith,
  (==_iff c.effect (codes "permit")).1 e,
  (==_iff (value_at (codes "tool") c.selector) []).1 n,
)

All-IsDecisive :
    (q : Question) (cs : List V2Check) → All IsDecisive (map rank_of (keep (check_applies q) cs))
unfolding keep
All-IsDecisive q [] = tt
All-IsDecisive q (c ∷ cs) = elim (Bool-cases (check_applies q c)) [
  | inl e ↦ rw e (check-IsDecisive q c e, All-IsDecisive q cs)
  | inr n ↦ rw n (All-IsDecisive q cs)
]

module _ (q : Question) where
  applying :
      (r : Ranked) (checks : List V2Check)
      → In r (map rank_of (matching_checks q checks))
      → (c : V2Check) × In c checks × (check_applies q c ≡ true) × (r ≡ rank_of c)
  unfolding matching_checks
  applying r checks m =
      let (c, i, e) = In-map rank_of r (keep (check_applies q) checks) m in
      let (listed, h) = In-keep (check_applies q) c checks i in (c, listed, h, e)

  applying_of :
      (c : V2Check) (checks : List V2Check)
      → In c checks
      → check_applies q c ≡ true
      → In (rank_of c) (map rank_of (matching_checks q checks))
  unfolding matching_checks
  applying_of c checks m h =
      map-In rank_of c (keep (check_applies q) checks) (keep-In (check_applies q) c checks m h)

  decisive : (checks : List V2Check) → All IsDecisive (map rank_of (matching_checks q checks))
  unfolding matching_checks
  decisive checks = All-IsDecisive q checks

  -- The decision does not depend on the order in which the checks are listed, so neither does it on
  -- the order in which an unstable sort leaves equal ones.
  pub check_order :
      (xs ys : List V2Check) (deny_over : Bool)
      → ((c : V2Check) → In c xs ↔ In c ys)
      → evaluate_v2_check xs deny_over q ≡ evaluate_v2_check ys deny_over q
  unfolding evaluate_v2_check
  check_order xs ys deny_over same =
      winner_order deny_over no_code (map rank_of (matching_checks q xs))
        (map rank_of (matching_checks q ys)) (decisive xs) (decisive ys)
        (λ r. (across xs ys (λ c. (same c).0) r, across ys xs (λ c. (same c).1) r))
    where
      across :
          (us vs : List V2Check)
          → ((c : V2Check) → In c us → In c vs)
          → (r : Ranked) → In r (map rank_of (matching_checks q us))
          → In r (map rank_of (matching_checks q vs))
      across us vs f r m = let (c, i, h, e) = applying r us m in rw e (applying_of c vs (f c i) h)

  -- Under deny-overrides an applicable deny is decisive, whatever permits apply.
  pub check_deny :
      (checks : List V2Check) (c : V2Check)
      → In c checks
      → check_applies q c ≡ true
      → c.effect ≡ codes "deny"
      → (evaluate_v2_check checks true q).outcome ≡ deny
  unfolding evaluate_v2_check
  check_deny checks c m h e =
      elim (IsWinner-cases true no_code (map rank_of (matching_checks q checks))
        (decisive checks)) [
          | inl (_, none_matched) ↦ ap (λ (d : Decision). d.outcome) none_matched
          | inr (w, i) ↦
              ap (λ (d : Decision). d.outcome) i.decides
              ∙ rw
                  (outranks_deny w (rank_of c) ((==_iff c.effect (codes "deny")).1 e)
                    (i.first (rank_of c) (applying_of c checks m h)))
                  refl
        ]

  -- An allow comes from an applicable permit that names a tool, and carries its id; under
  -- deny-overrides no applicable check is then a deny.
  pub check_allow :
      (checks : List V2Check) (deny_over : Bool)
      → (evaluate_v2_check checks deny_over q).outcome ≡ allow
      → ((c : V2Check) × In c checks
          × (check_applies q c ≡ true)
          × (c.effect ≡ codes "permit")
          × (value_at (codes "tool") c.selector ≢ [])
          × (c.policy_id ≡ (evaluate_v2_check checks deny_over q).policy_id))
        × ((c : V2Check)
            → deny_over ≡ true
            → In c checks
            → check_applies q c ≡ true
            → c.effect ≢ codes "deny")
  unfolding evaluate_v2_check
  check_allow checks deny_over h = (
    elim (IsWinner-cases deny_over no_code (map rank_of (matching_checks q checks))
        (decisive checks)) [
          | inl (_, n) ↦ absurd (deny_allow (sym (ap (λ (d : Decision). d.outcome) n) ∙ h))
          | inr (w, i) ↦
              let (c, m, a, e) = applying w checks i.listed in
              let o : (decision_of no_code w).outcome ≡ allow =
                sym (ap (λ (d : Decision). d.outcome) i.decides) ∙ h in
              let p = permits c w e a o in
              (
                c,
                m,
                a,
                p,
                check_permit_tool q c a p,
                ap (λ (r : Ranked). r.policy_id) (sym e)
                    ∙ id_of w o
                    ∙ sym (ap (λ (d : Decision). d.policy_id) i.decides),
              )
        ],
    λ c d m a e. deny_allow (
        sym (check_deny checks c m a e)
        ∙ subst (λ b. (evaluate_v2_check checks b q).outcome ≡ allow) d h),
  )
    where
      deny_allow : ◌≡◌ {A = Outcome} deny allow → ⊥
      deny_allow e = cc

      denied :
          (c : V2Check)
          → c.effect ≡ codes "deny"
          → (decision_of no_code (rank_of c)).outcome ≡ allow
          → ⊥
      denied c n o = ground (arith, (==_iff c.effect (codes "deny")).1 n)

      permits :
          (c : V2Check) (w : Ranked)
          → w ≡ rank_of c
          → check_applies q c ≡ true
          → (decision_of no_code w).outcome ≡ allow
          → c.effect ≡ codes "permit"
      permits c w e a o = elim (check-IsDecisive q c a) [
        | inl p ↦ p
        | inr n ↦ absurd (denied c n (subst (λ r. (decision_of no_code r).outcome ≡ allow) e o))
      ]

      id_of :
          (w : Ranked)
          → (decision_of no_code w).outcome ≡ allow
          → w.policy_id ≡ (decision_of no_code w).policy_id
      id_of w o = ground arith
