-- ===== src/Policy/Decide/Laws.antt =====
-- policy/decide.go: which rule decides.
use kei_connector_contracts.Prelude.{
  ◌≡◌, refl, sym, ap, subst, ◌∙◌, ◌≢◌, ◌⊎◌, inl, inr, true, false, List, [], ◌∷◌, map, codes,
  ==_iff, keep, Bool-cases, In, All_at, In-keep, keep-In,
}
use mathlib.Core.List.{Perm}
use mathlib.Core.List.Perm
use kei_connector_contracts.Sort.{sort}
use kei_connector_contracts.Sort.Laws.{IsSorted, In-sort, sort-IsSorted, sort-perm}
use kei_connector_contracts.Policy.Decide.{
  Rule, Request, Outcome, precedes, applies, matched, no_match, conclude, decide,
}
use kei_connector_contracts.Policy.Decide.Precedence.{precedes-IsOrder, precedes_deny}

module _ (rules : List Rule) (req : Request) where
  -- An applicable rule that no applicable rule precedes, with the outcome that it gives.
  pub record IsDecider (d : Rule) : Type 0 where
    pub listed : In d rules
    pub applicable : applies req d ≡ true
    pub first : (r : Rule) → In r rules → applies req r ≡ true → precedes r d ≡ false
    pub decision : (decide rules req).decision ≡ d.effect
    pub decided_by : (decide rules req).decided_by ≡ d.id

  ranked :
      (r : Rule) → In r (sort precedes (matched rules req)) → In r rules × (applies req r ≡ true)
  unfolding matched
  ranked r m = In-keep (applies req) r rules ((In-sort precedes r (keep (applies req) rules)).0 m)

  ranked_of :
      (r : Rule) → In r rules → applies req r ≡ true → In r (sort precedes (matched rules req))
  unfolding matched
  ranked_of r m h =
      (In-sort precedes r (keep (applies req) rules)).1 (keep-In (applies req) r rules m h)

  pub decide-cases :
      (((r : Rule) → In r rules → applies req r ≡ true → ⊥) × (decide rules req ≡ no_match))
      ⊎ ((d : Rule) × IsDecider d)
  unfolding decide conclude
  decide-cases =
      go (sort precedes (matched rules req)) refl
        (sort-IsSorted precedes precedes-IsOrder (matched rules req))
    where
      go :
          (xs : List Rule)
          → sort precedes (matched rules req) ≡ xs
          → IsSorted precedes precedes-IsOrder xs
          → (((r : Rule) → In r rules → applies req r ≡ true → ⊥) × (decide rules req ≡ no_match))
            ⊎ ((d : Rule) × IsDecider d)
      go [] e s = inl (λ r m h. subst (In r) e (ranked_of r m h), rw e refl)
      go (d ∷ rest) e s =
          let (m, h) = ranked d (subst (In d) (sym e) (inl refl)) in
          inr (
            d,
            record {
              listed = m;
              applicable = h;
              first = λ r i a. leading r (subst (In r) e (ranked_of r i a));
              decision = rw e refl;
              decided_by = rw e refl;
            },
          )
        where
          leading : (r : Rule) → In r (d ∷ rest) → precedes r d ≡ false
          leading r (inl same) = rw same (irrefl d)
            where
              irrefl : (a : Rule) → precedes a a ≡ false
              irrefl a = elim (Bool-cases (precedes a a)) [
                | inl y ↦ precedes-IsOrder.asym a a y
                | inr n ↦ n
              ]
          leading r (inr later) = All_at (λ z. precedes z d ≡ false) r rest s.0 later

-- An applicable deny decides: no permit, in whatever place and of whatever priority, outranks it.
pub decide_deny :
    (rules : List Rule) (req : Request) (r : Rule)
    → In r rules
    → applies req r ≡ true
    → r.effect ≡ codes "deny"
    → (decide rules req).decision ≡ codes "deny"
decide_deny rules req r m a e = elim (decide-cases rules req) [
  | inl (none_applies, _) ↦ absurd (none_applies r m a)
  | inr (d, i) ↦
      i.decision
      ∙ (==_iff d.effect (codes "deny")).0
          (precedes_deny d r ((==_iff r.effect (codes "deny")).1 e) (i.first r m a))
]

-- A permit comes from a listed rule that applies, and then no applicable rule is a deny.
pub decide_permit :
    (rules : List Rule) (req : Request)
    → (decide rules req).decision ≡ codes "permit"
    → ((r : Rule) × In r rules
        × (applies req r ≡ true)
        × (r.effect ≡ codes "permit")
        × (r.id ≡ (decide rules req).decided_by))
      × ((r : Rule) → In r rules → applies req r ≡ true → r.effect ≢ codes "deny")
decide_permit rules req h = elim (decide-cases rules req) [
  | inl (_, e) ↦ absurd (no_match_word (sym (ap (λ (o : Outcome). o.decision) e) ∙ h))
  | inr (d, i) ↦ (
    (d, i.listed, i.applicable, sym i.decision ∙ h, sym i.decided_by),
    λ r m a e. deny_word (sym (decide_deny rules req r m a e) ∙ h),
  )
]
  where
    no_match_word : codes "no_match" ≡ codes "permit" → ⊥
    no_match_word e = cc

    deny_word : codes "deny" ≡ codes "permit" → ⊥
    deny_word e = cc

-- Without an applicable rule the decision is "no_match".
pub decide_nothing :
    (rules : List Rule) (req : Request)
    → ((r : Rule) → In r rules → applies req r ≡ false)
    → decide rules req ≡ no_match
decide_nothing rules req h = elim (decide-cases rules req) [
  | inl (_, e) ↦ e
  | inr (d, i) ↦ let off = h d i.listed in let on = i.applicable in absurd (cc)
]

conclude_ids :
    (xs : List Rule) (r : Rule)
    → In r xs
    → (conclude xs).decided_by ∷ (conclude xs).outranked ≡ map (λ (q : Rule). q.id) xs
unfolding conclude
conclude_ids [] r m = absurd m
conclude_ids (x ∷ xs) r m = refl

-- If a rule applies, the deciding rule and the outranked ones are the applicable rules, each once.
pub decide_outranked :
    (rules : List Rule) (req : Request) (r : Rule)
    → In r rules
    → applies req r ≡ true
    → Perm
        ((decide rules req).decided_by ∷ (decide rules req).outranked)
        (map (λ (q : Rule). q.id) (matched rules req))
unfolding decide
decide_outranked rules req r m a =
    rw (conclude_ids (sort precedes (matched rules req)) r (ranked_of rules req r m a))
      (Perm.map (λ (q : Rule). q.id) (sort-perm precedes (matched rules req)))
