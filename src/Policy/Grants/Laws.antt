-- ===== src/Policy/Grants/Laws.antt =====
-- policy/decide.go: `DecideAt` with and without an applicable rule.
use kei_connector_contracts.Prelude.{
  ℕ, ◌≤◌, ◌<◌, ◌≡◌, refl, sym, ◌∙◌, ◌↔◌, inl, inr, Bool, true, false, ◌&&◌, List, arith, codes,
  ==_iff, ◌==◌, any, find, ltb, if◌then◌else◌, Bool-cases, Option-cases, In, find_sound,
  find_complete,
}
use kei_connector_contracts.Policy.Decide.{Rule, Request, applies, no_match, decide}
use kei_connector_contracts.Policy.Decide.Laws.{decide_deny, decide_nothing}
use kei_connector_contracts.Policy.Grants.{
  Time, AccessGrant, grant_matches, is_live, by_grants, decide_at,
}

-- An applicable deny wins over every grant, at any time.
decide_at_deny :
    (rules : List Rule) (req : Request) (grants : List AccessGrant) (now : Time) (r : Rule)
    → In r rules
    → applies req r ≡ true
    → r.effect ≡ codes "deny"
    → (decide_at rules req grants now).decision ≡ codes "deny"
unfolding decide_at
decide_at_deny rules req grants now r m a e =
    ground
      (arith, decide_deny rules req r m a e, ==_iff (decide rules req).decision (codes "no_match"))

and_ltb : (b : Bool) (m n : ℕ) → ((b && ltb m n) ≡ true) ↔ ((b ≡ true) × (m < n))
and_ltb b m n = (λ h. ground arith, λ h. ground arith)

module _ (rules : List Rule) (req : Request) (grants : List AccessGrant) (now : Time)
    (nothing : (r : Rule) → In r rules → applies req r ≡ false) where
  decide_at_nothing :
      decide_at rules req grants now ≡ by_grants no_match grants req (find (is_live now req) grants)
  unfolding decide_at ◌==◌
  decide_at_nothing = rw (decide_nothing rules req nothing) refl

  live_iff :
      (g : AccessGrant)
      → (is_live now req g ≡ true) ↔ ((grant_matches req g ≡ true) × (now < g.expire_time))
  unfolding is_live
  live_iff g = and_ltb (grant_matches req g) now g.expire_time

  -- Where no rule applies, exactly a matching grant that has not expired permits.
  pub decide_at_permit :
      ((decide_at rules req grants now).decision ≡ codes "permit")
      ↔ ((g : AccessGrant) × In g grants × (grant_matches req g ≡ true) × (now < g.expire_time))
  unfolding by_grants
  decide_at_permit = rw decide_at_nothing (elim (Option-cases (find (is_live now req) grants)) [
    | inl e ↦ (
      λ h. absurd (refused (sym (not_permitted (any (grant_matches req) grants)) ∙ rw e at h)),
      λ (g, m, t, l).
          let off = find_complete (is_live now req) grants e g m in
          let on = (live_iff g).1 (t, l) in absurd (cc),
    )
    | inr (g, e) ↦ (
      λ h.
          let (m, l) = find_sound (is_live now req) grants g e in
          let (t, e') = (live_iff g).0 l in (g, m, t, e'),
      λ _. rw e refl,
    )
  ])
    where
      refused : codes "no_match" ≡ codes "permit" → ⊥
      refused e = cc

      not_permitted :
          (b : Bool)
          → (if b
              then record no_match { reason = codes "access_grant_expired" }
              else record no_match { reason = codes "no_grant_matched" }).decision
            ≡ codes "no_match"
      not_permitted true = refl
      not_permitted false = refl

  -- Where no rule applies and every matching grant has expired, nothing is permitted, and the reason
  -- says whether a grant matched at all.
  pub decide_at_reason :
      ((g : AccessGrant) → In g grants → grant_matches req g ≡ true → g.expire_time ≤ now)
      → ((decide_at rules req grants now).decision ≡ codes "no_match")
        × ((decide_at rules req grants now).reason ≡ (
            if any (grant_matches req) grants
            then codes "access_grant_expired"
            else codes "no_grant_matched"))
  unfolding by_grants
  decide_at_reason expired =
      rw decide_at_nothing (elim (Option-cases (find (is_live now req) grants)) [
        | inl e ↦ rw e (elim (Bool-cases (any (grant_matches req) grants)) [
          | inl y ↦ rw y (refl, refl)
          | inr n ↦ rw n (refl, refl)
        ])
        | inr (g, e) ↦
            let (m, l) = find_sound (is_live now req) grants g e in
            let (t, e') = (live_iff g).0 l in let late = expired g m t in absurd (omega arith)
      ])
