-- ===== src/Policy/Decide/Order.antt =====
-- policy/decide.go: `Decide` on the same rules in another order.
use kei_connector_contracts.Prelude.{◌≡◌, sym, ap, ◌∙◌, ◌↔◌, inl, inr, List, In}
use kei_connector_contracts.Policy.Decide.{Rule, Request, decide}
use kei_connector_contracts.Policy.Decide.Precedence.{precedes_tie}
use kei_connector_contracts.Policy.Decide.Laws.{decide-cases}

-- Two lists with the same rules, whatever their order.
abbrev pub SameRules : List Rule → List Rule → Type 0
SameRules xs ys = (r : Rule) → In r xs ↔ In r ys

-- An id names one rule.
abbrev pub HasUniqueIds : List Rule → Type 0
HasUniqueIds rules = (a b : Rule) → In a rules → In b rules → a.id ≡ b.id → a ≡ b

-- Where each id names one rule, the decision and the deciding rule do not depend on the order in
-- which the rules are listed.
pub decide_order :
    (xs ys : List Rule) (req : Request)
    → SameRules xs ys
    → HasUniqueIds xs
    → ((decide xs req).decision ≡ (decide ys req).decision)
      × ((decide xs req).decided_by ≡ (decide ys req).decided_by)
decide_order xs ys req same unique = elim (decide-cases xs req) [
  | inl (nothing, e) ↦ elim (decide-cases ys req) [
    | inl (_, e') ↦ (rw (e, e'), rw (e, e'))
    | inr (d', i') ↦ absurd (nothing d' ((same d').1 i'.listed) i'.applicable)
  ]
  | inr (d, i) ↦ elim (decide-cases ys req) [
    | inl (nothing, _) ↦ absurd (nothing d ((same d).0 i.listed) i.applicable)
    | inr (d', i') ↦
        let back = (same d').1 i'.listed in
        let tie =
          precedes_tie d d' (i'.first d ((same d).0 i.listed) i.applicable)
            (i.first d' back i'.applicable) in
        let one = unique d d' i.listed back tie.0 in
        (
          i.decision ∙ ap (λ (r : Rule). r.effect) one ∙ sym i'.decision,
          i.decided_by ∙ ap (λ (r : Rule). r.id) one ∙ sym i'.decided_by,
        )
  ]
]
