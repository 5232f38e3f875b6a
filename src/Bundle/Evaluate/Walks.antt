-- ===== src/Bundle/Evaluate/Walks.antt =====
-- bundle/evaluate.go: which policy of a v1 bundle decides.
use kei_connector_contracts.Prelude.{
  ◌≡◌, refl, sym, ap, subst, ◌∙◌, ◌≢◌, ◌⊎◌, inl, inr, Bool, true, false, not, ◌&&◌, ◌||◌, none,
  some, List, [], ◌∷◌, arith, Text, codes, ==_iff, ◌==◌, keep, find, if◌then◌else◌, Bool-cases,
  Option-cases, In, In-keep, find_sound, find_complete,
}
use kei_connector_contracts.Bundle.Types.{
  Policy, Decision, refuse, allow_by, deny_by, no_code, subject_resolution_unavailable,
  permit_action, allow, deny,
}
use kei_connector_contracts.Bundle.Sources.{src_match, requires_subject}
use kei_connector_contracts.Bundle.Evaluate.{Walk, finish, reaches, walk_policies}
use kei_connector_contracts.Bundle.Outcomes.{deny_allow}

-- A policy in reach that only a subject can decide, of whom the call has none.
unfoldable pub needs_resolution : Walk → Policy → Bool
needs_resolution w p = reaches w p && not w.has_subject && requires_subject p.src

-- A policy in reach that matches the source.
unfoldable pub applies : Walk → Policy → Bool
applies w p =
    reaches w p
    && not (not w.has_subject && requires_subject p.src)
    && src_match p.src w.call w.groups w.roles

-- A policy that ends the evaluation with a refusal.
unfoldable pub stops : Walk → Policy → Bool
stops w p = needs_resolution w p || (applies w p && p.action == codes "deny")

unfoldable pub permits : Walk → Policy → Bool
permits w p = applies w p && p.action == permit_action

unfoldable pub stopped : Walk → Policy → Decision
stopped w p = if needs_resolution w p then refuse subject_resolution_unavailable else deny_by p.id

-- The first id that is not empty, after the one at hand.
unfoldable pub first_id : Text → List Policy → Text
first_id id [] = id
first_id id (p ∷ ps) = let rest = first_id (if id == [] then p.id else id) ps in rest

-- Under first match: the first policy that stops or permits.
unfoldable pub first_match : Walk → List Policy → Decision
first_match w ps = elim (find (λ p. stops w p || permits w p) ps) [
  | none ↦ finish []
  | some p ↦ if stops w p then stopped w p else allow_by p.id no_code
]

-- Under deny-overrides: the first policy that stops, wherever it stands; the permits come after.
unfoldable pub any_deny : Walk → Text → List Policy → Decision
any_deny w id ps = elim (find (stops w) ps) [
  | some p ↦ stopped w p
  | none ↦ finish (first_id id (keep (permits w) ps))
]

-- Without deny-overrides the first policy decides that stops or permits, in the order of the array.
pub walk_policies-first_match :
    (w : Walk) (ps : List Policy)
    → w.deny_overrides ≡ false
    → walk_policies w [] ps ≡ first_match w ps
unfolding walk_policies first_match find stops permits applies needs_resolution stopped
walk_policies-first_match w [] h = refl
walk_policies-first_match w (p ∷ ps) h = ground (arith, walk_policies-first_match w ps h)

-- Under deny-overrides a policy that stops decides wherever it stands, and a permit only if none does.
pub walk_policies-any_deny :
    (w : Walk) (id : Text) (ps : List Policy)
    → w.deny_overrides ≡ true
    → walk_policies w id ps ≡ any_deny w id ps
unfolding walk_policies any_deny find stops permits applies needs_resolution stopped first_id keep
walk_policies-any_deny w id [] h = refl
walk_policies-any_deny w id (p ∷ ps) h = ground (
  arith,
  walk_policies-any_deny w id ps h,
  walk_policies-any_deny w (if id == [] then p.id else id) ps h,
)

finish_allow : (id : Text) → (finish id).outcome ≡ allow → ((finish id).policy_id ≡ id) × (id ≢ [])
unfolding finish
finish_allow id h = (ground arith, λ e. ground (arith, (==_iff id []).1 e))

first_id-listed :
    (id : Text) (ps : List Policy)
    → (first_id id ps ≡ id) ⊎ ((p : Policy) × In p ps × (p.id ≡ first_id id ps))
unfolding first_id
first_id-listed id [] = inl refl
first_id-listed id (p ∷ ps) = elim (Bool-cases (id == [])) [
  | inr n ↦ elim (first_id-listed id ps) [
    | inl e ↦ inl (ground arith)
    | inr (q, m, e) ↦ inr (q, inr m, ground arith)
  ]
  | inl y ↦ elim (first_id-listed p.id ps) [
    | inl e ↦ inr (p, inl refl, ground arith)
    | inr (q, m, e) ↦ inr (q, inr m, ground arith)
  ]
]

-- The policy that an allow comes from, and what the others did not do.
pub record IsGranted (w : Walk) (ps : List Policy) (d : Decision) : Type 0 where
  pub policy : Policy
  pub listed : In policy ps
  pub permitted : permits w policy ≡ true
  pub named : policy.id ≡ d.policy_id
  pub code : d.reason_code ≡ no_code
  pub unopposed : w.deny_overrides ≡ true → (p : Policy) → In p ps → stops w p ≡ false

stopped_deny : (w : Walk) (p : Policy) → (stopped w p).outcome ≡ deny
unfolding stopped
stopped_deny w p = ground arith

granted_first :
    (w : Walk) (ps : List Policy)
    → (first_match w ps).outcome ≡ allow
    → (p : Policy) × In p ps × (permits w p ≡ true) × (p.id ≡ (first_match w ps).policy_id)
unfolding first_match
granted_first w ps h = elim (Option-cases (find (λ p. stops w p || permits w p) ps)) [
  | inl n ↦ absurd ((finish_allow [] (ground arith)).1 refl)
  | inr (p, e) ↦
      let (m, b) = find_sound (λ p. stops w p || permits w p) ps p e in
      elim (Bool-cases (stops w p)) [
        | inl s ↦ absurd (deny_allow (stopped_deny w p) (ground arith))
        | inr n ↦ (p, m, ground arith, ground arith)
      ]
]

granted_any :
    (w : Walk) (ps : List Policy)
    → (any_deny w [] ps).outcome ≡ allow
    → ((p : Policy) × In p ps × (permits w p ≡ true) × (p.id ≡ (any_deny w [] ps).policy_id))
      × ((p : Policy) → In p ps → stops w p ≡ false)
unfolding any_deny
granted_any w ps h = elim (Option-cases (find (stops w) ps)) [
  | inr (p, e) ↦ absurd (deny_allow (stopped_deny w p) (ground arith))
  | inl n ↦
      let (same, named) = finish_allow (first_id [] (keep (permits w) ps)) (ground arith) in
      elim (first_id-listed [] (keep (permits w) ps)) [
        | inl e ↦ absurd (named e)
        | inr (p, i, e) ↦
            let (m, t) = In-keep (permits w) p ps i in
            ((p, m, t, ground arith), λ q i. find_complete (stops w) ps n q i)
      ]
]

walk_code :
    (w : Walk) (id : Text) (ps : List Policy)
    → (walk_policies w id ps).outcome ≡ allow
    → (walk_policies w id ps).reason_code ≡ no_code
unfolding walk_policies finish
walk_code w id [] h = ground arith
walk_code w id (p ∷ ps) h =
    ground (arith, walk_code w id ps, walk_code w (if id == [] then p.id else id) ps)

pub walk_policies-IsGranted :
    (w : Walk) (ps : List Policy)
    → (walk_policies w [] ps).outcome ≡ allow
    → IsGranted w ps (walk_policies w [] ps)
walk_policies-IsGranted w ps h = elim (Bool-cases w.deny_overrides) [
  | inl y ↦
      let eq = walk_policies-any_deny w [] ps y in
      let ((p, m, t, e), none_stops) =
        granted_any w ps (subst (λ (d : Decision). d.outcome ≡ allow) eq h) in
      record {
        policy = p;
        listed = m;
        permitted = t;
        named = e ∙ ap (λ (d : Decision). d.policy_id) (sym eq);
        code = walk_code w [] ps h;
        unopposed = λ d. none_stops;
      }
  | inr n ↦
      let eq = walk_policies-first_match w ps n in
      let (p, m, t, e) = granted_first w ps (subst (λ (d : Decision). d.outcome ≡ allow) eq h) in
      record {
        policy = p;
        listed = m;
        permitted = t;
        named = e ∙ ap (λ (d : Decision). d.policy_id) (sym eq);
        code = walk_code w [] ps h;
        unopposed = λ d. ground arith;
      }
]
