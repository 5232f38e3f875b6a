-- ===== src/Bundle/SessionWalk/Laws.antt =====
-- bundle/session.go: which policy of a v1 bundle decides for a session subject.
use kei_connector_contracts.Prelude.{
  ◌≡◌, refl, sym, ap, subst, ◌∙◌, ◌≢◌, inl, inr, Bool, true, false, not, ◌&&◌, ◌||◌, Option, none,
  some, List, [], ◌∷◌, arith, Text, codes, ==_iff, ◌==◌, find, if◌then◌else◌, Bool-cases,
  Option-cases, In, find_sound,
}
use kei_connector_contracts.Bundle.Types.{
  Time, Payload, PolicySet, Policy, Tool, Call, Decision, allow, refuse, allow_by, deny_by, no_code,
  subject_unlinked, subject_pending, permit_action, no_matching_policy, schema_v2,
}
use kei_connector_contracts.Bundle.Sources.{src_match, needs_memberships}
use kei_connector_contracts.Bundle.Session.{SessionSubject, Membership, linked, subject_gate}
use kei_connector_contracts.Bundle.Session.Gate.{gate_denies, gate_passed}
use kei_connector_contracts.Bundle.Evaluate.{with_agent, evaluate, evaluate_connector}
use kei_connector_contracts.Bundle.Evaluate.Laws.{evaluate_allow, evaluate_connector_allow}
use kei_connector_contracts.Bundle.SessionWalk.{
  SessionState, names_person, session_reaches, walk_session, session_tool, session_call,
  session_membership, session_state, decide_session, evaluate_session_at, is_final,
}
use kei_connector_contracts.Bundle.Outcomes.{deny_allow}

-- The source of a policy in reach can not be decided for this subject.
unfoldable pub undecided : SessionState → Policy → Bool
undecided w p = names_person w p && (not w.has_subject || (needs_memberships p.src && not w.known))

-- A policy that ends the walk.
unfoldable pub ends : SessionState → Policy → Bool
ends w p =
    session_reaches w p
    && (undecided w p
        || (src_match p.src w.call w.groups w.roles
            && (p.action == codes "deny" || p.action == permit_action)))

-- How a policy that ends the walk answers.
unfoldable pub answer : SessionState → Policy → Decision
answer w p =
    if names_person w p && not w.has_subject
    then refuse subject_unlinked
    else if undecided w p
    then refuse subject_pending
    else if p.action == codes "deny"
    then deny_by p.id
    else allow_by p.id no_code

-- The loop answers by the first policy that ends it.
walk_session-first :
    (w : SessionState) (ps : List Policy)
    → walk_session w ps
      ≡ elim (find (ends w) ps) [ none ↦ refuse no_matching_policy | some p ↦ answer w p ]
unfolding walk_session find ends answer undecided
walk_session-first w [] = refl
walk_session-first w (p ∷ ps) = ground (arith, walk_session-first w ps)

-- The policy that an allow comes from.
pub record IsAnswered (w : SessionState) (ps : List Policy) (d : Decision) : Type 0 where
  pub policy : Policy
  pub listed : In policy ps
  pub in_reach : session_reaches w policy ≡ true
  pub decided : undecided w policy ≡ false
  pub matches : src_match policy.src w.call w.groups w.roles ≡ true
  pub action : policy.action ≡ permit_action
  pub named : policy.id ≡ d.policy_id

answer_allow :
    (w : SessionState) (p : Policy)
    → ends w p ≡ true
    → (answer w p).outcome ≡ allow
    → (session_reaches w p ≡ true)
      × (undecided w p ≡ false)
      × (src_match p.src w.call w.groups w.roles ≡ true)
      × (p.action ≡ permit_action)
      × (p.id ≡ (answer w p).policy_id)
unfolding ends answer undecided
answer_allow w p e h = ground (arith, ==_iff p.action permit_action, ==_iff p.action (codes "deny"))

walk_session_allow :
    (w : SessionState) (ps : List Policy)
    → (walk_session w ps).outcome ≡ allow
    → IsAnswered w ps (walk_session w ps)
walk_session_allow w ps h = elim (Option-cases (find (ends w) ps)) [
  | inl n ↦ absurd (ground (arith, walk_session-first w ps))
  | inr (p, e) ↦
      let (m, t) = find_sound (ends w) ps p e in
      let same : walk_session w ps ≡ answer w p = ground (arith, walk_session-first w ps) in
      let (r, d, s, a, i) =
        answer_allow w p t (subst (λ (d : Decision). d.outcome ≡ allow) same h) in
      record {
        policy = p;
        listed = m;
        in_reach = r;
        decided = d;
        matches = s;
        action = a;
        named = i ∙ ap (λ (d : Decision). d.policy_id) (sym same);
      }
]

-- A subject, if there is one, is linked and named, and no membership withholds its grant.
abbrev pub IsSession : Option SessionSubject → Option (Text → Membership) → Type 0
IsSession none members = Unit {0}
IsSession (some s) members =
    (s.status ≡ linked)
    × (s.user_id ≢ [])
    × ((session_membership members s).known ≡ true → (session_membership members s).granted ≡ true)

decide_session_allow :
    (call : Call) (subject : Option SessionSubject) (members : Option (Text → Membership))
    (set : PolicySet) (reg : Tool)
    → (decide_session call subject members set reg).outcome ≡ allow
    → IsSession subject members
      × IsAnswered
          (session_state call subject members reg)
          set.policies
          (decide_session call subject members set reg)
unfolding decide_session
decide_session_allow call none members set reg h =
    (tt, walk_session_allow (session_state call none members reg) set.policies h)
decide_session_allow call (some s) members set reg h = elim (Option-cases (subject_gate s)) [
  | inr (d, e) ↦ absurd (deny_allow (gate_denies s d e) (ground arith))
  | inl e ↦
      let m = session_membership members s in
      elim (Bool-cases (m.known && not m.granted)) [
        | inl y ↦ absurd (ground arith)
        | inr n ↦
            let (status, named) = gate_passed s e in
            let same : decide_session call (some s) members set reg
                ≡ walk_session (session_state call (some s) members reg) set.policies =
              ground arith in
            (
              (status, named, λ k. ground arith),
              subst (IsAnswered (session_state call (some s) members reg) set.policies) (sym same) (
                  walk_session_allow (session_state call (some s) members reg) set.policies
                    (subst (λ (d : Decision). d.outcome ≡ allow) same h)),
            )
      ]
]

-- The registry decision, that precedes the gate, is final only if it denies.
final_denies :
    (d : Decision)
    → (d.outcome ≡ allow → d.reason_code ≡ no_code)
    → is_final d.reason_code ≡ true
    → d.outcome ≡ allow
    → ⊥
unfolding is_final
final_denies d code f a = absurd (ground (arith, code a))

evaluate_code :
    (v : Payload) (call : Call)
    → (evaluate v call none).outcome ≡ allow
    → (evaluate v call none).reason_code ≡ no_code
evaluate_code v call h =
    let (set, (reg, e, m, n, same, a)) = evaluate_allow v call none h in
    ap (λ (d : Decision). d.reason_code) same ∙ a.granted.code

connector_code :
    (v : Payload) (call : Call)
    → (evaluate_connector v call none).outcome ≡ allow
    → (evaluate_connector v call none).reason_code ≡ no_code
connector_code v call h =
    let (set, (reg, e, m, n, c, same, a)) = evaluate_connector_allow v call none h in
    ap (λ (d : Decision). d.reason_code) same ∙ a.granted.code

pre_not_final :
    (v : Payload) (call : Call)
    → let pre =
        if call.connector_invocation
        then evaluate_connector v call none
        else evaluate v call none in
      is_final pre.reason_code ≡ true → pre.outcome ≡ allow → ⊥
pre_not_final v call f a =
    final_denies
      (if call.connector_invocation then evaluate_connector v call none else evaluate v call none)
      (λ h. ground (arith, evaluate_code v call, connector_code v call)) f a

-- What an allowed call of a session subject has shown.
abbrev pub IsSessionShown :
    Payload → Call → Option SessionSubject → Option (Text → Membership) → Time → Type 0
IsSessionShown v call subject members now =
    (v.schema ≢ schema_v2)
    × IsSession subject members
    × ((set : PolicySet) × ((c : Call) × ((reg : Tool) × (v.policy_set ≡ some set)
            × (c ≡ with_agent set (record call { user_id = []; email = [] }))
            × (reg ≡ session_tool c set)
            × IsAnswered (session_state (session_call c reg) subject members reg) set.policies
                (evaluate_session_at v call subject members now))))

-- A session subject is allowed a call only of a v1 bundle, if it is absent or linked and named and
-- no membership withholds its grant, by a policy in reach that is decided for it, matches it and
-- permits, and whose id the decision carries.
pub evaluate_session_at_allow :
    (v : Payload) (call : Call) (subject : Option SessionSubject)
    (members : Option (Text → Membership)) (now : Time)
    → (evaluate_session_at v call subject members now).outcome ≡ allow
    → IsSessionShown v call subject members now
unfolding evaluate_session_at
evaluate_session_at_allow v call subject members now h =
    let anonymous = record call { user_id = []; email = [] } in
    let pre =
      if call.connector_invocation
      then evaluate_connector v anonymous none
      else evaluate v anonymous none in
    elim (Bool-cases (v.schema == schema_v2)) [
      | inl y ↦ absurd (ground arith)
      | inr n ↦ elim (Bool-cases (is_final pre.reason_code)) [
        | inl f ↦ absurd (pre_not_final v anonymous f (ground arith))
        | inr g ↦ elim (Option-cases v.policy_set) [
          | inl e ↦ absurd (ground arith)
          | inr (set, e) ↦
              let c = with_agent set anonymous in
              let reg = session_tool c set in
              let same : evaluate_session_at v call subject members now
                  ≡ decide_session (session_call c reg) subject members set reg =
                ground arith in
              let (t, a) =
                decide_session_allow (session_call c reg) subject members set reg
                  (subst (λ (d : Decision). d.outcome ≡ allow) same h) in
              (
                λ q. ground (arith, (==_iff v.schema schema_v2).1 q),
                t,
                (
                  set,
                  (
                    c,
                    (
                      reg,
                      e,
                      refl,
                      refl,
                      subst
                          (IsAnswered (session_state (session_call c reg) subject members reg)
                            set.policies)
                          (sym same) a,
                    ),
                  ),
                ),
              )
        ]
      ]
    ]
