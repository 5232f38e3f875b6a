-- ===== src/Bundle/Evaluate/Laws.antt =====
-- bundle/evaluate.go: allowed calls of a v1 bundle.
use kei_connector_contracts.Prelude.{
  ◌≡◌, sym, subst, ◌∙◌, ◌≢◌, inl, inr, true, false, not, ◌&&◌, ◌||◌, Option, none, some, List, [],
  arith, codes, ==_iff, ◌==◌, any, find, Bool-cases, Option-cases, In, any_iff, find_sound,
}
use kei_connector_contracts.Bundle.Types.{Payload, PolicySet, Tool, Call, Subject, Binding, allow}
use kei_connector_contracts.Bundle.Evaluate.{
  walk_of, walk_with, with_user, with_registration, with_agent, evaluate_policies, is_assigned,
  binds, evaluate_bound, evaluate_registered, evaluate, evaluate_connector, is_bound_tool,
}
use kei_connector_contracts.Bundle.Evaluate.Walks.{IsGranted, walk_policies-IsGranted}

-- The subject is approved, or there is none and the call names no person.
abbrev pub IsApproved : Call → Option Subject → Type 0
IsApproved call none = (call.user_id ≡ []) × (call.email ≡ [])
IsApproved call (some s) = s.status ≡ codes "linked_approved"

walk_with_allow :
    (set : PolicySet) (call : Call) (subject : Option Subject) (reg : Tool)
    → (walk_with set call subject reg).outcome ≡ allow
    → IsApproved call subject
      × IsGranted (walk_of set call subject reg) set.policies (walk_with set call subject reg)
unfolding walk_with
walk_with_allow set call none reg h =
    elim (Bool-cases (not (call.user_id == []) || not (call.email == []))) [
      | inl y ↦ absurd (ground arith)
      | inr n ↦ (
        (ground (arith, ==_iff call.user_id []), ground (arith, ==_iff call.email [])),
        rw n (walk_policies-IsGranted (walk_of set call none reg) set.policies (ground arith)),
      )
    ]
walk_with_allow set call (some s) reg h = elim (Bool-cases (s.status == codes "linked_approved")) [
  | inr n ↦ absurd (ground arith)
  | inl y ↦ (
    ground (arith, ==_iff s.status (codes "linked_approved")),
    rw y (walk_policies-IsGranted (walk_of set call (some s) reg) set.policies (ground arith)),
  )
]

-- The agent of a connector call is bound to the connector and its capability.
abbrev pub IsBound : Payload → Call → Type 0
IsBound v call =
    (bs : List Binding) × ((b : Binding) × (v.bindings ≡ some bs) × In b bs × (binds call b ≡ true))

evaluate_bound_allow :
    (v : Payload) (call : Call) (subject : Option Subject) (set : PolicySet) (reg : Tool)
    → (evaluate_bound v call subject set reg).outcome ≡ allow
    → (call.connector_invocation ≡ true → call.connector_id ≢ [] → IsBound v call)
      × (evaluate_bound v call subject set reg ≡ evaluate_policies set call subject reg)
unfolding evaluate_bound
evaluate_bound_allow v call subject set reg h =
    elim (Bool-cases (call.connector_invocation && not (call.connector_id == []))) [
      | inr n ↦ (λ i m. absurd (m (ground (arith, ==_iff call.connector_id []))), ground arith)
      | inl y ↦ elim (Option-cases v.bindings) [
        | inl e ↦ absurd (ground arith)
        | inr (bs, e) ↦ elim (Bool-cases (any (binds call) bs)) [
          | inr n ↦ absurd (ground arith)
          | inl t ↦
              let (b, m, r) = (any_iff (binds call) bs).0 t in
              (λ i c. (bs, (b, e, m, r)), ground arith)
        ]
      ]
    ]

-- What a call has shown that a registration allows.
pub record IsAuthorized (v : Payload) (call : Call) (subject : Option Subject) (set : PolicySet)
    (reg : Tool) : Type 0 where
  pub action : call.connector_invocation ≡ false → call.action ≢ [] → call.action ≡ reg.action
  pub assigned : call.agent_id ≢ [] → is_assigned set call.agent_id ≡ true
  pub bound :
      call.connector_invocation ≡ true
      → (with_registration reg call).connector_id ≢ []
      → IsBound v (with_registration reg call)
  pub approved : IsApproved (with_user subject (with_registration reg call)) subject
  pub granted :
      IsGranted
        (walk_of set (with_user subject (with_registration reg call)) subject reg)
        set.policies
        (evaluate_registered v call subject set reg)

registered_allow :
    (v : Payload) (call : Call) (subject : Option Subject) (set : PolicySet) (reg : Tool)
    → (evaluate_registered v call subject set reg).outcome ≡ allow
    → IsAuthorized v call subject set reg
unfolding evaluate_registered evaluate_policies with_registration
registered_allow v call subject set reg h =
    let c = with_registration reg call in
    let mismatch =
      not call.connector_invocation && not (call.action == []) && not (call.action == reg.action) in
    let unassigned = not (call.agent_id == []) && not (is_assigned set call.agent_id) in
    elim (Bool-cases mismatch) [
      | inl y ↦ absurd (ground arith)
      | inr m ↦ elim (Bool-cases unassigned) [
        | inl y ↦ absurd (ground arith)
        | inr u ↦
            let same : evaluate_registered v call subject set reg
                ≡ evaluate_bound v c subject set reg =
              ground arith in
            let (bound, e) = evaluate_bound_allow v c subject set reg (ground arith) in
            let (approved, granted) =
              walk_with_allow set (with_user subject c) subject reg (ground arith) in
            record {
              action = λ i n. ground (arith, ==_iff call.action [], ==_iff call.action reg.action);
              assigned = λ n. ground (arith, ==_iff call.agent_id []);
              bound = bound;
              approved = approved;
              granted =
                  subst (IsGranted (walk_of set (with_user subject c) subject reg) set.policies)
                    (sym (same ∙ e)) granted;
            }
      ]
    ]

-- What an allowed call of a named tool has shown.
abbrev pub IsToolShown : Payload → Call → Option Subject → Type 0
IsToolShown v call subject =
    (set : PolicySet) × ((reg : Tool) × (v.policy_set ≡ some set)
      × In reg set.tools
      × (reg.name ≡ call.tool)
      × (evaluate v call subject ≡ evaluate_registered v (with_agent set call) subject set reg)
      × IsAuthorized v (with_agent set call) subject set reg)

-- A named tool is allowed only if the policy set registers it, and a policy in reach permits the call
-- whose id the decision carries, while under deny-overrides no policy in reach stops it. Further, on
-- their conditions: the action, where the call names one and is no connector invocation, is the
-- registered one; the agent, where the call or else the policy set names one, is assigned; of a
-- connector invocation that names a connector, or whose tool does, a listed binding binds the agent
-- to the connector and the capability; and a subject is approved, or, where there is none, the call
-- names no user and no email.
pub evaluate_allow :
    (v : Payload) (call : Call) (subject : Option Subject)
    → (evaluate v call subject).outcome ≡ allow
    → IsToolShown v call subject
unfolding evaluate
evaluate_allow v call subject h = elim (Option-cases v.policy_set) [
  | inl e ↦ absurd (ground arith)
  | inr (set, e) ↦ elim (Option-cases (find (λ (t : Tool). t.name == call.tool) set.tools)) [
    | inl n ↦ absurd (ground arith)
    | inr (reg, f) ↦
        let (m, t) = find_sound (λ (t : Tool). t.name == call.tool) set.tools reg f in
        let same : evaluate v call subject
            ≡ evaluate_registered v (with_agent set call) subject set reg =
          ground arith in
        (
          set,
          (
            reg,
            e,
            m,
            (==_iff reg.name call.tool).0 t,
            same,
            registered_allow v (with_agent set call) subject set reg (ground arith),
          ),
        )
  ]
]

-- The call that a connector invocation is evaluated as.
abbrev pub connector_call : PolicySet → Tool → Call → Call
connector_call set reg call = record (with_agent set call) {
  tool = reg.name;
  connector_invocation = true;
}

-- What an allowed connector invocation has shown.
abbrev pub IsConnectorShown : Payload → Call → Option Subject → Type 0
IsConnectorShown v call subject =
    (set : PolicySet) × ((reg : Tool) × (v.policy_set ≡ some set)
      × In reg set.tools
      × (reg.connector_id ≡ call.connector_id)
      × (reg.capability ≡ call.capability)
      × (evaluate_connector v call subject
          ≡ evaluate_registered v (connector_call set reg call) subject set reg)
      × IsAuthorized v (connector_call set reg call) subject set reg)

-- A connector invocation is allowed only if a registered tool has its connector and capability, both
-- of which may be empty, and a policy in reach permits it, as a call of that tool, whose id the
-- decision carries, while under deny-overrides no policy in reach stops it. Further, on their
-- conditions: the agent, where the call or else the policy set names one, is assigned; where the
-- connector is not empty, a listed binding binds the agent to it and to the capability; and a subject
-- is approved, or, where there is none, the call names no user and no email.
pub evaluate_connector_allow :
    (v : Payload) (call : Call) (subject : Option Subject)
    → (evaluate_connector v call subject).outcome ≡ allow
    → IsConnectorShown v call subject
unfolding evaluate_connector is_bound_tool
evaluate_connector_allow v call subject h = elim (Option-cases v.policy_set) [
  | inl e ↦ absurd (ground arith)
  | inr (set, e) ↦ elim (Option-cases (find (is_bound_tool call) set.tools)) [
    | inl n ↦ absurd (ground arith)
    | inr (reg, f) ↦
        let (m, t) = find_sound (is_bound_tool call) set.tools reg f in
        let same : evaluate_connector v call subject
            ≡ evaluate_registered v (connector_call set reg call) subject set reg =
          ground arith in
        (
          set,
          (
            reg,
            e,
            m,
            ground (arith, ==_iff reg.connector_id call.connector_id),
            ground (arith, ==_iff reg.capability call.capability),
            same,
            registered_allow v (connector_call set reg call) subject set reg (ground arith),
          ),
        )
  ]
]
