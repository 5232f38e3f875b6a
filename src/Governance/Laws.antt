-- ===== src/Governance/Laws.antt =====
-- governance/decision.go: what the decision allows.
use kei_connector_contracts.Prelude.{
  ◌≡◌, refl, sym, ap, subst, ◌∙◌, ◌↔◌, ◌⊎◌, inl, inr, true, Option, none, some, arith, ==_iff, ◌==◌,
  find, Option-cases, In, find_sound,
}
use kei_connector_contracts.Contract.Types.{Capability, Metadata, Invocation}
use kei_connector_contracts.Contract.Names.Status
use kei_connector_contracts.Contract.Calls
use kei_connector_contracts.Contract.Calls.{authorize_call, check_declared}
use kei_connector_contracts.Contract.Calls.Authorized.{
  IsInScope, authorize_call-IsInScope, authorize_call_parts,
}
use kei_connector_contracts.Envelope
use kei_connector_contracts.Envelope.{Envelope}
use kei_connector_contracts.Governance.{
  Reason, PolicyDecision, decision_allow, decision_deny, allow_with, is_for, refusal, decide,
}

-- The metadata and the envelope are valid and the call is authorized.
abbrev pub IsPermitted : Metadata → Envelope → Type 0
IsPermitted m e =
    (Calls.validate m ≡ none)
    × (Envelope.validate e ≡ none)
    × (authorize_call m e.invocation ≡ none)

wrap-eq-none : {E F : Type 0} (f : E → F) (o : Option E) → (Envelope.wrap f o ≡ none) ↔ (o ≡ none)
wrap-eq-none f none = (λ h. refl, λ h. refl)
wrap-eq-none f (some e) = (λ h. cc, λ h. cc)

is_for_lem : (m : Metadata) (call : Invocation) → IsInScope m call → is_for m call ≡ true
unfolding is_for
is_for_lem m call s =
    let tenant = (==_iff call.tenant_id m.tenant_id).1 s.tenant in
    let workspace = (==_iff call.workspace_id m.workspace_id).1 s.workspace in
    let connector = (==_iff call.connector_id m.id).1 s.connector in ground arith

refusal_iff : (m : Metadata) (e : Envelope) → (refusal m e ≡ none) ↔ IsPermitted m e
unfolding refusal
refusal_iff m e = (
  λ h. (ground arith, ground arith, ground arith),
  λ (v, w, a).
      let (v', s, d) = authorize_call-IsInScope m e.invocation a in
      let active = (==_iff m.status Status.active).1 s.active in
      let same = is_for_lem m e.invocation s in ground arith,
)

-- The first declared capability of the call's name, which an authorized call has.
authorized_find :
    (m : Metadata) (call : Invocation)
    → authorize_call m call ≡ none
    → (c : Capability) × (find (λ c. c.name == call.capability) m.capabilities ≡ some c)
      × (c.action ≡ call.action)
unfolding check_declared
authorized_find m call a =
    let (v, s, r, d) = authorize_call_parts m call a in
    elim (Option-cases (find (λ c. c.name == call.capability) m.capabilities)) [
      | inl e ↦ absurd (ground arith)
      | inr (c, e) ↦ (c, e, (==_iff c.action call.action).0 (ground arith))
    ]

decide_permitted :
    (m : Metadata) (e : Envelope)
    → IsPermitted m e
    → (c : Capability) × (decide m e ≡ allow_with c)
      × In c m.capabilities
      × (c.name ≡ e.invocation.capability)
      × (c.action ≡ e.invocation.action)
unfolding decide
decide_permitted m e p =
    let none_refused = (refusal_iff m e).1 p in
    let (c, f, a) = authorized_find m e.invocation p.2 in
    let (i, n) = find_sound (λ c. c.name == e.invocation.capability) m.capabilities c f in
    (c, ground arith, i, (==_iff c.name e.invocation.capability).0 n, a)

decide_refused :
    (m : Metadata) (e : Envelope) → ((decide m e).decision ≡ decision_allow) → refusal m e ≡ none
unfolding decide
decide_refused m e h = elim (Option-cases (refusal m e)) [
  | inl q ↦ q
  | inr (r, q) ↦ absurd (ground arith)
]

-- `Decide` allows exactly the calls with valid metadata and a valid envelope that the contract
-- authorizes.
pub decide_iff :
    (m : Metadata) (e : Envelope) → ((decide m e).decision ≡ decision_allow) ↔ IsPermitted m e
decide_iff m e = (
  λ h. (refusal_iff m e).0 (decide_refused m e h),
  λ p. let (c, d, i, n, a) = decide_permitted m e p in ap (λ (d : PolicyDecision). d.decision) d,
)

-- An allow gives no reason and carries a declared capability with the name and the action of the
-- call, and a deny gives a reason.
pub decide_capability :
    (m : Metadata) (e : Envelope)
    → (((decide m e).decision ≡ decision_allow)
        × ((decide m e).reason ≡ none)
        × In (decide m e).capability m.capabilities
        × ((decide m e).capability.name ≡ e.invocation.capability)
        × ((decide m e).capability.action ≡ e.invocation.action))
      ⊎ (((decide m e).decision ≡ decision_deny) × ((r : Reason) × ((decide m e).reason ≡ some r)))
unfolding decide
decide_capability m e = elim (Option-cases (refusal m e)) [
  | inl q ↦
      let (c, d, i, n, a) = decide_permitted m e ((refusal_iff m e).0 q) in
      inl (
        ap (λ (d : PolicyDecision). d.decision) d,
        ap (λ (d : PolicyDecision). d.reason) d,
        subst (λ (d : PolicyDecision). In d.capability m.capabilities) (sym d) i,
        ap (λ (d : PolicyDecision). d.capability.name) d ∙ n,
        ap (λ (d : PolicyDecision). d.capability.action) d ∙ a,
      )
  | inr (r, q) ↦ inr (ground arith, (r, ground arith))
]
