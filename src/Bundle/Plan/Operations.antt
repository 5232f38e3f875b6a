-- ===== src/Bundle/Plan/Operations.antt =====
-- bundle/evaluate_v2.go: the operations of a plan.
use kei_connector_contracts.Prelude.{
  ◌≡◌, ◌≢◌, inl, inr, true, false, none, some, List, [], ◌∷◌, arith, Text, ==_iff, eqb,
  Option-cases, All, In, length, all_at,
}
use kei_connector_contracts.Bundle.Types.{Payload, V2Tool, Decision, allow, deny, contains_exact}
use kei_connector_contracts.Bundle.Plan.{
  Operation, agent_bound, operation_resource_registered, operation_request, operation_refusal,
  first_refusal, is_covered, decide_operations,
}
use kei_connector_contracts.Bundle.Outcomes.{outcome-cases, deny_allow}

-- An operation of the tool's own connector, capabilities and resource types, whose check allows it.
pub record IsPermitted (t : V2Tool) (connector_id : Text) (check : List (Text × Text) → Decision)
    (op : Operation) : Type 0 where
  pub connector : op.connector_id ≡ connector_id
  pub capability : contains_exact t.required_capabilities op.capability ≡ true
  pub resource : operation_resource_registered t op ≡ true
  pub allowed : (check (operation_request t connector_id op)).outcome ≡ allow

module _ (t : V2Tool) (connector_id : Text) (check : List (Text × Text) → Decision) where
  operation_passed :
      (op : Operation)
      → operation_refusal t connector_id check op ≡ none
      → IsPermitted t connector_id check op
  unfolding operation_refusal
  operation_passed op h = record {
    connector = ground (arith, ==_iff op.connector_id connector_id);
    capability = ground arith;
    resource = ground arith;
    allowed = ground arith;
  }

  refused :
      (op : Operation) (d : Decision)
      → operation_refusal t connector_id check op ≡ some d
      → d.outcome ≡ deny
  unfolding operation_refusal
  refused op d h = elim (outcome-cases (check (operation_request t connector_id op)).outcome) [
    | inl e ↦ ground arith
    | inr e ↦ ground arith
  ]

  first_refused :
      (ops : List Operation) (d : Decision)
      → first_refusal t connector_id check ops ≡ some d
      → d.outcome ≡ deny
  unfolding first_refusal
  first_refused [] d h = absurd (cc)
  first_refused (op ∷ ops) d h = elim (Option-cases (operation_refusal t connector_id check op)) [
    | inl e ↦ first_refused ops d (ground arith)
    | inr (c, e) ↦ refused op d (ground arith)
  ]

  operations_passed :
      (ops : List Operation)
      → first_refusal t connector_id check ops ≡ none
      → All (IsPermitted t connector_id check) ops
  unfolding first_refusal
  operations_passed [] h = tt
  operations_passed (op ∷ ops) h = elim (Option-cases (operation_refusal t connector_id check op)) [
    | inl e ↦ (operation_passed op e, operations_passed ops (ground arith))
    | inr (d, e) ↦ ground arith
  ]

-- What the end of the plan's evaluation has checked when it allows.
pub record IsComplete (v : Payload) (agent_id : Text) (ops : List Operation) (t : V2Tool)
    (connector_id : Text) (check : List (Text × Text) → Decision) : Type 0 where
  pub agent : agent_id ≢ []
  pub bound : agent_bound v agent_id connector_id t.required_capabilities ≡ true
  pub some_operation : ops ≢ []
  pub permitted : All (IsPermitted t connector_id check) ops
  pub covered : (r : Text) → In r t.required_capabilities → is_covered ops r ≡ true

nonempty_list {ℓ} : {A : Type ℓ} (xs : List A) → eqb (length xs) 0 ≡ false → xs ≢ []
nonempty_list [] h e = ground arith
nonempty_list (x ∷ xs) h e = cc

pub operations_allowed :
    (v : Payload) (agent_id : Text) (ops : List Operation) (t : V2Tool) (connector_id : Text)
    (check : List (Text × Text) → Decision)
    → (decide_operations v agent_id ops t connector_id check).outcome ≡ allow
    → IsComplete v agent_id ops t connector_id check
unfolding decide_operations
operations_allowed v agent_id ops t connector_id check h =
    elim (Option-cases (first_refusal t connector_id check ops)) [
      | inr (d, e) ↦ absurd (deny_allow (first_refused t connector_id check ops d e) (ground arith))
      | inl e ↦ record {
        agent = λ n. ground (arith, (==_iff agent_id []).1 n);
        bound = ground arith;
        some_operation = nonempty_list ops (ground arith);
        permitted = operations_passed t connector_id check ops e;
        covered = λ r m. all_at (is_covered ops) r t.required_capabilities (ground arith) m;
      }
    ]
