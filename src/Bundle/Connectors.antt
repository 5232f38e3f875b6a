-- ===== src/Bundle/Connectors.antt =====
-- bundle/connector.go: the connectors of a bundle, and the agents bound to them.
use kei_connector_contracts.Prelude.{
  Bool, false, ◌&&◌, ◌||◌, Option, none, some, [], Text, codes, ◌==◌, find, if◌then◌else◌,
}
use kei_connector_contracts.Bundle.Types.{Payload, Connector}
use kei_connector_contracts.Bundle.Plan.{is_set, agent_bound}

unfoldable connector : Payload → Text → Option Connector
connector v id = elim v.policy_set [
  | none ↦ none
  | some set ↦ find (λ (c : Connector). c.id == id) set.connectors
]

unfoldable mcp_connector : Payload → Text → Option Connector
mcp_connector v slug = elim v.policy_set [
  | none ↦ none
  | some set ↦
      if slug == []
      then none
      else find (λ (c : Connector). c.kind == codes "mcp" && c.slug == slug && is_set c.mcp)
          set.connectors
]

unfoldable pub agent_bound_to_connector : Payload → Text → Text → Bool
agent_bound_to_connector v agent_id connector_id =
    if agent_id == [] || connector_id == [] then false else agent_bound v agent_id connector_id []
