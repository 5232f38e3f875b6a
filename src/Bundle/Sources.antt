-- ===== src/Bundle/Sources.antt =====
-- bundle/evaluate.go and bundle/session.go: source and destination patterns of bundle policies.
use kei_connector_contracts.Prelude.{
  Bool, true, not, ◌&&◌, ◌||◌, List, [], ◌∷◌, ◌++◌, Text, codes, ◌==◌, any, if◌then◌else◌,
}
use kei_connector_contracts.Strings.{has_prefix, contains}
use kei_connector_contracts.Policy.Principals.{match_principal}
use kei_connector_contracts.Policy.Targets.{target_matches}
use kei_connector_contracts.Bundle.Types.{Call, Tool}

unfoldable pub src_match : Text → Call → List Text → List Text → Bool
src_match pattern c groups roles =
    if pattern == codes "*"
    then true
    else if not (c.agent_id == [])
        && (pattern == codes "agent:" ++ c.agent_id || pattern == codes "agent:*")
    then true
    else if has_prefix pattern (codes "org:") && any (λ role. pattern == codes "org:" ++ role) roles
    then true
    else match_principal pattern c.user_id c.email groups

-- A candidate that is appended if a field is not empty.
abbrev if_given : Text → List Text → List Text
if_given field candidates = if field == [] then [] else candidates

unfoldable pub dst_candidates : Call → Tool → List Text
dst_candidates c t =
    if c.connector_invocation
    then (codes "connector:" ++ c.connector_id)
      ∷ (codes "capability:" ++ c.capability)
      ∷ (codes "resource:" ++ c.resource)
      ∷ (c.action ++ b':' ∷ c.resource)
      ∷ c.capability
      ∷ c.resource
      ∷ []
    else (codes "tool:" ++ t.name)
      ∷ t.action
      ∷ c.action
      ∷ (if_given c.resource
            ((codes "resource:" ++ c.resource) ∷ (c.action ++ b':' ∷ c.resource) ∷ [])
          ++ (if_given c.connector_id ((codes "connector:" ++ c.connector_id) ∷ [])
              ++ if_given c.capability ((codes "capability:" ++ c.capability) ∷ c.capability ∷ [])))

unfoldable pub dst_match : Text → Call → Tool → Bool
dst_match pattern c t =
    any (λ candidate. not (candidate == []) && target_matches pattern candidate)
      (dst_candidates c t)

unfoldable pub requires_subject : Text → Bool
requires_subject pattern = not (pattern == codes "*") && not (has_prefix pattern (codes "agent:"))

unfoldable pub needs_memberships : Text → Bool
needs_memberships pattern =
    if has_prefix pattern (codes "group:") || has_prefix pattern (codes "org:")
    then true
    else not (contains pattern b':') && not (has_prefix pattern (codes "*"))
