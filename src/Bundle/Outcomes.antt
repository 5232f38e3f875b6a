-- ===== src/Bundle/Outcomes.antt =====
-- bundle/evaluate.go: the outcomes of a decision.
use kei_connector_contracts.Prelude.{◌≡◌, refl, ◌⊎◌, inl, inr}
use kei_connector_contracts.Bundle.Types.{Outcome, allow, deny}

pub outcome-cases : (o : Outcome) → (o ≡ allow) ⊎ (o ≡ deny)
outcome-cases allow = inl refl
outcome-cases deny = inr refl

pub deny_allow : {o : Outcome} → o ≡ deny → o ≡ allow → ⊥
deny_allow d a = cc
