-- ===== src/Capabilities.antt =====
-- capability/capability.go: the lookups of the defined capabilities.
pub mod Laws
use kei_connector_contracts.Prelude.{
  Option, none, some, List, Text, ◌==◌, find, if◌then◌else◌, Try, ok, err,
}
use kei_connector_contracts.Strings.{text_lt}
use kei_connector_contracts.Sort.{sort}
use kei_connector_contracts.Contract.Types.{Capability}
use kei_connector_contracts.Contract.Catalog.{capabilities_for, valid_provider, defined_providers}

unfoldable pub lookup_capability : Text → Text → Option Capability
lookup_capability provider name = find (λ c. c.name == name) (capabilities_for provider)

pub data CapabilityError : Type 0 where
  not_defined unsupported_provider : CapabilityError

unfoldable pub capability_for : Text → Text → Try CapabilityError Capability
capability_for provider name = elim (lookup_capability provider name) [
  | none ↦ err not_defined
  | some c ↦ ok c
]

unfoldable pub capabilities_for_provider : Text → Try CapabilityError (List Capability)
capabilities_for_provider provider =
    if valid_provider provider then ok (capabilities_for provider) else err unsupported_provider

unfoldable pub providers : List Text
providers = sort text_lt defined_providers
