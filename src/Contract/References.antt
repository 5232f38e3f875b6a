-- ===== src/Contract/References.antt =====
-- contract/contract.go: `ValidateCredentialRef`.
use kei_connector_contracts.Prelude.{
  Bool, false, not, ◌||◌, Option, none, some, List, [], ◌∷◌, Text, codes, ◌==◌, any, ltb, length,
  refuse_if, ◌>>?◌,
}
use kei_connector_contracts.Strings.{has_prefix, contains, contains_any, to_lower}
use kei_connector_contracts.Net.Url.{parse}
use kei_connector_contracts.Contract.Types.{
  ContractError, no_reference, legacy_namespace, reference_not_opaque, invalid_characters,
  credential_material,
}

abbrev pub material_prefixes : List Text
material_prefixes = codes "bearer " ∷ codes "sk_" ∷ codes "ghp_" ∷ codes "gho_" ∷ codes "xoxb-" ∷ []

-- Whether the reference parses as a URL with a scheme.
unfoldable pub has_scheme : Text → Bool
has_scheme ref = elim (parse ref) [ none ↦ false | some u ↦ not (u.scheme == []) ]

unfoldable pub validate_credential_ref : Text → Option ContractError
validate_credential_ref ref =
    let lowered = to_lower ref in
    refuse_if (ref == [] || ltb 512 (length ref)) no_reference
    >>? refuse_if
        (has_prefix lowered (codes "kei-oauth:") || has_prefix lowered (codes "kei-oauth-"))
        legacy_namespace
    >>? refuse_if (has_scheme ref) reference_not_opaque
    >>? refuse_if (contains_any ref (codes "\r\n\t")) invalid_characters
    >>? refuse_if (contains ref b'=' || any (has_prefix lowered) material_prefixes)
        credential_material
