-- ===== src/Access/Provided.antt =====
-- access/access.go: the documents of the table.
use kei_connector_contracts.Prelude.{
  ◌≡◌, refl, none, some, Text, ==_iff, ◌==◌, any, all, keep, find, All, All_at, find_sound,
}
use kei_connector_contracts.Strings.{
  trim_space, trim_right_by, trim_left_by, is_space, contains_text, index, has_prefix, to_lower,
  lower,
}
use kei_connector_contracts.Net.Escape.{is_digit}
use kei_connector_contracts.Contract.Catalog.{entry_of, capabilities_for, is_one_of, valid_provider}
use kei_connector_contracts.Access.Types.{ProviderAccess}
use kei_connector_contracts.Access.Tables.{
  api_write, names_of, is_read, api_reads, api_served_writes, verify_step, api_mode, api_only,
  provider_access, access_for,
}
use kei_connector_contracts.Access.Checks.{field_name, contains_secret_material}
use kei_connector_contracts.Access.Validate.{
  blocks, check_api, check_kind, check_credentials, check_steps, has_secret_block,
  lookup_capability, check_listed, validate_capabilities, check_rest, validate_mode, validate_modes,
  validate,
}

abbrev IsAccepted : ProviderAccess → Type 0
IsAccepted a = validate a ≡ (a, none)

provided : All IsAccepted provider_access
unfolding trim_space trim_right_by trim_left_by is_space contains_text index has_prefix to_lower
    lower is_digit entry_of capabilities_for is_one_of valid_provider api_write names_of is_read
    api_reads api_served_writes verify_step api_mode api_only provider_access field_name
    contains_secret_material blocks check_api check_kind check_credentials check_steps
    has_secret_block lookup_capability check_listed validate_capabilities check_rest validate_mode
    validate_modes validate ◌==◌ any all keep find
provided = (refl, (refl, (refl, (refl, (refl, (refl, (refl, (refl, (refl, (refl, tt))))))))))

-- The access document of a provider is of that provider, and passes validation unchanged.
pub access_for-validate :
    (p : Text) (a : ProviderAccess)
    → access_for p ≡ some a
    → (a.provider ≡ p) × (validate a ≡ (a, none))
unfolding access_for
access_for-validate p a h =
    let (i, e) = find_sound (λ (a : ProviderAccess). a.provider == p) provider_access a h in
    ((==_iff a.provider p).0 e, All_at IsAccepted a provider_access provided i)
