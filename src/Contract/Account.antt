-- ===== src/Contract/Account.antt =====
-- contract/accountmodel.go, and the credential source of contract/contract.go.
pub mod Models
pub mod Laws
use kei_connector_contracts.Prelude.{
  Bool, not, ◌&&◌, Option, none, [], ◌∷◌, ◌++◌, Text, codes, ◌==◌, if◌then◌else◌, refuse_if, ◌>>?◌,
}
use kei_connector_contracts.Contract.Types.{
  Metadata, Invocation, ContractError, unsupported_source, source_not_opaque, no_declared_subject,
  model_not_allowed, model_needs_oauth, model_needs_opaque, subject_declared, subject_not_shared,
}
use kei_connector_contracts.Contract.Names.Provider
use kei_connector_contracts.Contract.Names.CredentialSource
use kei_connector_contracts.Contract.Names.AccountModel
use kei_connector_contracts.Contract.Catalog.{is_one_of, account_models_for, valid_id}

unfoldable pub effective_source : Metadata → Text
effective_source m =
    if m.credential_source == [] then CredentialSource.opaque_ref else m.credential_source

unfoldable pub shared_subject : Text → Text
shared_subject connector_id = codes "connector:" ++ connector_id

unfoldable pub credential_subject : Metadata → Invocation → Text
credential_subject m call =
    if m.account_model == AccountModel.per_user
    then call.subject
    else if m.account_model == [] && effective_source m == CredentialSource.oauth
    then m.subject
    else shared_subject m.id

unfoldable pub check_per_user : Metadata → Option ContractError
check_per_user m =
    refuse_if (not (effective_source m == CredentialSource.oauth)) model_needs_oauth
    >>? refuse_if (not (m.subject == [])) subject_declared

unfoldable pub check_shared : Metadata → Option ContractError
check_shared m =
    refuse_if (not (effective_source m == CredentialSource.oauth)) model_needs_oauth
    >>? refuse_if (not (m.subject == shared_subject m.id)) subject_not_shared

unfoldable pub check_delegation : Metadata → Option ContractError
check_delegation m =
    refuse_if (not (effective_source m == CredentialSource.opaque_ref)) model_needs_opaque
    >>? refuse_if (not (m.subject == [])) subject_declared

-- The switch over the account model.
unfoldable pub check_model : Metadata → Option ContractError
check_model m =
    if m.account_model == AccountModel.per_user
    then check_per_user m
    else if m.account_model == AccountModel.shared
    then check_shared m
    else if m.account_model == AccountModel.domain_delegation
    then check_delegation m
    else none

unfoldable pub needs_opaque : Text → Bool
needs_opaque = is_one_of (Provider.tito ∷ Provider.discord ∷ Provider.grafana ∷ [])

unfoldable pub check_source : Metadata → Option ContractError
check_source m =
    refuse_if
      (not (
        is_one_of (CredentialSource.oauth ∷ CredentialSource.opaque_ref ∷ []) (effective_source m)))
      unsupported_source
    >>? (if m.subject == [] then none else valid_id m.subject)
    >>? refuse_if
        (needs_opaque m.provider && not (effective_source m == CredentialSource.opaque_ref))
        source_not_opaque

-- `validateCredentialBinding`
unfoldable pub validate_credential_binding : Metadata → Option ContractError
validate_credential_binding m =
    check_source m
    >>? (if m.account_model == []
        then refuse_if (effective_source m == CredentialSource.oauth && m.subject == [])
            no_declared_subject
        else refuse_if (not (is_one_of (account_models_for m.provider) m.account_model))
            model_not_allowed
          >>? check_model m)
