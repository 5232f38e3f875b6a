-- ===== src/Contract/Catalog.antt =====
-- contract/contract.go and contract/accountmodel.go: the tables, and the closed sets of names.
pub mod Laws
use kei_connector_contracts.Prelude.{
  String, Bool, false, not, ◌&&◌, ◌||◌, Option, none, some, List, [], ◌∷◌, ◌++◌, map, Text, codes,
  ◌==◌, any, all, leb, if◌then◌else◌, length, refuse_if, first_error,
}
use kei_connector_contracts.Strings.{to_lower, contains_text}
use kei_connector_contracts.Net.Escape.{is_alnum, among}
use kei_connector_contracts.Contract.Types.{Capability, ContractError, invalid_id}
use kei_connector_contracts.Contract.Names.Provider
use kei_connector_contracts.Contract.Names.AccountModel
use kei_connector_contracts.Contract.Names.Status
use kei_connector_contracts.Contract.Names.Action
use mathlib.Core.Option

-- Membership in a list of names.
unfoldable pub is_one_of : List Text → Text → Bool
is_one_of names t = any (λ n. n == t) names

-- A Go map with string keys, as a list of entries.
unfoldable pub entry_of : {A : Type 0} → List (Text × A) → Text → Option A
entry_of [] k = none
entry_of ((j, a) ∷ m) k = if j == k then some a else entry_of m k

abbrev capability : Text → String → Capability
capability action name = record { name = codes name; action = action; description = [] }

abbrev reads : List String → List Capability
reads names = map (capability Action.read) names

-- `definitions`
abbrev pub definitions : List (Text × List Capability)
definitions =
    (
      Provider.linear,
      reads ("team.read" ∷ "project.read" ∷ "cycle.read" ∷ "issue.read" ∷ [])
          ++ (capability Action.create "issue.create"
              ∷ capability Action.update "issue.update"
              ∷ capability Action.create "comment.create"
              ∷ []),
    )
    ∷ (
      Provider.github,
      reads (
            "repository.read" ∷ "issue.read" ∷ "pull_request.read" ∷ "check.read" ∷ "workflow.read"
            ∷ [])
          ++ (capability Action.create "issue.create"
              ∷ capability Action.update "issue.update"
              ∷ capability Action.create "pull_request.create"
              ∷ capability Action.update "pull_request.update"
              ∷ capability Action.comment "issue.comment"
              ∷ []),
    )
    ∷ (
      Provider.google,
      reads ("drive.search" ∷ "drive.metadata.read" ∷ "docs.read" ∷ [])
          ++ (capability Action.create "drive.doc.create"
              ∷ capability Action.update "drive.doc.update"
              ∷ []),
    )
    ∷ (Provider.notion, reads ("search" ∷ "page.read" ∷ "database.query" ∷ []))
    ∷ (Provider.s3, reads ("object.list" ∷ "object.read" ∷ []))
    ∷ (
      Provider.http_api,
      reads ("http.get" ∷ "http.head" ∷ [])
          ++ (capability Action.create "http.post" ∷ capability Action.update "http.patch" ∷ []),
    )
    ∷ (
      Provider.freshbooks,
      reads ("invoice.read" ∷ "expense.read" ∷ "payment.read" ∷ "client.read" ∷ []),
    )
    ∷ (Provider.mercury, reads ("account.read" ∷ "transaction.read" ∷ "balance.read" ∷ []))
    ∷ (Provider.gmail, reads ("message.search" ∷ "message.get" ∷ []))
    ∷ (Provider.tito, reads ("event.list" ∷ "event.get" ∷ "release.list" ∷ "ticket.summary" ∷ []))
    ∷ (
      Provider.discord,
      reads (
          "guild.list" ∷ "guild.read" ∷ "channel.list" ∷ "channel.read" ∷ "thread.list"
          ∷ "message.list" ∷ "message.read" ∷ "role.list" ∷ []),
    )
    ∷ (
      Provider.grafana,
      reads (
          "folder.list" ∷ "folder.read" ∷ "dashboard.search" ∷ "dashboard.read" ∷ "datasource.list"
          ∷ "datasource.read" ∷ "alert_rule.list" ∷ "annotation.list" ∷ "datasource.query" ∷ []),
    )
    ∷ (Provider.skills_repo, reads ("skills.list" ∷ "skills.fetch" ∷ []))
    ∷ []

-- `CapabilitiesFor`: none for a provider that is not listed.
unfoldable pub capabilities_for : Text → List Capability
capabilities_for provider = Option.get_or (entry_of definitions provider) []

unfoldable pub defined_capability : Text → Capability → Bool
defined_capability provider candidate =
    any (λ c. c.name == candidate.name && c.action == candidate.action) (capabilities_for provider)

-- `DefinedProviders`, of which the code leaves the order open.
unfoldable pub defined_providers : List Text
defined_providers = map (λ (p, cs). p) definitions

unfoldable pub valid_provider : Text → Bool
valid_provider = is_one_of (
    Provider.linear ∷ Provider.github ∷ Provider.google ∷ Provider.notion ∷ Provider.s3
    ∷ Provider.http_api ∷ Provider.freshbooks ∷ Provider.mercury ∷ Provider.gmail ∷ Provider.tito
    ∷ Provider.discord ∷ Provider.grafana ∷ Provider.skills_repo ∷ [])

unfoldable pub valid_status : Text → Bool
valid_status =
    is_one_of
      (Status.pending ∷ Status.active ∷ Status.suspended ∷ Status.revoked ∷ Status.failed ∷ [])

unfoldable pub valid_action : Text → Bool
valid_action =
    is_one_of (Action.read ∷ Action.create ∷ Action.update ∷ Action.delete ∷ Action.comment ∷ [])

-- `accountModels`
abbrev pub account_models : List (Text × List Text)
account_models =
    (
      Provider.gmail,
      AccountModel.per_user ∷ AccountModel.shared ∷ AccountModel.domain_delegation ∷ [],
    )
    ∷ (
      Provider.google,
      AccountModel.per_user ∷ AccountModel.shared ∷ AccountModel.domain_delegation ∷ [],
    )
    ∷ (Provider.linear, AccountModel.per_user ∷ AccountModel.shared ∷ [])
    ∷ (Provider.github, AccountModel.per_user ∷ AccountModel.shared ∷ [])
    ∷ (Provider.skills_repo, AccountModel.per_user ∷ [])
    ∷ []

unfoldable pub account_models_for : Text → List Text
account_models_for provider = Option.get_or (entry_of account_models provider) []

-- `^[A-Za-z0-9][A-Za-z0-9._:/-]{0,254}$`
unfoldable pub identifier : Text → Bool
identifier [] = false
identifier (c ∷ s) = is_alnum c && all (λ x. is_alnum x || among x "._:/-") s && leb (length s) 254

-- `validID`
unfoldable pub valid_id : Text → Option ContractError
valid_id value = refuse_if (value == [] || not (identifier value)) invalid_id

-- The loop over a map of names and values returns an error exactly if one value is invalid; the
-- order of the loop decides only which name the error gives.
unfoldable pub valid_ids : List Text → Option ContractError
valid_ids values = first_error valid_id values

abbrev pub secret_markers : List Text
secret_markers =
    codes "bearer "
    ∷ codes "basic "
    ∷ codes "api_key="
    ∷ codes "api-key="
    ∷ codes "secret="
    ∷ codes "token="
    ∷ codes "sk_"
    ∷ codes "ghp_"
    ∷ codes "gho_"
    ∷ codes "xoxb-"
    ∷ []

-- `containsSecretMaterial`
unfoldable pub contains_secret_material : Text → Bool
contains_secret_material value = any (contains_text (to_lower value)) secret_markers
