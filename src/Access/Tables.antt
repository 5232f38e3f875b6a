-- ===== src/Access/Tables.antt =====
-- access/access.go: the access modes of the providers with a runtime adapter.
use kei_connector_contracts.Prelude.{
  Bool, not, ◌&&◌, Option, none, some, List, [], ◌∷◌, ◌++◌, map, Text, codes, ◌==◌, keep, find,
}
use kei_connector_contracts.Contract.Types.{Capability}
use kei_connector_contracts.Contract.Names.Provider
use kei_connector_contracts.Contract.Names.Action
use kei_connector_contracts.Contract.Catalog.{is_one_of, entry_of, capabilities_for}
use kei_connector_contracts.Access.Types.{
  Step, AccessMode, ProviderAccess, kind_api, access_schema_version,
}
use mathlib.Core.Option

-- `CredentialReference`
unfoldable pub credential_reference : Text → Text → Text
credential_reference connector_id field =
    codes "kei://connectors/" ++ (connector_id ++ (codes "/" ++ field))

abbrev pub api_writes : List (Text × List Text)
api_writes =
    (Provider.linear, codes "issue.create" ∷ codes "comment.create" ∷ [])
    ∷ (Provider.http_api, codes "http.post" ∷ codes "http.patch" ∷ [])
    ∷ []

-- `APIWrite`
unfoldable pub api_write : Text → Text → Bool
api_write provider capability =
    is_one_of (Option.get_or (entry_of api_writes provider) []) capability

unfoldable pub names_of : (Capability → Bool) → List Capability → List Text
names_of p cs = map (λ (c : Capability). c.name) (keep p cs)

unfoldable pub is_read : Capability → Bool
is_read c = c.action == Action.read

-- The reads and the writes that the adapter serves.
unfoldable pub api_reads : Text → List Text
api_reads provider = names_of is_read (capabilities_for provider)

unfoldable pub api_served_writes : Text → List Text
api_served_writes provider =
    names_of (λ c. not (is_read c) && api_write provider c.name) (capabilities_for provider)

abbrev setup_steps : List Step
setup_steps =
    record {
      name = codes "create_connector";
      description =
          codes
            "Create the connector in the Kei console with the provider's setup fields (schemas/connector-setup.v1.json). Secrets go to the console-connected secret manager; the connector keeps only its credential_ref.";
      run = [];
    }
    ∷ record {
      name = codes "declare_capabilities";
      description =
          codes
            "Declare the capabilities the connector exposes. ABAC policy decides who may use them.";
      run = [];
    }
    ∷ []

abbrev first_of : List Text → Text
first_of [] = []
first_of (x ∷ xs) = x

-- The code panics where there is no read; each provider of the table has one.
unfoldable pub verify_step : List Text → Step
verify_step reads = record {
  name = codes "invoke_read";
  description = codes "Run one read through the runtime adapter.";
  run =
      map codes (
        "kei-proxy" ∷ "connector" ∷ "invoke" ∷ "--connector" ∷ "<connector_id>" ∷ "--capability"
        ∷ [])
      ++ (first_of reads ∷ map codes ("--action" ∷ "read" ∷ "--resource" ∷ "<resource>" ∷ []));
}

-- `apiMode`
unfoldable pub api_mode : Text → AccessMode
api_mode provider = record {
  kind = kind_api;
  api = some (record { adapter = provider });
  cli = none;
  mcp = none;
  webhook = none;
  credentials = [];
  setup = setup_steps;
  verify = verify_step (api_reads provider) ∷ [];
  reads = api_reads provider;
  writes = api_served_writes provider;
}

-- `apiOnly`
unfoldable pub api_only : Text → ProviderAccess
api_only provider = record {
  schema = access_schema_version;
  provider = provider;
  access = api_mode provider ∷ [];
}

abbrev pub adapters : List Text
adapters =
    Provider.gmail ∷ Provider.google ∷ Provider.linear ∷ Provider.github ∷ Provider.tito
    ∷ Provider.notion ∷ Provider.discord ∷ Provider.grafana ∷ Provider.http_api
    ∷ Provider.skills_repo ∷ []

-- `Access`
unfoldable pub provider_access : List ProviderAccess
provider_access = map api_only adapters

-- `AccessFor`
unfoldable pub access_for : Text → Option ProviderAccess
access_for provider = find (λ a. a.provider == provider) provider_access
