-- ===== src/Access/Validate.antt =====
-- access/access.go: the validation of an access document. The document shares its remote servers
-- with the caller, so that the validation returns what it leaves of it.
pub mod Stable
pub mod Served
use kei_connector_contracts.Prelude.{
  ℕ, ◌+◌, Bool, true, false, not, ◌&&◌, ◌||◌, Option, none, some, List, [], ◌∷◌, Text, codes, ◌==◌,
  find, eqb, if◌then◌else◌, is_empty, refuse_if, ◌>>?◌,
}
use kei_connector_contracts.Strings.{trim_space}
use kei_connector_contracts.Contract.Types.{Capability}
use kei_connector_contracts.Contract.Catalog.{is_one_of, capabilities_for, valid_provider}
use kei_connector_contracts.Access.Types.{
  Step, CredentialEnv, ApiMode, CliMode, WebhookMode, AccessMode, ProviderAccess, AccessError,
  bad_schema, unsupported_provider, duplicate_mode, not_one_block, wrong_adapter, bad_cli,
  bad_webhook, unknown_kind, mcp_required, credentials_misplaced, bad_credentials, bad_steps,
  secret_material, duplicate_capability, undefined_capability, wrong_action, kind_api, kind_cli,
  kind_mcp, kind_webhook, access_schema_version,
}
use kei_connector_contracts.Access.Tables.{is_read}
use kei_connector_contracts.Access.Checks.{
  binary_name, min_version, env_name, field_name, contains_secret_material, validate_mcp,
}

abbrev is_set : {A : Type 0} → Option A → ℕ
is_set none = 0
is_set (some a) = 1

unfoldable pub blocks : AccessMode → ℕ
blocks m = is_set m.api + is_set m.cli + is_set m.mcp + is_set m.webhook

unfoldable pub check_api : Text → Option ApiMode → Option AccessError
check_api provider none = some wrong_adapter
check_api provider (some a) = refuse_if (not (a.adapter == provider)) wrong_adapter

unfoldable pub check_cli : Option CliMode → Option AccessError
check_cli none = some bad_cli
check_cli (some c) =
    refuse_if
      (not (binary_name c.binary) || not (min_version c.min_version) || trim_space c.install == [])
      bad_cli

unfoldable pub check_webhook : Option WebhookMode → Option AccessError
check_webhook none = some bad_webhook
check_webhook (some w) =
    refuse_if
      (not (is_one_of (codes "inbound" ∷ codes "outbound" ∷ []) w.direction)
        || not (field_name w.secret_field))
      bad_webhook

-- The block of a remote server, as validation leaves it.
unfoldable pub check_mcp_block : AccessMode → AccessMode × Option AccessError
check_mcp_block m = elim m.mcp [
  | none ↦ (m, some mcp_required)
  | some s ↦ let (s', e) = validate_mcp s in (record m { mcp = some s' }, e)
]

-- The switch over the kind.
unfoldable pub check_kind : Text → AccessMode → AccessMode × Option AccessError
check_kind provider m =
    if m.kind == kind_api
    then (m, check_api provider m.api)
    else if m.kind == kind_cli
    then (m, check_cli m.cli)
    else if m.kind == kind_mcp
    then check_mcp_block m
    else if m.kind == kind_webhook
    then (m, check_webhook m.webhook)
    else (m, some unknown_kind)

unfoldable pub check_credentials : List Text → List CredentialEnv → Option AccessError
check_credentials seen [] = none
check_credentials seen (c ∷ cs) =
    refuse_if (not (env_name c.env) || not (field_name c.field) || is_one_of seen c.env)
      bad_credentials
    >>? check_credentials (c.env ∷ seen) cs

unfoldable pub check_steps : List Text → List Step → Option AccessError
check_steps seen [] = none
check_steps seen (s ∷ ss) =
    refuse_if (not (field_name s.name) || trim_space s.description == [] || is_one_of seen s.name)
      bad_steps
    >>? refuse_if (contains_secret_material (s.description ∷ s.run)) secret_material
    >>? check_steps (s.name ∷ seen) ss

unfoldable pub has_secret_block : AccessMode → Bool
has_secret_block m =
    elim m.cli [ none ↦ false | some c ↦ contains_secret_material (c.install ∷ []) ] || elim m.mcp [
      | none ↦ false
      | some s ↦ contains_secret_material (s.url ∷ s.resource ∷ s.issuer ∷ [])
    ]

-- `lookup`
unfoldable pub lookup_capability : Text → Text → Option Capability
lookup_capability provider name = find (λ c. c.name == name) (capabilities_for provider)

unfoldable pub check_listed : Text → Bool → Text → Option AccessError
check_listed provider read name = elim (lookup_capability provider name) [
  | none ↦ some undefined_capability
  | some c ↦ refuse_if (if read then not (is_read c) else is_read c) wrong_action
]

-- `validateCapabilities`, after the names that were seen.
unfoldable pub validate_capabilities : Text → Bool → List Text → List Text → Option AccessError
validate_capabilities provider read seen [] = none
validate_capabilities provider read seen (n ∷ names) =
    refuse_if (is_one_of seen n) duplicate_capability
    >>? check_listed provider read n
    >>? validate_capabilities provider read (n ∷ seen) names

-- What is checked after the switch.
unfoldable pub check_rest : Text → AccessMode → Option AccessError
check_rest provider m =
    refuse_if (not (is_empty m.credentials) && not (m.kind == kind_cli) && not (m.kind == kind_mcp))
      credentials_misplaced
    >>? check_credentials [] m.credentials
    >>? check_steps [] m.setup
    >>? check_steps [] m.verify
    >>? refuse_if (has_secret_block m) secret_material
    >>? validate_capabilities provider true [] m.reads
    >>? validate_capabilities provider false [] m.writes

-- `AccessMode.validate`: the mode that it leaves, and its error.
unfoldable pub validate_mode : Text → AccessMode → AccessMode × Option AccessError
validate_mode provider m =
    if not (eqb (blocks m) 1)
    then (m, some not_one_block)
    else (let (m', e) = check_kind provider m in (m', e >>? check_rest provider m'))

-- The loop over the modes, after the kinds that were seen.
unfoldable pub validate_modes :
    Text → List Text → List AccessMode → List AccessMode × Option AccessError
validate_modes provider seen [] = ([], none)
validate_modes provider seen (m ∷ ms) =
    let (m', e) = validate_mode provider m in
    let (ms', f) = validate_modes provider (m.kind ∷ seen) ms in
    if is_one_of seen m.kind
    then (m ∷ ms, some duplicate_mode)
    else elim e [ some x ↦ (m' ∷ ms, some x) | none ↦ (m' ∷ ms', f) ]

-- `ProviderAccess.Validate`: the document that it leaves, and its error.
unfoldable pub validate : ProviderAccess → ProviderAccess × Option AccessError
validate a =
    if not (a.schema == access_schema_version)
    then (a, some bad_schema)
    else if not (valid_provider a.provider)
    then (a, some unsupported_provider)
    else (let (modes, e) = validate_modes a.provider [] a.access in
        (record a { access = modes }, e))
