-- ===== src/Access/Types.antt =====
-- access/access.go: the access modes. A nil slice and an empty one are both the empty list.
use kei_connector_contracts.Prelude.{Option, List, Text, codes}

pub record Step : Type 0 where
  pub name : Text
  pub description : Text
  pub run : List Text

pub record CredentialEnv : Type 0 where
  pub env : Text
  pub field : Text

pub record ApiMode : Type 0 where
  pub adapter : Text

pub record CliMode : Type 0 where
  pub binary : Text
  pub min_version : Text
  pub install : Text

pub record McpMode : Type 0 where
  pub package_name : Text
  pub transport : Text
  pub url : Text
  pub resource : Text
  pub issuer : Text

pub record WebhookMode : Type 0 where
  pub direction : Text
  pub secret_field : Text

pub record AccessMode : Type 0 where
  pub kind : Text
  pub api : Option ApiMode
  pub cli : Option CliMode
  pub mcp : Option McpMode
  pub webhook : Option WebhookMode
  pub credentials : List CredentialEnv
  pub setup : List Step
  pub verify : List Step
  pub reads : List Text
  pub writes : List Text

pub record ProviderAccess : Type 0 where
  pub schema : Text
  pub provider : Text
  pub access : List AccessMode

pub data AccessError : Type 0 where
  bad_schema unsupported_provider duplicate_mode : AccessError
  not_one_block wrong_adapter bad_cli bad_webhook unknown_kind : AccessError
  mcp_required unknown_transport invalid_url not_https no_host has_userinfo has_query has_fragment :
      AccessError
  credentials_misplaced bad_credentials bad_steps secret_material : AccessError
  duplicate_capability undefined_capability wrong_action : AccessError

abbrev pub kind_api : Text
kind_api = codes "api"

abbrev pub kind_cli : Text
kind_cli = codes "cli"

abbrev pub kind_mcp : Text
kind_mcp = codes "mcp"

abbrev pub kind_webhook : Text
kind_webhook = codes "webhook"

abbrev pub access_schema_version : Text
access_schema_version = codes "kei.connector-access/v1"
