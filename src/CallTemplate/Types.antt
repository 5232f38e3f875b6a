-- ===== src/CallTemplate/Types.antt =====
-- calltemplate/calltemplate.go: the templates, once decoded.
use kei_connector_contracts.Prelude.{Bool, Option, List, Text}
use kei_connector_contracts.Manifest.Values.{Value}
use kei_connector_contracts.CallTemplate.Secrets.{Secret}

pub record Auth : Type 0 where
  pub placement : Text
  pub name : Text
  pub scheme : Text

pub record Arg : Type 0 where
  pub location : Text
  pub name : Text
  pub encoding : Text

-- The arguments are a map from names.
pub record Transport : Type 0 where
  pub method : Text
  pub url_template : Text
  pub auth : Option Auth
  pub args : List (Text × Arg)

pub record Binding : Type 0 where
  pub connector_id : Text
  pub delegated_context : List Text
  pub transport : Option Transport

-- What the parameters decode to: nothing or null, a list of named parameters, a schema object, or
-- neither. Of the properties only the names are read.
pub data Parameters : Type 0 where
  absent : Parameters
  named : List Text → Parameters
  schema : Text → List Text → List Text → Option Bool → Parameters
  undecodable : Parameters

pub record Template : Type 0 where
  pub schema_name : Text
  pub name : Text
  pub description : Text
  pub parameters : Parameters
  pub permission : Text
  pub category : Text
  pub service : Text
  pub version : Text
  pub tags : List Text
  pub binding : Option Binding

-- An entry of the array: the template that the strict decoder makes of it, `none` where it refuses,
-- and the tree of the plain one.
pub record RawTemplate : Type 0 where
  pub decoded : Option Template
  pub tree : Value

pub data TemplateError : Type 0 where
  not_an_array no_templates unknown_field duplicate_name : TemplateError
  bad_schema bad_name no_description no_permission no_connector : TemplateError
  no_parameters bad_parameter_name bad_parameters not_an_object not_closed : TemplateError
  required_not_defined : Text → TemplateError
  bad_method no_url bad_placement no_auth_name bad_location bad_encoding : TemplateError
  unbound_placeholder : Text → TemplateError
  holds_secret : Secret → TemplateError
