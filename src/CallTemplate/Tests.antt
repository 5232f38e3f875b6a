-- ===== src/CallTemplate/Tests.antt =====
-- Call templates at concrete inputs.
use kei_connector_contracts.Prelude.{
  ◌≡◌, refl, ◌≢◌, ◌↔◌, false, none, some, List, [], ◌∷◌, Text, codes, ◌==◌, any, all, keep, find,
  IsDistinct, int_lt, int_eq, ok, err, first_error,
}
use kei_connector_contracts.Strings.{
  has_prefix, cut_prefix, trim_prefix, has_suffix, cut_suffix, trim_suffix, cut, contains,
  contains_any, split, is_space, fields_from, fields, last_index, index, lower, equal_fold, text_lt,
  to_lower, upper, to_upper, contains_text, trim_left_by, trim_right_by, trim_space,
}
use kei_connector_contracts.Net.Escape.{
  is_digit, is_letter, is_alnum, is_hex, unhex, among, should_escape_mark, should_escape,
  escape_allowed, plain_allowed, unescape, hex_digit, escape, valid_encoded_byte,
}
use kei_connector_contracts.Contract.Catalog.{
  is_one_of, entry_of, capabilities_for, defined_capability, defined_providers, valid_provider,
  valid_status, valid_action, account_models_for, identifier, valid_id, valid_ids,
  contains_secret_material,
}
use kei_connector_contracts.Regex.{
  nullable, then_regex, either, derive, matches_prefix, search_regex, is_word, search_at_word,
}
use kei_connector_contracts.CallTemplate.Secrets.{
  is_secret_value, is_secret_key, is_placeholder, literal_under,
}
use kei_connector_contracts.CallTemplate.Validate.{
  each, dotted_name, name_pattern, param_name_pattern, placeholders_from, placeholders,
  validate_parameters, validate_auth, validate_arg, is_path_arg, validate_transport,
  validate_binding, validate, parse_entries, parse,
}
use kei_connector_contracts.Manifest.Values.{text, object, Fields, end, field}
use kei_connector_contracts.CallTemplate.Types.{
  Arg, Transport, Template, RawTemplate, schema, duplicate_name, unbound_placeholder,
}
use kei_connector_contracts.CallTemplate.Secrets.{literal_value, secret_value, find_secrets}
use kei_connector_contracts.CallTemplate.Validate.Laws.{Accepted, names, parse_iff}

checking : Unit {0}
unfolding ◌==◌ any all keep find first_error int_lt int_eq has_prefix cut_prefix trim_prefix
    has_suffix cut_suffix trim_suffix cut contains contains_any split is_space fields_from fields
    last_index index lower equal_fold text_lt to_lower upper to_upper contains_text trim_left_by
    trim_right_by trim_space is_digit is_letter is_alnum is_hex unhex among should_escape_mark
    should_escape escape_allowed plain_allowed unescape hex_digit escape valid_encoded_byte
    is_one_of entry_of capabilities_for defined_capability defined_providers valid_provider
    valid_status valid_action account_models_for identifier valid_id valid_ids
    contains_secret_material nullable then_regex either derive matches_prefix search_regex is_word
    search_at_word is_secret_value is_secret_key is_placeholder literal_under each dotted_name
    name_pattern param_name_pattern placeholders_from placeholders validate_parameters validate_auth
    validate_arg is_path_arg validate_transport validate_binding validate parse_entries parse
checking = tt

abbrev path_arg : Text → Text × Arg
path_arg name = (name, record { location = codes "path"; name = []; encoding = [] })

abbrev get_item : List (Text × Arg) → Transport
get_item args = record {
  method = codes "GET";
  url_template = codes "https://api.example.com/items/{id}";
  auth = none;
  args = args;
}

abbrev template : Text → List (Text × Arg) → Template
template name args = record {
  schema_name = codes "kei.tool-definition/v1";
  name = name;
  description = codes "Reads an item.";
  parameters = schema (codes "object") (codes "id" ∷ []) (codes "id" ∷ []) (some false);
  permission = codes "items.read";
  category = [];
  service = [];
  version = [];
  tags = [];
  binding = some (record {
    connector_id = codes "c1";
    delegated_context = [];
    transport = some (get_item args);
  });
}

abbrev entry : Template → Fields → RawTemplate
entry t tree = record { decoded = some t; tree = object tree }

abbrev items_get : Template
items_get = template (codes "items.get") (path_arg (codes "id") ∷ [])

abbrev plain_tree : Fields
plain_tree =
    field (codes "name") (text (codes "items.get"))
      (field (codes "token_ref") (text (codes "{token}")) end)

abbrev received : List RawTemplate
received = entry items_get plain_tree ∷ []

received_parses : parse (some received) ≡ ok (items_get ∷ [])
unfolding checking find_secrets
received_parses = refl

same_name : parse (some (entry items_get plain_tree ∷ received)) ≡ err (duplicate_name ∷ [])
unfolding checking find_secrets
same_name = refl

no_argument :
    parse (some (entry (template (codes "items.get") []) plain_tree ∷ []))
    ≡ err (unbound_placeholder (codes "id") ∷ [])
unfolding checking find_secrets
no_argument = refl

-- A token anywhere in the entry, and a literal under a key named for a secret.
secrets :
    (find_secrets (object (field (codes "note") (text (codes "use ghp_0123456789abcdef0123")) end))
      ≡ secret_value (codes "use ghp_0123456789abcdef0123") ∷ [])
    × (find_secrets (object (field (codes "api-key") (text (codes "abc")) end))
        ≡ literal_value (codes "api-key") ∷ [])
unfolding checking find_secrets
secrets = (refl, refl)

parse_iff_example :
    (parse (some received) ≡ ok (items_get ∷ []))
    ↔ ((received ≢ []) × Accepted received (items_get ∷ []) × IsDistinct (names (items_get ∷ [])))
parse_iff_example = parse_iff received (items_get ∷ [])
