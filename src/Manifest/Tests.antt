-- ===== src/Manifest/Tests.antt =====
-- Tool manifests at concrete inputs.
use kei_connector_contracts.Prelude.{
  ◌≡◌, refl, ◌↔◌, true, false, some, List, [], ◌∷◌, Text, codes, ◌==◌, any, all, keep, find, pos,
  negsuc, int_lt, int_eq, ok, err, first_error,
}
use kei_connector_contracts.Strings.{
  has_prefix, cut_prefix, trim_prefix, has_suffix, cut_suffix, trim_suffix, cut, contains,
  contains_any, split, is_space, fields_from, fields, last_index, index, lower, equal_fold, text_lt,
  to_lower, upper, to_upper, contains_text, trim_left_by, trim_right_by, trim_space,
}
use kei_connector_contracts.Sort.{insert, sort}
use kei_connector_contracts.Net.Escape.{
  is_digit, is_letter, is_alnum, is_hex, unhex, among, should_escape_mark, should_escape,
  escape_allowed, plain_allowed, unescape, hex_digit, escape, valid_encoded_byte,
}
use kei_connector_contracts.Contract.Catalog.{
  is_one_of, entry_of, capabilities_for, defined_capability, defined_providers, valid_provider,
  valid_status, valid_action, account_models_for, identifier, valid_id, valid_ids,
  contains_secret_material,
}
use kei_connector_contracts.Manifest.Values.{get}
use kei_connector_contracts.Manifest.Numbers.{
  itoa_from, itoa, scientific, format_jcs_number, jcs_number,
}
use kei_connector_contracts.Manifest.Text16.{units, is_two, is_three, is_four, utf16_of, jcs_less}
use kei_connector_contracts.Manifest.Jcs.{
  jcs, jcs_items, jcs_fields, escape_byte, escape_text, jcs_string, join_items, key_less, member,
  bracket, write_members,
}
use kei_connector_contracts.Manifest.Tools.{
  name_pattern, tool_name, tool_description, tool_schema, tool_of, canonical_tool, total_size,
  canonicalize_from, canonicalize, canonical_object, objects, name_less, hash_value, tool_hash,
  hash,
}
use kei_connector_contracts.Sort.Reorder.{swap}
use kei_connector_contracts.Manifest.Values.{
  number, text, object, array, nil, cons, Fields, end, field, finite,
}
use kei_connector_contracts.Manifest.Tools.{RawTool, Tool, duplicate_name, no_schema}
use kei_connector_contracts.Manifest.Tools.Canonical.{IsManifest, canonicalize_iff}
use kei_connector_contracts.Manifest.Tools.Order.{hash-Reordered}

checking : Unit {0}
unfolding ◌==◌ any all keep find first_error int_lt int_eq has_prefix cut_prefix trim_prefix
    has_suffix cut_suffix trim_suffix cut contains contains_any split is_space fields_from fields
    last_index index lower equal_fold text_lt to_lower upper to_upper contains_text trim_left_by
    trim_right_by trim_space insert sort is_digit is_letter is_alnum is_hex unhex among
    should_escape_mark should_escape escape_allowed plain_allowed unescape hex_digit escape
    valid_encoded_byte is_one_of entry_of capabilities_for defined_capability defined_providers
    valid_provider valid_status valid_action account_models_for identifier valid_id valid_ids
    contains_secret_material get itoa_from itoa scientific format_jcs_number jcs_number units is_two
    is_three is_four utf16_of jcs_less escape_byte escape_text jcs_string join_items key_less member
    bracket write_members name_pattern tool_name tool_description tool_schema tool_of canonical_tool
    total_size canonicalize_from canonicalize canonical_object objects name_less hash_value
    tool_hash hash jcs jcs_items jcs_fields
checking = tt

abbrev schema_fields : Fields
schema_fields = field (codes "type") (text (codes "object")) end

abbrev raw : Text → RawTool
raw name = record {
  size = 60;
  decoded =
      some
        (field (codes "name") (text name) (field (codes "inputSchema") (object schema_fields) end));
}

abbrev tool : Text → Tool
tool name = record { name = name; description = []; input_schema = schema_fields }

abbrev received : List RawTool
received = raw (codes "send") ∷ raw (codes "list") ∷ []

abbrev tools : List Tool
tools = tool (codes "send") ∷ tool (codes "list") ∷ []

received_tools : canonicalize received ≡ ok tools
unfolding checking
received_tools = refl

twice : canonicalize (raw (codes "send") ∷ raw (codes "send") ∷ []) ≡ err duplicate_name
unfolding checking
twice = refl

schemaless :
    canonicalize
      (record { size = 20; decoded = some (field (codes "name") (text (codes "a")) end) } ∷ [])
    ≡ err no_schema
unfolding checking
schemaless = refl

-- The tools in the order of their names, their members in the order of their keys.
serialized_tools :
    jcs (array (objects (sort name_less tools)))
    ≡ ok (
        codes
          "[{\"description\":\"\",\"inputSchema\":{\"type\":\"object\"},\"name\":\"list\"},{\"description\":\"\",\"inputSchema\":{\"type\":\"object\"},\"name\":\"send\"}]")
unfolding checking
serialized_tools = refl

-- The numbers 1e21, 0.000001, 1e-7, 12.5 and 1200.
numbers :
    jcs (
      array (
        cons (number (finite false (codes "1") (pos 22))) (
          cons (number (finite false (codes "1") (negsuc 4))) (
            cons (number (finite false (codes "1") (negsuc 5))) (
              cons
                (number (finite true (codes "125") (pos 2)))
                (cons (number (finite false (codes "12") (pos 4))) nil))))))
    ≡ ok (codes "[1e+21,0.000001,1e-7,-12.5,1200]")
unfolding checking
numbers = refl

-- A key beyond the basic plane comes before U+FFFD, as its surrogates do.
surrogates : jcs_less (240 ∷ 144 ∷ 128 ∷ 128 ∷ []) (239 ∷ 191 ∷ 189 ∷ []) ≡ true
unfolding checking
surrogates = refl

canonicalize_iff_example : (canonicalize received ≡ ok tools) ↔ IsManifest received tools
canonicalize_iff_example = canonicalize_iff received tools

hash-Reordered_example :
    hash (λ t. t) received ≡ hash (λ t. t) (raw (codes "list") ∷ raw (codes "send") ∷ [])
hash-Reordered_example =
    hash-Reordered (λ t. t) received (raw (codes "list") ∷ raw (codes "send") ∷ []) tools
      (swap (raw (codes "send")) (raw (codes "list")) []) received_tools
