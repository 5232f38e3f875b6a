-- ===== src/CallTemplate/Validate.antt =====
-- calltemplate/calltemplate.go: the validation of templates. A template's errors are all reported.
pub mod Laws
use kei_connector_contracts.Prelude.{
  ℕ, Bool, true, false, not, ◌&&◌, ◌||◌, Option, none, some, List, [], ◌∷◌, ◌++◌, map, reverse,
  Text, codes, ◌==◌, all, leb, eqb, if◌then◌else◌, Try, ok, err,
}
use kei_connector_contracts.Net.Escape.{is_digit}
use kei_connector_contracts.Contract.Catalog.{is_one_of, entry_of}
use kei_connector_contracts.CallTemplate.Secrets.{find_secrets}
use kei_connector_contracts.CallTemplate.Types.{
  Auth, Arg, Transport, Binding, Parameters, absent, named, schema, undecodable, Template,
  RawTemplate, TemplateError, not_an_array, no_templates, unknown_field, duplicate_name, bad_schema,
  bad_name, no_description, no_permission, no_connector, no_parameters, bad_parameter_name,
  bad_parameters, not_an_object, not_closed, required_not_defined, bad_method, no_url,
  bad_placement, no_auth_name, bad_location, bad_encoding, unbound_placeholder, holds_secret,
}

-- `if b { add(e) }`
abbrev pub when : Bool → TemplateError → List TemplateError
when true e = e ∷ []
when false e = []

-- The errors of a loop.
unfoldable pub each : {A : Type 0} → (A → List TemplateError) → List A → List TemplateError
each f [] = []
each f (x ∷ xs) = f x ++ each f xs

abbrev is_small : ℕ → Bool
is_small c = leb b'a' c && leb c b'z'

abbrev name_byte : ℕ → Bool
name_byte c = is_small c || is_digit c || eqb c b'_'

-- `^[a-z0-9_]+(\.[a-z0-9_]+)*$`, after a name byte or not.
unfoldable pub dotted_name : Bool → Text → Bool
dotted_name inside [] = inside
dotted_name inside (c ∷ s) = dotted_name (name_byte c) s && (name_byte c || (inside && eqb c b'.'))

unfoldable pub name_pattern : Text → Bool
name_pattern s = dotted_name false s

-- `^[a-z][a-z0-9_]*$`
unfoldable pub param_name_pattern : Text → Bool
param_name_pattern [] = false
param_name_pattern (c ∷ s) = is_small c && all name_byte s

abbrev pub methods : List Text
methods = map codes ("GET" ∷ "POST" ∷ "PUT" ∷ "PATCH" ∷ "DELETE" ∷ [])

abbrev pub arg_locations : List Text
arg_locations = map codes ("path" ∷ "query" ∷ "body" ∷ "header" ∷ [])

abbrev pub placements : List Text
placements = map codes ("header" ∷ "query" ∷ "none" ∷ [])

abbrev pub encodings : List Text
encodings = codes "base64" ∷ []

-- The names between braces, from inside one (its bytes so far, the last one first) or outside.
unfoldable pub placeholders_from : Option Text → Text → List Text
placeholders_from o [] = []
placeholders_from none (c ∷ s) = placeholders_from (if eqb c b'{' then some [] else none) s
placeholders_from (some name) (c ∷ s) =
    let outside = placeholders_from none s in
    let again = placeholders_from (some []) s in
    let more = placeholders_from (some (c ∷ name)) s in
    if eqb c b'{'
    then again
    else if eqb c b'}'
    then (if name == [] then outside else reverse name ∷ outside)
    else more

-- The matches of `\{([^{}]+)\}`.
unfoldable pub placeholders : Text → List Text
placeholders s = placeholders_from none s

-- `validateParameters`
unfoldable pub validate_parameters : Parameters → List TemplateError
validate_parameters absent = no_parameters ∷ []
validate_parameters undecodable = bad_parameters ∷ []
validate_parameters (named names) =
    each (λ n. when (not (param_name_pattern n)) bad_parameter_name) names
validate_parameters (schema kind properties required additional) =
    when (not (kind == codes "object")) not_an_object
    ++ (when (elim additional [ none ↦ true | some b ↦ b ]) not_closed
        ++ each (λ r. when (not (is_one_of properties r)) (required_not_defined r)) required)

unfoldable pub validate_auth : Option Auth → List TemplateError
validate_auth none = []
validate_auth (some a) =
    when (not (a.placement == []) && not (is_one_of placements a.placement)) bad_placement
    ++ when (not (a.placement == []) && not (a.placement == codes "none") && a.name == [])
        no_auth_name

unfoldable pub validate_arg : Text × Arg → List TemplateError
validate_arg (name, a) =
    when (not (is_one_of arg_locations a.location)) bad_location
    ++ when (not (a.encoding == []) && not (is_one_of encodings a.encoding)) bad_encoding

-- A placeholder is bound by an argument of the path.
unfoldable pub is_path_arg : List (Text × Arg) → Text → Bool
is_path_arg args name = elim (entry_of args name) [
  | none ↦ false
  | some a ↦ a.location == codes "path"
]

-- `validateTransport`
unfoldable pub validate_transport : Transport → List TemplateError
validate_transport way =
    when (not (is_one_of methods way.method)) bad_method
    ++ (when (way.url_template == []) no_url
        ++ (validate_auth way.auth
            ++ (each validate_arg way.args
                ++ each (λ p. when (not (is_path_arg way.args p)) (unbound_placeholder p))
                    (placeholders way.url_template))))

unfoldable pub validate_binding : Option Binding → List TemplateError
validate_binding none = []
validate_binding (some b) =
    when (b.connector_id == []) no_connector
    ++ elim b.transport [ none ↦ [] | some way ↦ validate_transport way ]

-- `validate`
unfoldable pub validate : Template → RawTemplate → List TemplateError
validate t raw =
    when (not (t.schema_name == codes "kei.tool-definition/v1")) bad_schema
    ++ (when (not (name_pattern t.name)) bad_name
        ++ (when (t.description == []) no_description
            ++ (when (t.permission == []) no_permission
                ++ (validate_parameters t.parameters
                    ++ (validate_binding t.binding ++ map holds_secret (find_secrets raw.tree))))))

-- The loop over the entries, after the names that were seen: its errors and its templates.
unfoldable pub parse_entries : List Text → List RawTemplate → List TemplateError × List Template
parse_entries seen [] = ([], [])
parse_entries seen (raw ∷ raws) = elim raw.decoded [
  | none ↦ let (errors, templates) = parse_entries seen raws in (unknown_field ∷ errors, templates)
  | some t ↦
      let (errors, templates) = parse_entries (t.name ∷ seen) raws in
      (validate t raw ++ (when (is_one_of seen t.name) duplicate_name ++ errors), t ∷ templates)
]

abbrev accepted : List TemplateError × List Template → Try (List TemplateError) (List Template)
accepted ([], ts) = ok ts
accepted (e ∷ es, ts) = err (e ∷ es)

-- `Parse`, of the entries of the array; `none` where the bytes are no array.
unfoldable pub parse : Option (List RawTemplate) → Try (List TemplateError) (List Template)
parse none = err (not_an_array ∷ [])
parse (some []) = err (no_templates ∷ [])
parse (some (raw ∷ raws)) = accepted (parse_entries [] (raw ∷ raws))
