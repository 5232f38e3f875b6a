-- ===== src/Manifest/Tools.antt =====
-- manifest/manifest.go: canonical tools, and the hashes of a tool and of a manifest.
pub mod Canonical
pub mod Order
use kei_connector_contracts.Prelude.{
  ℕ, ◌+◌, Bool, ◌&&◌, ◌||◌, Option, none, some, List, [], ◌∷◌, ◌++◌, Text, codes, all, ltb, leb,
  if◌then◌else◌, length, Try, ok, err, ◌>>=◌,
}
use kei_connector_contracts.Strings.{text_lt}
use kei_connector_contracts.Sort.{sort}
use kei_connector_contracts.Net.Escape.{is_alnum, among}
use kei_connector_contracts.Contract.Catalog.{is_one_of}
use kei_connector_contracts.Manifest.Values.{
  Value, text, array, object, Items, nil, cons, Fields, end, field, get,
}
use kei_connector_contracts.Manifest.Numbers.{JcsError}
use kei_connector_contracts.Manifest.Jcs.{jcs}

-- A received tool: the number of its bytes, and the object that they decode to, `none` where they
-- do not decode to one.
pub record RawTool : Type 0 where
  pub size : ℕ
  pub decoded : Option Fields

pub record Tool : Type 0 where
  pub name : Text
  pub description : Text
  pub input_schema : Fields

pub data ManifestError : Type 0 where
  too_many_tools too_large duplicate_name : ManifestError
  not_an_object no_name invalid_name invalid_description no_schema invalid_schema : ManifestError
  not_serializable : JcsError → ManifestError

abbrev pub max_tools : ℕ
max_tools = 512

abbrev pub max_manifest_bytes : ℕ
max_manifest_bytes = 4194304

-- `^[A-Za-z0-9_.-]{1,128}$`
unfoldable pub name_pattern : Text → Bool
name_pattern s = all (λ c. is_alnum c || among c "_.-") s && leb 1 (length s) && leb (length s) 128

unfoldable pub tool_name : Fields → Try ManifestError Text
tool_name m = elim (get m (codes "name")) [
  | some (text name) ↦ if name_pattern name then ok name else err invalid_name
  | _ ↦ err no_name
]

unfoldable pub tool_description : Fields → Try ManifestError Text
tool_description m = elim (get m (codes "description")) [
  | none ↦ ok []
  | some (text d) ↦ ok d
  | _ ↦ err invalid_description
]

unfoldable pub tool_schema : Fields → Try ManifestError Fields
tool_schema m = elim (get m (codes "inputSchema")) [
  | none ↦ err no_schema
  | some (object fs) ↦ ok fs
  | _ ↦ err invalid_schema
]

unfoldable pub tool_of : Fields → Try ManifestError Tool
tool_of m = do
  name ← tool_name m
  description ← tool_description m
  schema ← tool_schema m
  ok (record { name = name; description = description; input_schema = schema })

-- `canonicalTool`
unfoldable pub canonical_tool : RawTool → Try ManifestError Tool
canonical_tool raw = elim raw.decoded [ none ↦ err not_an_object | some m ↦ tool_of m ]

unfoldable pub total_size : List RawTool → ℕ
total_size [] = 0
total_size (t ∷ ts) = t.size + total_size ts

-- The loop over the tools, after the names that were seen.
unfoldable pub canonicalize_from : List Text → List RawTool → Try ManifestError (List Tool)
canonicalize_from seen [] = ok []
canonicalize_from seen (raw ∷ raws) = canonical_tool raw >>= λ t.
    if is_one_of seen t.name
    then err duplicate_name
    else (canonicalize_from (t.name ∷ seen) raws >>= λ ts. ok (t ∷ ts))

-- `Canonicalize`
unfoldable pub canonicalize : List RawTool → Try ManifestError (List Tool)
canonicalize raws =
    if ltb max_tools (length raws)
    then err too_many_tools
    else if ltb max_manifest_bytes (total_size raws)
    then err too_large
    else canonicalize_from [] raws

-- `Tool.canonicalObject`
unfoldable pub canonical_object : Tool → Value
canonical_object t = object (
    field (codes "name") (text t.name) (
      field (codes "description") (text t.description)
        (field (codes "inputSchema") (object t.input_schema) end)))

unfoldable pub objects : List Tool → Items
objects [] = nil
objects (t ∷ ts) = cons (canonical_object t) (objects ts)

unfoldable pub name_less : Tool → Tool → Bool
name_less s t = text_lt s.name t.name

abbrev pub serialized : Try JcsError Text → Try ManifestError Text
serialized (ok s) = ok s
serialized (err e) = err (not_serializable e)

-- The hashes, for the SHA-256 digest in hexadecimal digits.
module _ (digest : Text → Text) where
  -- `hashValue`
  unfoldable pub hash_value : Value → Try ManifestError Text
  hash_value v = serialized (jcs v) >>= λ s. ok (codes "sha256:" ++ digest s)

  -- `ToolHash`
  unfoldable pub tool_hash : RawTool → Try ManifestError Text
  tool_hash raw = canonical_tool raw >>= λ t. hash_value (canonical_object t)

  -- `Hash`
  unfoldable pub hash : List RawTool → Try ManifestError Text
  hash raws = canonicalize raws >>= λ ts. hash_value (array (objects (sort name_less ts)))
