-- ===== src/Policy/Parse.antt =====
-- policy/policy.go: principal and target patterns, and their parsers.
use kei_connector_contracts.Prelude.{
  Bool, not, ◌&&◌, none, some, List, [], ◌∷◌, Text, codes, ◌==◌, any, if◌then◌else◌, Try, ok, err,
}
use kei_connector_contracts.Strings.{cut}

-- `Principal` and `Target` have the same fields, a kind and a value.
pub record Principal : Type 0 where
  pub kind : Text
  pub value : Text

pub record Target : Type 0 where
  pub kind : Text
  pub value : Text

-- The text that an error message quotes.
pub data ParseError : Type 0 where
  no_scheme unknown_scheme empty_value unknown_autogroup : Text → ParseError

-- The keys of `principalSchemes`; each is mapped to itself.
abbrev pub principal_schemes : List Text
principal_schemes =
    codes "user"
    ∷ codes "email"
    ∷ codes "group"
    ∷ codes "autogroup"
    ∷ codes "org"
    ∷ codes "agent"
    ∷ codes "harness"
    ∷ []

abbrev pub autogroups : List Text
autogroups = codes "member" ∷ codes "admin" ∷ []

abbrev pub target_schemes : List Text
target_schemes =
    codes "shell"
    ∷ codes "skill"
    ∷ codes "path"
    ∷ codes "capability"
    ∷ codes "connector"
    ∷ codes "tool"
    ∷ codes "mcp"
    ∷ []

unfoldable pub is_listed : List Text → Text → Bool
is_listed names name = any (λ n. n == name) names

unfoldable pub principal_of : Text → Text → Text → Try ParseError Principal
principal_of pattern scheme value =
    if not (is_listed principal_schemes scheme)
    then err (unknown_scheme scheme)
    else if value == []
    then err (empty_value pattern)
    else if scheme == codes "autogroup" && not (is_listed autogroups value)
    then err (unknown_autogroup value)
    else ok (record { kind = scheme; value = value })

unfoldable pub parse_principal : Text → Try ParseError Principal
parse_principal pattern =
    if pattern == codes "*"
    then ok (record { kind = codes "any"; value = [] })
    else elim (cut pattern b':') [
      | none ↦ ok (record { kind = codes "group"; value = pattern })
      | some (scheme, value) ↦ principal_of pattern scheme value
    ]

unfoldable pub target_of : Text → Text → Text → Try ParseError Target
target_of pattern scheme value =
    if not (is_listed target_schemes scheme)
    then err (unknown_scheme scheme)
    else if value == []
    then err (empty_value pattern)
    else ok (record { kind = scheme; value = value })

unfoldable pub parse_target : Text → Try ParseError Target
parse_target pattern =
    if pattern == codes "*"
    then ok (record { kind = codes "any"; value = [] })
    else elim (cut pattern b':') [
      | none ↦ err (no_scheme pattern)
      | some (scheme, value) ↦ target_of pattern scheme value
    ]
