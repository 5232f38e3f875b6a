-- ===== src/Policy/Targets.antt =====
-- policy/decide.go: which targets a pattern matches.
pub mod Shell
pub mod Matched
pub mod Connectors
use kei_connector_contracts.Prelude.{
  Bool, true, false, not, ◌&&◌, ◌||◌, Option, none, some, List, [], ◌∷◌, Text, codes, ◌==◌, ltb,
  eqb, if◌then◌else◌, length,
}
use kei_connector_contracts.Strings.{cut, cut_prefix, has_prefix, has_suffix, fields, split}
use kei_connector_contracts.Policy.Principals.{scheme_wildcard}

-- The token loop of `shellMatches`. A last pattern token that ends in a slash is a prefix.
unfoldable pub tokens_match : List Text → List Text → Bool
tokens_match [] ts = true
tokens_match (p ∷ ps) [] = false
tokens_match (p ∷ []) (t ∷ ts) = if has_suffix p (codes "/") then has_prefix t p else t == p
tokens_match (p ∷ q ∷ ps) (t ∷ ts) = t == p && tokens_match (q ∷ ps) ts

unfoldable pub shell_matches : Text → Text → Bool
shell_matches pattern target =
    let pattern_tokens = fields pattern in
    let target_tokens = fields target in
    if eqb (length pattern_tokens) 0
    then false
    else if ltb (length target_tokens) (length pattern_tokens)
    then false
    else tokens_match pattern_tokens target_tokens

-- The segment loop of `connectorMatches`, and the comparison of the lengths after it.
unfoldable pub segments_match : List Text → List Text → Bool
segments_match [] [] = true
segments_match [] (t ∷ ts) = false
segments_match (s ∷ ss) [] = s == codes "*"
segments_match (s ∷ ss) (t ∷ ts) = if s == codes "*" then true else t == s && segments_match ss ts

unfoldable pub connector_matches : Text → Text → Bool
connector_matches pattern target =
    if target == [] then false else segments_match (split pattern b'.') (split target b'.')

-- The scheme wildcard of a rule target, against the request target.
unfoldable pub wildcard_matches : Option Text → Option (Text × Text) → Bool
wildcard_matches (some scheme) (some (req_scheme, req_value)) =
    req_scheme == scheme && not (req_value == [])
wildcard_matches (some scheme) none = false
wildcard_matches none req = false

abbrev matches_rest : (Text → Text → Bool) → Text → Option Text → Bool
matches_rest test value none = false
matches_rest test value (some req_value) = test value req_value

unfoldable pub target_matches : Text → Text → Bool
target_matches rule req =
    if rule == req || rule == codes "*"
    then true
    else if wildcard_matches (scheme_wildcard rule) (cut req b':')
    then true
    else elim (cut_prefix rule (codes "shell:")) [
      | some value ↦ matches_rest shell_matches value (cut_prefix req (codes "shell:"))
      | none ↦ elim (cut_prefix rule (codes "connector:")) [
        | some value ↦ matches_rest connector_matches value (cut_prefix req (codes "connector:"))
        | none ↦ false
      ]
    ]
