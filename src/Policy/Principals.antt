-- ===== src/Policy/Principals.antt =====
-- policy/policy.go: which principals a pattern matches.
use kei_connector_contracts.Prelude.{
  ℕ, zero, suc, Bool, true, false, not, ◌&&◌, ◌||◌, Option, none, some, List, [], ◌∷◌, ◌++◌, Text,
  codes, ◌==◌, any, if◌then◌else◌, take, drop,
}
use kei_connector_contracts.Strings.{
  cut_prefix, cut_suffix, trim_prefix, contains, contains_any, last_index, equal_fold,
}

-- The scheme of a "<scheme>:*" pattern. `matchesSchemeWildcard` and `targetMatches` write the same
-- test out that `schemeWildcard` names.
unfoldable pub scheme_wildcard : Text → Option Text
scheme_wildcard t = elim (cut_suffix t (codes ":*")) [
  | none ↦ none
  | some s ↦ if s == [] || contains_any s (codes ":*") then none else some s
]

-- A value that is found and not empty.
abbrev pub nonempty : Option Text → Bool
nonempty none = false
nonempty (some value) = not (value == [])

unfoldable pub matches_scheme_wildcard : Text → Text → Bool
matches_scheme_wildcard input pattern = elim (scheme_wildcard pattern) [
  | none ↦ false
  | some scheme ↦ nonempty (cut_prefix input (scheme ++ codes ":"))
]

-- The part of `matchesEmailDomain` that follows the checks of the domain.
unfoldable pub email_in_domain : Text → Text → Option ℕ → Bool
email_in_domain input domain none = false
email_in_domain input domain (some zero) = false
email_in_domain input domain (some (suc at)) =
    let local = trim_prefix (take (suc at) input) (codes "email:") in
    not (local == []) && not (contains local b':') && equal_fold (drop (suc (suc at)) input) domain

unfoldable pub matches_email_domain : Text → Text → Bool
matches_email_domain input pattern =
    elim (cut_prefix (trim_prefix pattern (codes "email:")) (codes "*@")) [
      | none ↦ false
      | some domain ↦
          if domain == [] || contains_any domain (codes "@*")
          then false
          else email_in_domain input domain (last_index input b'@')
    ]

unfoldable pub matches_group : Text → Text → Bool
matches_group pattern g = (codes "group:" ++ g) == pattern || g == pattern

-- One round of the loop over the user id and the email.
unfoldable pub matches_input : Text → Text → Bool
matches_input pattern inp =
    if inp == []
    then false
    else inp == pattern
      || (codes "email:" ++ inp) == pattern
      || matches_scheme_wildcard inp pattern
      || matches_email_domain inp pattern

unfoldable pub match_principal : Text → Text → Text → List Text → Bool
match_principal pattern user email groups =
    if pattern == codes "*"
    then true
    else if any (matches_group pattern) groups
    then true
    else if not (user == []) && (codes "user:" ++ user) == pattern
    then true
    else any (matches_input pattern) (user ∷ email ∷ [])
