-- ===== src/Policy/Typed.antt =====
-- policy/typed.go: the structured forms of patterns and their validators.
pub mod RoundTrip
use kei_connector_contracts.Prelude.{
  ℕ, zero, suc, ◌+◌, ◌-◌, ◌*◌, ◌≤◌, ◌<◌, String, ◌≡◌, refl, sym, ap, ap₂, subst, ◌∙◌, ◌≢◌, ◌↔◌, ◌⊎◌,
  inl, inr, Bool, true, false, not, ◌&&◌, ◌||◌, Option, none, some, List, [], ◌∷◌, ◌++◌, map,
  reverse, arith, Text, codes, ==_iff, ==_refl, ◌==◌, any, all, keep, find, ltb, leb, eqb,
  if◌then◌else◌, eqb_iff, Bool-cases, Option-cases, &&-eq-true, All, In, All_at, length, take, drop,
  length-append, In-append, In-keep, keep-In, any_iff, any_none, all_at, find_sound, find_complete,
  ℤ, pos, negsuc, int_lt, int_eq, Try, ok, err, ◌>>=◌,
}
use kei_connector_contracts.Policy.Parse.{
  ParseError, parse_principal, parse_target, is_listed, target_schemes, autogroups,
}

pub record TypedTarget : Type 0 where
  pub kind : Text
  pub value : Text
  pub caps : List Text

pub record TypedPrincipal : Type 0 where
  pub kind : Text
  pub value : Text

pub data TypedError : Type 0 where
  any_takes_nothing : TypedError
  unknown_kind empty_kind_value caps_need_connector : Text → TypedError
  malformed_capability duplicate_capability : Text → TypedError
  not_standing_source not_grant_principal : Text → TypedError
  unknown_autogroup_name : Text → TypedError

unfoldable pub is_alnum : ℕ → Bool
is_alnum c = (leb b'A' c && leb c b'Z') || (leb b'a' c && leb c b'z') || (leb b'0' c && leb c b'9')

-- A byte of `[A-Za-z0-9._:/-]`.
unfoldable pub is_cap_byte : ℕ → Bool
is_cap_byte c = is_alnum c || any (eqb c) (codes "._:/-")

-- `^[A-Za-z0-9][A-Za-z0-9._:/-]{0,254}$`
unfoldable pub cap_pattern : Text → Bool
cap_pattern [] = false
cap_pattern (c ∷ s) = is_alnum c && all is_cap_byte s && leb (length s) 254

-- The loop over the capabilities, with the set of those seen.
unfoldable pub validate_caps : List Text → List Text → Option TypedError
validate_caps seen [] = none
validate_caps seen (c ∷ cs) =
    let rest = validate_caps (c ∷ seen) cs in
    if not (cap_pattern c)
    then some (malformed_capability c)
    else if is_listed seen c
    then some (duplicate_capability c)
    else rest

-- `TypedTarget.Validate`; `none` is a nil error.
unfoldable pub validate_target : TypedTarget → Option TypedError
validate_target t =
    if t.kind == codes "any"
    then (if not (t.value == []) || ltb 0 (length t.caps) then some any_takes_nothing else none)
    else if not (is_listed target_schemes t.kind)
    then some (unknown_kind t.kind)
    else if t.value == []
    then some (empty_kind_value t.kind)
    else if ltb 0 (length t.caps) && not (t.kind == codes "connector")
    then some (caps_need_connector t.kind)
    else validate_caps [] t.caps

unfoldable pub target_pattern : TypedTarget → Text
target_pattern t = if t.kind == codes "any" then codes "*" else t.kind ++ b':' ∷ t.value

unfoldable pub target_from_pattern : Text → Try ParseError TypedTarget
target_from_pattern pattern = do
  t ← parse_target pattern
  ok (record { kind = t.kind; value = t.value; caps = [] })

unfoldable pub validate_value : TypedPrincipal → Option TypedError
validate_value p =
    if p.value == []
    then some (empty_kind_value p.kind)
    else if p.kind == codes "autogroup" && not (is_listed autogroups p.value)
    then some (unknown_autogroup_name p.value)
    else none

unfoldable validate_policy : TypedPrincipal → Option TypedError
validate_policy p =
    if is_listed (codes "group" ∷ codes "autogroup" ∷ []) p.kind
    then validate_value p
    else some (not_standing_source p.kind)

abbrev pub grant_kinds : List Text
grant_kinds = codes "group" ∷ codes "autogroup" ∷ codes "user" ∷ codes "email" ∷ codes "agent" ∷ []

unfoldable pub validate_grant : TypedPrincipal → Option TypedError
validate_grant p =
    if is_listed grant_kinds p.kind then validate_value p else some (not_grant_principal p.kind)

unfoldable pub principal_pattern : TypedPrincipal → Text
principal_pattern p = if p.kind == codes "any" then codes "*" else p.kind ++ b':' ∷ p.value

unfoldable pub principal_from_pattern : Text → Try ParseError TypedPrincipal
principal_from_pattern pattern = do
  p ← parse_principal pattern
  ok (record { kind = p.kind; value = p.value })
