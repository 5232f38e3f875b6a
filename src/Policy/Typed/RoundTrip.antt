-- ===== src/Policy/Typed/RoundTrip.antt =====
-- policy/typed.go: patterns and their structured forms, there and back.
use kei_connector_contracts.Prelude.{
  ◌≡◌, refl, subst, inl, inr, Bool, true, false, not, ◌&&◌, none, List, [], ◌∷◌, ◌++◌, arith, Text,
  codes, ==_iff, ==_refl, ◌==◌, any, all, Option-cases, In, any_iff, all_at, ok,
}
use kei_connector_contracts.Strings.{contains, cut}
use kei_connector_contracts.Strings.Laws.{cut-append, append_of_cut}
use kei_connector_contracts.Policy.Parse.{
  parse_principal, parse_target, is_listed, target_schemes, principal_schemes, principal_of,
  target_of,
}
use kei_connector_contracts.Policy.Typed.{
  TypedTarget, TypedPrincipal, validate_target, target_pattern, target_from_pattern, validate_grant,
  validate_value, validate_caps, grant_kinds, principal_pattern, principal_from_pattern,
}

is_listed_In : (names : List Text) (name : Text) → is_listed names name ≡ true → In name names
unfolding is_listed
is_listed_In names name h =
    let (n, m, e) = (any_iff (λ k. k == name) names).0 h in
    subst (λ k. In k names) ((==_iff n name).0 e) m

-- A text with a colon is not the any pattern.
colon-ne-star : (k v : Text) → ((k ++ b':' ∷ v) == codes "*") ≡ false
unfolding ◌==◌
colon-ne-star [] v = refl
colon-ne-star (x ∷ []) v = ground arith
colon-ne-star (x ∷ y ∷ k) v = ground arith

-- A scheme that is written before a colon and is not the any kind.
abbrev is_plain : Text → Bool
is_plain k = not (contains k b':') && not (k == codes "any")

target_schemes-plain : all is_plain target_schemes ≡ true
unfolding all contains ◌==◌
target_schemes-plain = refl

abbrev is_plain_principal : Text → Bool
is_plain_principal k = is_listed principal_schemes k && is_plain k

grant_kinds-plain : all is_plain_principal grant_kinds ≡ true
unfolding all contains ◌==◌ is_listed any
grant_kinds-plain = refl

target_scheme :
    (k : Text)
    → is_listed target_schemes k ≡ true
    → (contains k b':' ≡ false) × ((k == codes "any") ≡ false)
target_scheme k h =
    ground (
      arith,
      all_at is_plain k target_schemes target_schemes-plain (is_listed_In target_schemes k h),
    )

grant_scheme :
    (k : Text)
    → is_listed grant_kinds k ≡ true
    → (is_listed principal_schemes k ≡ true)
      × (contains k b':' ≡ false)
      × ((k == codes "any") ≡ false)
grant_scheme k h = ground (
  arith,
  all_at is_plain_principal k grant_kinds grant_kinds-plain (is_listed_In grant_kinds k h),
)

-- A valid target is rendered as a pattern that is parsed to its kind and value.
pub parse-target_pattern :
    (t : TypedTarget)
    → validate_target t ≡ none
    → parse_target (target_pattern t) ≡ ok (record { kind = t.kind; value = t.value })
unfolding validate_target target_pattern parse_target target_of
parse-target_pattern t h = ground (
  arith,
  ==_iff t.kind (codes "any"),
  ==_iff t.value [],
  ==_refl (codes "*"),
  colon-ne-star t.kind t.value,
  target_scheme t.kind,
  cut-append t.kind t.value b':',
)

-- A target that is parsed from a pattern is valid, and is rendered as that pattern.
pub target_pattern-parse :
    (pattern : Text) (t : TypedTarget)
    → target_from_pattern pattern ≡ ok t
    → (target_pattern t ≡ pattern) × (validate_target t ≡ none)
unfolding target_from_pattern validate_target target_pattern parse_target target_of validate_caps
target_pattern-parse pattern t h = elim (Option-cases (cut pattern b':')) [
  | inl e ↦ ground (arith, ==_iff pattern (codes "*"), ==_refl (codes "any"), ==_refl [])
  | inr ((k, v), e) ↦ ground (
    arith,
    ==_iff pattern (codes "*"),
    ==_refl (codes "any"),
    ==_refl [],
    append_of_cut pattern k v b':' e,
    target_scheme k,
  )
]

-- A principal that an access grant may name is rendered as a pattern that is parsed to it.
pub parse-principal_pattern :
    (p : TypedPrincipal)
    → validate_grant p ≡ none
    → principal_from_pattern (principal_pattern p) ≡ ok p
unfolding validate_grant validate_value principal_from_pattern parse_principal principal_of
    principal_pattern
parse-principal_pattern p h = ground (
  arith,
  ==_iff p.value [],
  colon-ne-star p.kind p.value,
  grant_scheme p.kind,
  cut-append p.kind p.value b':',
)
