-- ===== src/Policy/Render/Overlap.antt =====
-- policy/render.go: whether two target patterns may match one target.
pub mod Common
use kei_connector_contracts.Prelude.{
  Bool, true, false, not, ◌&&◌, ◌||◌, Option, none, some, List, [], ◌∷◌, Text, codes, ◌==◌, any,
  eqb, if◌then◌else◌, length,
}
use kei_connector_contracts.Strings.{cut, fields, split, contains}
use kei_connector_contracts.Policy.Principals.{scheme_wildcard}

-- `slices.Equal` of the first `min` tokens of two lists.
unfoldable pub prefix_equal : List Text → List Text → Bool
prefix_equal [] ps = true
prefix_equal (d ∷ ds) [] = true
prefix_equal (d ∷ ds) (p ∷ ps) = d == p && prefix_equal ds ps

-- An argument list that is empty or begins with a star.
unfoldable pub is_open : List Text → Bool
is_open [] = true
is_open (t ∷ ts) = t == codes "*"

unfoldable pub shells_overlap : List Text → List Text → Bool
shells_overlap da pa = if is_open da || is_open pa then true else prefix_equal da pa

-- `a[0] == "**" || a[0] == "*" && len(a) == 1 || a[0] == "~"`
unfoldable pub covers : List Text → Bool
covers [] = false
covers (s ∷ ss) = s == codes "**" || (s == codes "*" && eqb (length ss) 0) || s == codes "~"

unfoldable pub globs_overlap : List Text → List Text → Bool
globs_overlap [] [] = true
globs_overlap [] (y ∷ ys) = false
globs_overlap (x ∷ xs) [] = false
globs_overlap (x ∷ xs) (y ∷ ys) =
    let rest = globs_overlap xs ys in
    if covers (x ∷ xs) || covers (y ∷ ys)
    then true
    else if not (x == y) && not (contains x b'*') && not (contains y b'*')
    then false
    else rest

-- Whether a scheme wildcard covers the scheme of the other target.
unfoldable pub wildcard_covers : Option Text → Option (Text × Text) → Bool
wildcard_covers (some s) (some (scheme, _)) = scheme == s
wildcard_covers (some s) none = false
wildcard_covers none t = false

-- The comparison of two values of one scheme.
unfoldable pub values_overlap : Text → Text → Text → Bool
values_overlap scheme a b =
    if scheme == codes "shell"
    then shells_overlap (fields a) (fields b)
    else if scheme == codes "path"
    then globs_overlap (split a b'/') (split b b'/')
    else false

unfoldable pub same_scheme_overlap : Option (Text × Text) → Option (Text × Text) → Bool
same_scheme_overlap (some (a_scheme, a_value)) (some (b_scheme, b_value)) =
    if a_scheme == b_scheme then values_overlap a_scheme a_value b_value else false
same_scheme_overlap (some a) none = false
same_scheme_overlap none b = false

unfoldable pub targets_overlap : Text → Text → Bool
targets_overlap a b =
    if a == b || a == codes "*" || b == codes "*"
    then true
    else if wildcard_covers (scheme_wildcard a) (cut b b':')
    then true
    else if wildcard_covers (scheme_wildcard b) (cut a b':')
    then true
    else same_scheme_overlap (cut a b':') (cut b b':')

unfoldable pub overlaps_any : Text → List Text → Bool
overlaps_any target others = any (targets_overlap target) others
