-- ===== src/HarnessMatch/Glob.antt =====
-- harnessmatch/harnessmatch.go: globs over path segments, and stars within a segment.
pub mod Fills
pub mod Segments
pub mod Paths
use kei_connector_contracts.Prelude.{
  ℕ, zero, suc, ◌+◌, ◌-◌, ◌*◌, ◌≤◌, ◌<◌, String, ◌≡◌, refl, sym, ap, ap₂, subst, ◌∙◌, ◌≢◌, ◌↔◌, ◌⊎◌,
  inl, inr, Bool, true, false, not, ◌&&◌, ◌||◌, Option, none, some, List, [], ◌∷◌, ◌++◌, map,
  reverse, arith, Text, codes, ==_iff, ==_refl, ◌==◌, any, all, keep, find, ltb, leb, eqb,
  if◌then◌else◌, eqb_iff, Bool-cases, Option-cases, &&-eq-true, All, In, All_at, length, take, drop,
  length-append, In-append, In-keep, keep-In, any_iff, any_none, all_at, find_sound, find_complete,
  ℤ, pos, negsuc, int_lt, int_eq, Try, ok, err, ◌>>=◌,
}
use kei_connector_contracts.Strings.{cut_prefix, has_suffix, index, split}

-- The loop over the middle parts, each at its leftmost occurrence, and the test of the last part.
unfoldable pub middle_match : List Text → Text → Bool
middle_match [] seg = true
middle_match (last ∷ []) seg = has_suffix seg last
middle_match (part ∷ q ∷ rest) seg = elim (index seg part) [
  | none ↦ false
  | some i ↦ middle_match (q ∷ rest) (drop (i + length part) seg)
]

unfoldable pub parts_match : List Text → Text → Text → Bool
parts_match [] pattern seg = pattern == seg
parts_match (p ∷ []) pattern seg = pattern == seg
parts_match (p ∷ q ∷ rest) pattern seg = elim (cut_prefix seg p) [
  | none ↦ false
  | some after ↦ middle_match (q ∷ rest) after
]

unfoldable pub segment_match : Text → Text → Bool
segment_match pattern seg = parts_match (split pattern b'*') pattern seg

-- The loop over `segs[i:]`.
unfoldable pub any_suffix : (List Text → Bool) → List Text → Bool
any_suffix test [] = test []
any_suffix test (s ∷ segs) = test (s ∷ segs) || any_suffix test segs

unfoldable pub one_segment : Text → (List Text → Bool) → List Text → Bool
one_segment p test [] = false
one_segment p test (s ∷ segs) = if not (segment_match p s) then false else test segs

unfoldable pub is_empty : List Text → Bool
is_empty [] = true
is_empty (s ∷ segs) = false

unfoldable pub glob_match : List Text → List Text → Bool
glob_match [] segs = is_empty segs
glob_match (p ∷ ps) segs =
    let test = glob_match ps in
    if p == codes "**" then any_suffix test segs else one_segment p test segs
