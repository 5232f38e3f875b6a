-- ===== src/Contract/Targets/Paths.antt =====
-- contract/http_api.go: which paths are relative and safe.
use kei_connector_contracts.Prelude.{
  ◌≡◌, ◌≢◌, ◌↔◌, inl, inr, true, false, none, some, List, [], ◌∷◌, arith, Text, codes, ==_iff,
  Option-cases, All, first_error-eq-none,
}
use kei_connector_contracts.Strings.{has_prefix, contains_any, split}
use kei_connector_contracts.Net.Escape.{in_segment, unescape}
use kei_connector_contracts.Contract.Targets.{
  check_part, reads_as_path, forbidden_in_path, validate_relative_path,
}

-- A part of a path that decodes, to a text without separators that is no dot segment.
abbrev pub IsSafePart : Text → Type 0
IsSafePart part =
    (decoded : Text) × (unescape in_segment part ≡ some decoded)
    × (contains_any decoded (codes "/\\") ≡ false)
    × (decoded ≢ codes "..")
    × (decoded ≢ codes ".")

check_part_iff : (part : Text) → (check_part part ≡ none) ↔ IsSafePart part
unfolding check_part
check_part_iff part = elim (Option-cases (unescape in_segment part)) [
  | inl e ↦ (λ h. absurd (ground arith), λ (d, f, c, up, here). absurd (ground arith))
  | inr (d, e) ↦ (
    λ h. (
      d,
      e,
      ground arith,
      λ f. ground (arith, (==_iff d (codes "..")).1 f),
      λ f. ground (arith, (==_iff d (codes ".")).1 f),
    ),
    λ (d', f, c, up, here). ground (
      arith,
      ==_iff d (codes ".."),
      ==_iff d (codes "."),
      ==_iff d' (codes ".."),
      ==_iff d' (codes "."),
    ),
  )
]

-- A path that is absolute and names no host, without query, fragment, brackets, backslashes and
-- line breaks, and each of whose parts is safe.
pub record IsSafePath (path : Text) : Type 0 where
  pub absolute : has_prefix path (codes "/") ≡ true
  pub no_host : has_prefix path (codes "//") ≡ false
  pub plain : contains_any path forbidden_in_path ≡ false
  pub parts : All IsSafePart (split path b'/')
  pub reads : reads_as_path path ≡ true

All-map :
    {A : Type 0} (P Q : A → Type 0) → ((a : A) → P a → Q a) → (xs : List A) → All P xs → All Q xs
All-map P Q f [] h = tt
All-map P Q f (x ∷ xs) h = (f x h.0, All-map P Q f xs h.1)

pub validate_relative_path_iff :
    (path : Text) → (validate_relative_path path ≡ none) ↔ IsSafePath path
unfolding validate_relative_path has_prefix
validate_relative_path_iff path =
    let (to, from) = first_error-eq-none check_part (split path b'/') in
    (
      λ h. record {
        absolute = ground arith;
        no_host = ground arith;
        plain = ground arith;
        parts = All-map _ _ (λ p. (check_part_iff p).0) (split path b'/') (to (ground arith));
        reads = ground arith;
      },
      λ s.
          let parts = from (All-map _ _ (λ p. (check_part_iff p).1) (split path b'/') s.parts) in
          ground (arith, ==_iff path []),
    )
