-- ===== src/Contract/Targets/Patterns.antt =====
-- contract/http_api.go: which paths a pattern covers.
use kei_connector_contracts.Prelude.{
  ◌≡◌, sym, ap, ◌∙◌, ◌↔◌, ◌⊎◌, inl, inr, true, [], ◌++◌, arith, Text, codes, ==_iff, ◌==◌,
  Bool-cases,
}
use kei_connector_contracts.Strings.{has_prefix, has_suffix, trim_suffix}
use kei_connector_contracts.Strings.Laws.{has_prefix_iff, has_suffix_iff}
use kei_connector_contracts.Strings.Suffix.{trim_suffix-append, trim_suffix_none}
use mathlib.Core.List.{append-nil}
use kei_connector_contracts.Contract.Targets.{path_matches}

-- A pattern covers the path that it spells, and, where it ends in a star, each path with its
-- prefix.
abbrev pub Covers : Text → Text → Type 0
Covers pattern path =
    (path ≡ pattern)
    ⊎ ((prefix : Text) × (rest : Text) × (pattern ≡ prefix ++ codes "*") × (path ≡ prefix ++ rest))

path_matches_sound : (pattern path : Text) → path_matches pattern path ≡ true → Covers pattern path
unfolding path_matches
path_matches_sound pattern path h = elim (Bool-cases (has_suffix pattern (codes "*"))) [
  | inl starred ↦
      let (prefix, e) = (has_suffix_iff pattern (codes "*")).0 starred in
      let trimmed : trim_suffix pattern (codes "*") ≡ prefix =
        ap (λ p. trim_suffix p (codes "*")) e ∙ trim_suffix-append prefix (codes "*") in
      let covered : has_prefix path prefix ≡ true = elim (Bool-cases (path == prefix)) [
        | inl same ↦
            (has_prefix_iff path prefix).1
              ([], (==_iff path prefix).0 same ∙ sym (append-nil prefix))
        | inr other ↦ ground arith
      ] in
      let (rest, f) = (has_prefix_iff path prefix).0 covered in inr (prefix, rest, e, f)
  | inr plain ↦
      let trimmed = trim_suffix_none pattern (codes "*") plain in
      inl ((==_iff path pattern).0 (ground arith))
]

star_covers :
    (pattern path prefix rest : Text)
    → pattern ≡ prefix ++ codes "*"
    → path ≡ prefix ++ rest
    → path_matches pattern path ≡ true
unfolding path_matches
star_covers pattern path prefix rest e f =
    let trimmed : trim_suffix pattern (codes "*") ≡ prefix =
      ap (λ p. trim_suffix p (codes "*")) e ∙ trim_suffix-append prefix (codes "*") in
    let starred = (has_suffix_iff pattern (codes "*")).1 (prefix, e) in
    let covered = (has_prefix_iff path prefix).1 (rest, f) in ground arith

path_matches_complete :
    (pattern path : Text) → Covers pattern path → path_matches pattern path ≡ true
unfolding path_matches
path_matches_complete pattern path (inr (prefix, rest, e, f)) =
    star_covers pattern path prefix rest e f
path_matches_complete pattern path (inl e) = elim (Bool-cases (has_suffix pattern (codes "*"))) [
  | inl starred ↦
      let (prefix, q) = (has_suffix_iff pattern (codes "*")).0 starred in
      star_covers pattern path prefix (codes "*") q (e ∙ q)
  | inr plain ↦
      let trimmed = trim_suffix_none pattern (codes "*") plain in
      ground (arith, (==_iff path pattern).1 e)
]

pub path_matches_iff :
    (pattern path : Text) → (path_matches pattern path ≡ true) ↔ Covers pattern path
path_matches_iff pattern path =
    (path_matches_sound pattern path, path_matches_complete pattern path)
