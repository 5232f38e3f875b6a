-- ===== src/HarnessMatch/Glob/Segments.antt =====
-- harnessmatch/harnessmatch.go: `segmentMatch` against the meaning of a star.
use kei_connector_contracts.Prelude.{
  ◌+◌, ◌≡◌, refl, sym, ◌∙◌, ◌↔◌, inl, inr, true, List, [], ◌∷◌, ◌++◌, arith, Text, ==_iff,
  Option-cases, length, take, drop,
}
use mathlib.Core.List.{append_assoc}
use kei_connector_contracts.Strings.{split, cut_prefix, index}
use kei_connector_contracts.Strings.Laws.{
  cut_prefix-append, append_of_cut_prefix, has_suffix_iff, index_sound, index_leftmost, split_one,
  split-ne-nil,
}
use kei_connector_contracts.HarnessMatch.Glob.{middle_match, parts_match, segment_match}
use kei_connector_contracts.HarnessMatch.Glob.Fills.{FillsAfter, Fills}

-- More text before the first part does no harm.
FillsAfter-append :
    (g : Text) (ps : List Text) (s : Text) → FillsAfter ps s → FillsAfter ps (g ++ s)
FillsAfter-append g [] s h = tt
FillsAfter-append g (last ∷ []) s (gap, e) = (g ++ gap, rw (e, append_assoc))
FillsAfter-append g (part ∷ q ∷ rest) s (gap, (after, e, h)) =
    (g ++ gap, (after, rw (e, append_assoc), h))

middle_sound : (ps : List Text) (s : Text) → middle_match ps s ≡ true → FillsAfter ps s
unfolding middle_match
middle_sound [] s h = tt
middle_sound (last ∷ []) s h = (has_suffix_iff s last).0 h
middle_sound (part ∷ q ∷ rest) s h = elim (Option-cases (index s part)) [
  | inl e ↦ absurd (cc)
  | inr (i, e) ↦ (
    take i s,
    (
      drop (i + length part) s,
      index_sound s part i e,
      middle_sound (q ∷ rest) (drop (i + length part) s) (ground arith),
    ),
  )
]

middle_complete : (ps : List Text) (s : Text) → FillsAfter ps s → middle_match ps s ≡ true
unfolding middle_match
middle_complete [] s h = refl
middle_complete (last ∷ []) s h = (has_suffix_iff s last).1 h
middle_complete (part ∷ q ∷ rest) s (gap, (after, e, h)) =
    let (i, (g, found, left)) = index_leftmost gap part after in
    rw e (
      ground (
        arith,
        found,
        left,
        middle_complete (q ∷ rest) (g ++ after) (FillsAfter-append g (q ∷ rest) after h),
      ))

-- A segment matches a pattern exactly if it is the pattern with some text in place of each star.
pub segment_match_iff :
    (pattern seg : Text) → (segment_match pattern seg ≡ true) ↔ Fills (split pattern b'*') seg
unfolding segment_match parts_match
segment_match_iff pattern seg = go (split pattern b'*') refl
  where
    go :
        (ps : List Text)
        → split pattern b'*' ≡ ps
        → (parts_match ps pattern seg ≡ true) ↔ Fills ps seg
    go [] e = absurd (split-ne-nil pattern b'*' e)
    go (p ∷ []) e =
        let same = split_one pattern p b'*' e in
        (
          λ h. sym ((==_iff pattern seg).0 h) ∙ sym same,
          λ h. (==_iff pattern seg).1 (sym same ∙ sym h),
        )
    go (p ∷ q ∷ rest) e = (
      λ h. elim (Option-cases (cut_prefix seg p)) [
        | inl n ↦ absurd (cc)
        | inr (after, f) ↦ (
          after,
          append_of_cut_prefix seg p after f,
          middle_sound (q ∷ rest) after (ground arith),
        )
      ],
      λ (after, f, h).
          rw f (ground (arith, cut_prefix-append p after, middle_complete (q ∷ rest) after h)),
    )
