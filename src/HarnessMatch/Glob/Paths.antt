-- ===== src/HarnessMatch/Glob/Paths.antt =====
-- harnessmatch/harnessmatch.go: `globMatch` against the meaning of "**".
use kei_connector_contracts.Prelude.{
  ◌≡◌, refl, ap, ◌≢◌, ◌↔◌, inl, inr, Bool, true, false, List, [], ◌∷◌, ◌++◌, arith, Text, codes,
  ==_iff, ◌==◌, Bool-cases,
}
use kei_connector_contracts.Strings.{split}
use kei_connector_contracts.HarnessMatch.Glob.{any_suffix, one_segment, is_empty, glob_match}
use kei_connector_contracts.HarnessMatch.Glob.Fills.{Fills}
use kei_connector_contracts.HarnessMatch.Glob.Segments.{segment_match_iff}

-- A path of segments that a glob describes: "**" stands for any number of segments, any other
-- pattern for one segment with its stars filled.
pub data Globs : List Text → List Text → Type 0 where
  end : Globs [] []
  deep :
      {p : Text} {ps segs : List Text} (skipped rest : List Text)
      → p ≡ codes "**"
      → segs ≡ skipped ++ rest
      → Globs ps rest
      → Globs (p ∷ ps) segs
  one :
      {p s : Text} {ps segs : List Text}
      → p ≢ codes "**"
      → Fills (split p b'*') s
      → Globs ps segs
      → Globs (p ∷ ps) (s ∷ segs)

any_suffix_sound :
    (test : List Text → Bool) (segs : List Text)
    → any_suffix test segs ≡ true
    → (skipped : List Text) × ((rest : List Text) × (segs ≡ skipped ++ rest) × (test rest ≡ true))
unfolding any_suffix
any_suffix_sound test [] h = ([], ([], refl, h))
any_suffix_sound test (s ∷ segs) h = elim (Bool-cases (test (s ∷ segs))) [
  | inl e ↦ ([], (s ∷ segs, refl, e))
  | inr n ↦
      let (skipped, (rest, e, t)) = any_suffix_sound test segs (ground arith) in
      (s ∷ skipped, (rest, ap (λ u. s ∷ u) e, t))
]

any_suffix_here :
    (test : List Text → Bool) (segs : List Text) → test segs ≡ true → any_suffix test segs ≡ true
unfolding any_suffix
any_suffix_here test [] h = h
any_suffix_here test (s ∷ segs) h = rw h

any_suffix_complete :
    (test : List Text → Bool) (skipped rest : List Text)
    → test rest ≡ true
    → any_suffix test (skipped ++ rest) ≡ true
unfolding any_suffix
any_suffix_complete test [] rest h = any_suffix_here test rest h
any_suffix_complete test (s ∷ skipped) rest h =
    ground (arith, any_suffix_complete test skipped rest h)

glob_sound : (ps segs : List Text) → glob_match ps segs ≡ true → Globs ps segs
unfolding glob_match one_segment is_empty
glob_sound [] [] h = end
glob_sound [] (s ∷ segs) h = absurd (cc)
glob_sound (p ∷ ps) segs h = elim (Bool-cases (p == codes "**")) [
  | inl e ↦
      let (skipped, (rest, f, t)) = any_suffix_sound (glob_match ps) segs (ground arith) in
      deep skipped rest ((==_iff p (codes "**")).0 e) f (glob_sound ps rest t)
  | inr n ↦ single segs (glob_sound ps) n (ground arith)
]
  where
    single :
        (segs : List Text)
        → ((rest : List Text) → glob_match ps rest ≡ true → Globs ps rest)
        → (p == codes "**") ≡ false
        → one_segment p (glob_match ps) segs ≡ true
        → Globs (p ∷ ps) segs
    single [] ih n k = absurd (cc)
    single (s ∷ rest) ih n k =
        one (λ e. ground (arith, ==_iff p (codes "**"))) ((segment_match_iff p s).0 (ground arith))
          (ih rest (ground arith))

glob_complete : {ps segs : List Text} → Globs ps segs → glob_match ps segs ≡ true
unfolding glob_match one_segment is_empty
glob_complete end = refl
glob_complete (deep {p} {ps} skipped rest e f g) = rw f (
    ground (
      arith,
      (==_iff p (codes "**")).1 e,
      any_suffix_complete (glob_match ps) skipped rest (glob_complete g),
    ))
glob_complete (one {p} {s} n f g) =
    ground (arith, ==_iff p (codes "**"), (segment_match_iff p s).1 f, glob_complete g)

-- The glob search answers true exactly on the paths that the glob describes.
pub glob_match_iff : (ps segs : List Text) → (glob_match ps segs ≡ true) ↔ Globs ps segs
glob_match_iff ps segs = (glob_sound ps segs, glob_complete)
