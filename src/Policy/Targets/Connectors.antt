-- ===== src/Policy/Targets/Connectors.antt =====
-- policy/decide.go: which targets a connector pattern matches.
use kei_connector_contracts.Prelude.{
  ◌≡◌, refl, ap, ◌≢◌, ◌↔◌, ◌⊎◌, inl, inr, true, List, [], ◌∷◌, ◌++◌, arith, Text, codes, ==_iff,
  ==_refl, ◌==◌, Bool-cases,
}
use kei_connector_contracts.Strings.{split}
use kei_connector_contracts.Policy.Targets.{segments_match, connector_matches}

-- The segments are the pattern's, or they begin with those before a star of the pattern.
abbrev pub IsInstance : List Text → List Text → Type 0
IsInstance ps segs =
    (segs ≡ ps)
    ⊎ ((leading : List Text) × ((ignored : List Text) × ((rest : List Text) × (ps
              ≡ leading ++ codes "*" ∷ ignored)
            × (segs ≡ leading ++ rest))))

segments_sound : (ps segs : List Text) → segments_match ps segs ≡ true → IsInstance ps segs
unfolding segments_match
segments_sound [] [] h = inl refl
segments_sound [] (t ∷ ts) h = absurd (cc)
segments_sound (s ∷ ss) [] h =
    inr ([], (ss, ([], ap (λ x. x ∷ ss) ((==_iff s (codes "*")).0 h), refl)))
segments_sound (s ∷ ss) (t ∷ ts) h = elim (Bool-cases (s == codes "*")) [
  | inl y ↦ inr ([], (ss, (t ∷ ts, ap (λ x. x ∷ ss) ((==_iff s (codes "*")).0 y), refl)))
  | inr n ↦
      let same : t ≡ s = (==_iff t s).0 (ground arith) in
      elim (segments_sound ss ts (ground arith)) [
        | inl e ↦ inl (rw (same, e) refl)
        | inr (leading, (ignored, (rest, e, f))) ↦
            inr (s ∷ leading, (ignored, (rest, ap (λ u. s ∷ u) e, rw (same, f) refl)))
      ]
]

segments_self : (ps : List Text) → segments_match ps ps ≡ true
unfolding segments_match
segments_self [] = refl
segments_self (s ∷ ss) = ground (arith, ==_refl s, segments_self ss)

segments_star :
    (leading ignored rest : List Text)
    → segments_match (leading ++ codes "*" ∷ ignored) (leading ++ rest) ≡ true
unfolding segments_match
segments_star [] ignored [] = ==_refl (codes "*")
segments_star [] ignored (t ∷ ts) = ground (arith, ==_refl (codes "*"))
segments_star (s ∷ leading) ignored rest =
    ground (arith, ==_refl s, segments_star leading ignored rest)

-- A connector pattern matches exactly the targets that are not empty and whose segments are the
-- pattern's, or begin with those before one of its stars.
pub connector_matches_iff :
    (pattern target : Text)
    → (connector_matches pattern target ≡ true)
      ↔ ((target ≢ []) × IsInstance (split pattern b'.') (split target b'.'))
unfolding connector_matches
connector_matches_iff pattern target = (
  λ h. (
    λ n. ground (arith, (==_iff target []).1 n),
    segments_sound (split pattern b'.') (split target b'.') (ground arith),
  ),
  λ (named, i). let m = back i in ground (arith, ==_iff target []),
)
  where
    back :
        IsInstance (split pattern b'.') (split target b'.')
        → segments_match (split pattern b'.') (split target b'.') ≡ true
    back (inl e) = rw e (segments_self (split pattern b'.'))
    back (inr (leading, (ignored, (rest, e, f)))) = rw (e, f) (segments_star leading ignored rest)
