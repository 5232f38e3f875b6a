-- ===== src/Policy/Render/Laws.antt =====
-- policy/render.go: what is rendered, what is withheld and why.
use kei_connector_contracts.Prelude.{
  ◌+◌, ◌≡◌, refl, ap, ◌⊎◌, inl, inr, Bool, true, false, ◌&&◌, List, [], ◌∷◌, arith, Text, codes,
  ==_iff, ◌==◌, keep, Bool-cases, In, length, length-append, any_none,
}
use kei_connector_contracts.HarnessMatch.Kinds.{valid_kind}
use kei_connector_contracts.Policy.Decide.{Rule}
use kei_connector_contracts.Policy.Render.Overlap.{overlaps_any, targets_overlap}
use kei_connector_contracts.Policy.Targets.{target_matches}
use kei_connector_contracts.Policy.Render.Overlap.Common.{IsUncompared, targets_overlap_common}
use kei_connector_contracts.Policy.Render.{
  RenderEntry, Reader, reads, screen, render_candidates, render, with_deny,
}

-- A rule that no rendering of this reader shows.
abbrev pub IsHidden : Reader → Rule → Type 0
IsHidden who r = (r.enabled ≡ false) ⊎ (reads who r ≡ false)

module _ (who : Reader) where
  screen_candidate :
      (rules : List Rule) (r : Rule)
      → In r (screen who rules).candidates
      → In r rules × (r.enabled ≡ true) × (reads who r ≡ true)
  unfolding screen
  screen_candidate [] r m = absurd m
  screen_candidate (x ∷ xs) r m = ground (arith, screen_candidate xs r)

  screen_deny :
      (rules : List Rule) (d : Rule)
      → In d rules
      → d.effect ≡ codes "deny"
      → IsHidden who d
      → In d.target (screen who rules).withheld_deny_targets
  unfolding screen with_deny
  screen_deny [] d m e h = absurd m
  screen_deny (x ∷ xs) d m e h = ground (arith, screen_deny xs d, ==_iff x.effect (codes "deny"))

  screen_count :
      (rules : List Rule)
      → length (screen who rules).candidates + length (screen who rules).diagnostics
        ≡ length (keep (λ (r : Rule). r.enabled) rules)
  unfolding screen keep
  screen_count [] = omega arith
  screen_count (x ∷ xs) = ground (arith, screen_count xs)

-- The rule behind an entry; the target of a permit overlaps none of the denied targets.
abbrev pub ShownBy : List Text → List Rule → RenderEntry → Type 0
ShownBy denies rules e =
    (r : Rule) × In r rules
    × (e.rule_id ≡ r.id)
    × (e.target ≡ r.target)
    × (e.effect ≡ r.effect)
    × (r.effect ≡ codes "permit" → overlaps_any r.target denies ≡ false)

module _ (kind_ok : Bool) (denies : List Text) where
  render_entry :
      (rules : List Rule) (e : RenderEntry)
      → In e (render_candidates kind_ok denies rules).entries
      → (kind_ok ≡ true) × ShownBy denies rules e
  unfolding render_candidates
  render_entry [] e m = absurd m
  render_entry (x ∷ xs) e m = elim (Bool-cases kind_ok) [
    | inr k ↦ later (render_entry xs e (ground arith))
    | inl k ↦ elim (Bool-cases (x.effect == codes "permit" && overlaps_any x.target denies)) [
      | inl w ↦ later (render_entry xs e (ground arith))
      | inr n ↦ either k n (ground arith) (render_entry xs e)
    ]
  ]
    where
      later : (kind_ok ≡ true) × ShownBy denies xs e → (kind_ok ≡ true) × ShownBy denies (x ∷ xs) e
      later (k, (r, i, a, b, c, d)) = (k, (r, inr i, a, b, c, d))

      either :
          kind_ok ≡ true
          → (x.effect == codes "permit" && overlaps_any x.target denies) ≡ false
          → (e ≡ record { rule_id = x.id; target = x.target; effect = x.effect })
            ⊎ In e (render_candidates kind_ok denies xs).entries
          → (In e (render_candidates kind_ok denies xs).entries
              → (kind_ok ≡ true) × ShownBy denies xs e)
          → (kind_ok ≡ true) × ShownBy denies (x ∷ xs) e
      either k n (inr i) ih = later (ih i)
      either k n (inl s) ih = (
        k,
        (
          x,
          inl refl,
          ap (λ (y : RenderEntry). y.rule_id) s,
          ap (λ (y : RenderEntry). y.target) s,
          ap (λ (y : RenderEntry). y.effect) s,
          λ p. ground (arith, ==_iff x.effect (codes "permit")),
        ),
      )

  render_count :
      (rules : List Rule)
      → length (render_candidates kind_ok denies rules).entries
          + length (render_candidates kind_ok denies rules).diagnostics
        ≡ length rules
  unfolding render_candidates
  render_count [] = omega arith
  render_count (x ∷ xs) = ground (arith, render_count xs)

-- What stands behind a rendered entry.
abbrev pub IsFaithful : List Rule → Reader → Text → RenderEntry → Type 0
IsFaithful rules who kind e =
    (valid_kind kind ≡ true)
    × ((r : Rule) × In r rules
        × (r.enabled ≡ true)
        × (reads who r ≡ true)
        × (e.rule_id ≡ r.id)
        × (e.target ≡ r.target)
        × (e.effect ≡ r.effect)
        × ((d : Rule)
            → r.effect ≡ codes "permit"
            → In d rules
            → d.effect ≡ codes "deny"
            → IsHidden who d
            → (t : Text) → target_matches r.target t ≡ true
            → target_matches d.target t ≡ true
            → IsUncompared r.target d.target))

-- Patterns that the code does not take to overlap match no common target, unless it does not compare
-- them.
uncompared :
    (a b t : Text)
    → targets_overlap a b ≡ false
    → target_matches a t ≡ true
    → target_matches b t ≡ true
    → IsUncompared a b
uncompared a b t n h k = elim (targets_overlap_common a b t h k) [ inl e ↦ absurd (cc) | inr u ↦ u ]

-- A rendered entry shows an enabled rule that matches the reader, for a known harness kind. A permit
-- is shown only if no request target is matched both by it and by a deny that is not rendered, since
-- that is disabled or does not match the reader; excepted are two connector patterns, and patterns of
-- which one is a shell pattern whose last token ends in a slash.
pub render_sound :
    (rules : List Rule) (who : Reader) (kind : Text) (e : RenderEntry)
    → In e (render rules who kind).entries
    → IsFaithful rules who kind e
unfolding render overlaps_any
render_sound rules who kind e m =
    let s = screen who rules in
    let (known, (r, i, a, b, c, apart)) =
      render_entry (valid_kind kind) s.withheld_deny_targets s.candidates e m in
    let (listed, enabled, read) = screen_candidate who rules r i in
    (
      known,
      (
        r,
        listed,
        enabled,
        read,
        a,
        b,
        c,
        λ d p id ed hidden t h k.
            uncompared r.target d.target t
              (any_none (targets_overlap r.target) d.target s.withheld_deny_targets (apart p)
                (screen_deny who rules d id ed hidden))
              h k,
      ),
    )

-- Each enabled rule gives exactly one entry or one diagnostic.
pub render_complete :
    (rules : List Rule) (who : Reader) (kind : Text)
    → length (render rules who kind).entries + length (render rules who kind).diagnostics
      ≡ length (keep (λ (r : Rule). r.enabled) rules)
unfolding render
render_complete rules who kind =
    let s = screen who rules in
    omega (
      arith,
      screen_count who rules,
      render_count (valid_kind kind) s.withheld_deny_targets s.candidates,
      length-append s.diagnostics
          (render_candidates (valid_kind kind) s.withheld_deny_targets s.candidates).diagnostics,
    )
