-- ===== src/Policy/Render/Overlap/Common.antt =====
-- policy/render.go: target patterns that match a common target.
use kei_connector_contracts.Prelude.{
  ◌≡◌, refl, sym, ap, subst, ◌∙◌, ◌≢◌, ◌⊎◌, inl, inr, true, Option, none, some, List, [], ◌∷◌, ◌++◌,
  reverse, arith, Text, codes, ==_iff, ==_refl, ◌==◌, Option-cases,
}
use kei_connector_contracts.Strings.{cut, cut_prefix, cut_suffix, fields}
use kei_connector_contracts.Strings.Laws.{append_of_cut_prefix, cut_prefix-append}
use kei_connector_contracts.Policy.Principals.{scheme_wildcard}
use kei_connector_contracts.Policy.Targets.{target_matches}
use kei_connector_contracts.Policy.Targets.Shell.{IsCommand}
use kei_connector_contracts.Policy.Render.Overlap.{
  prefix_equal, shells_overlap, wildcard_covers, values_overlap, same_scheme_overlap,
  targets_overlap,
}
use mathlib.Core.List.{reverse-append, reverse-reverse, append-nil}
use mathlib.Core.Option
use kei_connector_contracts.Policy.Targets.Matched.{
  shell_of, connector_of, Matched, exact, any_target, wild, shell, connector, matched_of, Trails,
  Begins, Begins-of,
}

-- The overlaps that the code finds.
overlap_equal : (a b : Text) → a ≡ b → targets_overlap a b ≡ true
unfolding targets_overlap
overlap_equal a b e = let s = (==_iff a b).1 e in ground arith

overlap_any : (a b : Text) → (a ≡ codes "*") ⊎ (b ≡ codes "*") → targets_overlap a b ≡ true
unfolding targets_overlap
overlap_any a b (inl e) = let s = (==_iff a (codes "*")).1 e in ground arith
overlap_any a b (inr e) = let s = (==_iff b (codes "*")).1 e in ground arith

overlap_wild :
    (a b s v : Text)
    → ((scheme_wildcard a ≡ some s) × (cut b b':' ≡ some (s, v)))
      ⊎ ((scheme_wildcard b ≡ some s) × (cut a b':' ≡ some (s, v)))
    → targets_overlap a b ≡ true
unfolding targets_overlap wildcard_covers
overlap_wild a b s v (inl (e, f)) = let r = ==_refl s in ground arith
overlap_wild a b s v (inr (e, f)) = let r = ==_refl s in ground arith

overlap_shell :
    (p q : Text)
    → prefix_equal (fields p) (fields q) ≡ true
    → targets_overlap (shell_of p) (shell_of q) ≡ true
unfolding targets_overlap same_scheme_overlap values_overlap shells_overlap cut ◌==◌
overlap_shell p q h = ground arith

-- Two beginnings of one list.
prefix_of_both : (ps qs r s : List Text) → ps ++ r ≡ qs ++ s → prefix_equal ps qs ≡ true
unfolding prefix_equal
prefix_of_both [] qs r s h = refl
prefix_of_both (p ∷ ps) [] r s h = refl
prefix_of_both (p ∷ ps) (q ∷ qs) r s h =
    let same : p ≡ q = cc in
    let rest : ps ++ r ≡ qs ++ s = cc in
    let e = (==_iff p q).1 same in let f = prefix_of_both ps qs r s rest in ground arith

-- The patterns whose overlap the code does not find: two connector patterns, and a shell pattern
-- whose last token ends in a slash.
abbrev pub IsConnector : Text → Type 0
IsConnector a = (v : Text) × (a ≡ connector_of v)

abbrev pub IsOpenEnded : Text → Type 0
IsOpenEnded a = (v : Text) × (a ≡ shell_of v) × Trails (fields v)

abbrev pub IsUncompared : Text → Text → Type 0
IsUncompared a b = (IsConnector a × IsConnector b) ⊎ IsOpenEnded a ⊎ IsOpenEnded b

shells_common :
    (p q : Text) (ts : List Text)
    → Begins (fields p) ts ⊎ Trails (fields p)
    → Begins (fields q) ts ⊎ Trails (fields q)
    → (targets_overlap (shell_of p) (shell_of q) ≡ true) ⊎ IsUncompared (shell_of p) (shell_of q)
shells_common p q ts (inr t) k = inr (inr (inl (p, refl, t)))
shells_common p q ts (inl b) (inr t) = inr (inr (inr (q, refl, t)))
shells_common p q ts (inl (r, e)) (inl (s, f)) =
    inl (overlap_shell p q (prefix_of_both (fields p) (fields q) r s (sym e ∙ f)))

whole : (ts : List Text) → Begins ts ts
whole ts = ([], sym (append-nil ts))

-- What a common target of two patterns says.
abbrev Found : Text → Text → Type 0
Found a b = (targets_overlap a b ≡ true) ⊎ IsUncompared a b

cut_shell : (v : Text) → cut (shell_of v) b':' ≡ some (codes "shell", v)
unfolding cut
cut_shell v = refl

cut_connector : (v : Text) → cut (connector_of v) b':' ≡ some (codes "connector", v)
unfolding cut
cut_connector v = refl

wildcard_text : (a s : Text) → scheme_wildcard a ≡ some s → a ≡ s ++ codes ":*"
unfolding scheme_wildcard cut_suffix
wildcard_text a s h = elim (Option-cases (cut_prefix (reverse a) (reverse (codes ":*")))) [
  | inl e ↦ absurd (ground arith)
  | inr (r, e) ↦
      let same : reverse r ≡ s = ground arith in
      let back = append_of_cut_prefix (reverse a) (reverse (codes ":*")) r e in
      sym (reverse-reverse a)
      ∙ ap reverse back
      ∙ reverse-append (reverse (codes ":*")) r
      ∙ ap (λ (x : Text). x ++ codes ":*") same
]

same_scheme :
    (b t s v w : Text) (scheme : Text)
    → cut t b':' ≡ some (s, v)
    → cut t b':' ≡ some (scheme, w)
    → s ≡ scheme
same_scheme b t s v w scheme e f =
    ap (λ (o : Option (Text × Text)). elim o [ none ↦ [] | some x ↦ x.0 ]) (sym e ∙ f)

-- A wildcard overlaps each pattern that matches a target of its scheme, on either side.
wild_overlap :
    (a b t s v : Text)
    → scheme_wildcard a ≡ some s
    → cut t b':' ≡ some (s, v)
    → Matched b t
    → (targets_overlap a b ≡ true) × (targets_overlap b a ≡ true)
wild_overlap a b t s v e f (exact g) =
    let h = ap (λ (x : Text). cut x b':') g ∙ f in
    (overlap_wild a b s v (inl (e, h)), overlap_wild b a s v (inr (e, h)))
wild_overlap a b t s v e f (any_target g) = (overlap_any a b (inr g), overlap_any b a (inl g))
wild_overlap a b t s v e f (wild r w g h) =
    let same =
      wildcard_text a s e
      ∙ ap (λ (x : Text). x ++ codes ":*") (same_scheme b t s v w r f h)
      ∙ sym (wildcard_text b r g) in
    (overlap_equal a b same, overlap_equal b a (sym same))
wild_overlap a b t s v e f (shell p w g h c) =
    let k =
      same_scheme b t s v w (codes "shell") f (ap (λ (x : Text). cut x b':') h ∙ cut_shell w) in
    let d =
      ap (λ (x : Text). cut x b':') g ∙ cut_shell p ∙ ap (λ (x : Text). some (x, p)) (sym k) in
    (overlap_wild a b s p (inl (e, d)), overlap_wild b a s p (inr (e, d)))
wild_overlap a b t s v e f (connector p w g h) =
    let k =
      same_scheme b t s v w (codes "connector") f
        (ap (λ (x : Text). cut x b':') h ∙ cut_connector w) in
    let d =
      ap (λ (x : Text). cut x b':') g ∙ cut_connector p ∙ ap (λ (x : Text). some (x, p)) (sym k) in
    (overlap_wild a b s p (inl (e, d)), overlap_wild b a s p (inr (e, d)))

-- Shell and connector targets differ.
apart : (v w : Text) → shell_of v ≢ connector_of w
apart v w h = ground arith

shell_text : (v w : Text) → shell_of v ≡ shell_of w → v ≡ w
shell_text v w h =
    ap (λ (o : Option Text). Option.get_or o [])
      (sym (cut_prefix-append (codes "shell:") v)
        ∙ ap (λ (x : Text). cut_prefix x (codes "shell:")) h
        ∙ cut_prefix-append (codes "shell:") w)

shells-Found :
    (a b p q : Text) (ts : List Text)
    → a ≡ shell_of p
    → b ≡ shell_of q
    → Begins (fields p) ts ⊎ Trails (fields p)
    → Begins (fields q) ts ⊎ Trails (fields q)
    → Found a b
shells-Found a b p q ts e f h k = rw (e, f) (shells_common p q ts h k)

command_of :
    (p v : Text)
    → IsCommand (fields p) (fields v)
    → Begins (fields p) (fields v) ⊎ Trails (fields p)
command_of p v c = Begins-of (fields p) (fields v) c

common_of : (a b t : Text) → Matched a t → Matched b t → Found a b
common_of a b t (any_target e) m = inl (overlap_any a b (inl e))
common_of a b t (wild s v e f) m = inl (wild_overlap a b t s v e f m).0
common_of a b t (exact e) (exact f) = inl (overlap_equal a b (e ∙ sym f))
common_of a b t m (any_target f) = inl (overlap_any a b (inr f))
common_of a b t m (wild s v e f) = inl (wild_overlap b a t s v e f m).1
common_of a b t (exact e) (shell q w f g c) =
    shells-Found a b w q (fields w) (e ∙ g) f (inl (whole (fields w))) (command_of q w c)
common_of a b t (exact e) (connector q w f g) = inr (inl ((w, e ∙ g), (q, f)))
common_of a b t (shell p v e f c) (exact g) =
    shells-Found a b p v (fields v) e (g ∙ f) (command_of p v c) (inl (whole (fields v)))
common_of a b t (shell p v e f c) (shell q w g h d) =
    let same = shell_text v w (sym f ∙ h) in
    shells-Found a b p q (fields v) e g (command_of p v c) (
      subst (λ (x : Text). Begins (fields q) (fields x) ⊎ Trails (fields q)) (sym same)
        (command_of q w d))
common_of a b t (shell p v e f c) (connector q w g h) = absurd (apart v w (sym f ∙ h))
common_of a b t (connector p v e f) (exact g) = inr (inl ((p, e), (v, g ∙ f)))
common_of a b t (connector p v e f) (shell q w g h c) = absurd (apart w v (sym h ∙ f))
common_of a b t (connector p v e f) (connector q w g h) = inr (inl ((p, e), (q, g)))

-- Patterns that match a common target overlap for the code, unless both are connector patterns, or
-- one is a shell pattern whose last token ends in a slash.
pub targets_overlap_common :
    (a b t : Text)
    → target_matches a t ≡ true
    → target_matches b t ≡ true
    → (targets_overlap a b ≡ true) ⊎ IsUncompared a b
targets_overlap_common a b t h k = common_of a b t (matched_of a t h) (matched_of b t k)
