-- ===== src/Policy/Targets/Matched.antt =====
-- policy/decide.go: how a target pattern matches a target.
use kei_connector_contracts.Prelude.{
  ◌≡◌, refl, sym, ap, ◌∙◌, ◌⊎◌, inl, inr, true, ◌||◌, Option, none, some, List, [], ◌∷◌, ◌++◌,
  arith, Text, codes, ==_iff, ◌==◌, Bool-cases, Option-cases,
}
use kei_connector_contracts.Strings.{cut, cut_prefix, has_suffix, fields}
use kei_connector_contracts.Strings.Laws.{append_of_cut_prefix}
use kei_connector_contracts.Policy.Principals.{scheme_wildcard}
use kei_connector_contracts.Policy.Targets.{target_matches, wildcard_matches}
use kei_connector_contracts.Policy.Targets.Shell.{IsCommand, shell_matches_iff}
use mathlib.Core.List.{append_assoc}

abbrev pub shell_of : Text → Text
shell_of v = codes "shell:" ++ v

abbrev pub connector_of : Text → Text
connector_of v = codes "connector:" ++ v

-- How a pattern matches a target.
pub data Matched (a t : Text) : Type 0 where
  exact : a ≡ t → Matched a t
  any_target : a ≡ codes "*" → Matched a t
  wild :
      (scheme value : Text)
      → scheme_wildcard a ≡ some scheme
      → cut t b':' ≡ some (scheme, value)
      → Matched a t
  shell :
      (p v : Text) → a ≡ shell_of p → t ≡ shell_of v → IsCommand (fields p) (fields v) → Matched a t
  connector : (p v : Text) → a ≡ connector_of p → t ≡ connector_of v → Matched a t

wild_case :
    (s : Option Text) (c : Option (Text × Text))
    → wildcard_matches s c ≡ true
    → (scheme : Text) × (value : Text) × (s ≡ some scheme) × (c ≡ some (scheme, value))
unfolding wildcard_matches
wild_case (some s) (some (r, v)) h =
    (s, v, refl, ap (λ (x : Text). some (x, v)) ((==_iff r s).0 (ground arith)))
wild_case (some s) none h = cc
wild_case none c h = cc

pub matched_of : (a t : Text) → target_matches a t ≡ true → Matched a t
unfolding target_matches
matched_of a t h = elim (Bool-cases (a == t || a == codes "*")) [
  | inl e ↦ elim (Bool-cases (a == t)) [
    | inl s ↦ exact ((==_iff a t).0 s)
    | inr n ↦ any_target ((==_iff a (codes "*")).0 (ground arith))
  ]
  | inr n ↦ elim (Bool-cases (wildcard_matches (scheme_wildcard a) (cut t b':'))) [
    | inl w ↦ let (s, v, e, f) = wild_case (scheme_wildcard a) (cut t b':') w in wild s v e f
    | inr m ↦ elim (Option-cases (cut_prefix a (codes "shell:"))) [
      | inr (p, e) ↦ elim (Option-cases (cut_prefix t (codes "shell:"))) [
        | inl f ↦ absurd (ground arith)
        | inr (v, f) ↦
            shell p v (append_of_cut_prefix a (codes "shell:") p e)
              (append_of_cut_prefix t (codes "shell:") v f)
              ((shell_matches_iff p v).0 (ground arith))
      ]
      | inl e ↦ elim (Option-cases (cut_prefix a (codes "connector:"))) [
        | inl f ↦ absurd (ground arith)
        | inr (p, f) ↦ elim (Option-cases (cut_prefix t (codes "connector:"))) [
          | inl g ↦ absurd (ground arith)
          | inr (v, g) ↦
              connector p v (append_of_cut_prefix a (codes "connector:") p f)
                (append_of_cut_prefix t (codes "connector:") v g)
        ]
      ]
    ]
  ]
]

-- The last token ends in a slash, so that a command's token may go on.
abbrev pub Trails : List Text → Type 0
Trails ps =
    (leading : List Text) × (last : Text) × (ps ≡ leading ++ last ∷ [])
    × (has_suffix last (codes "/") ≡ true)

abbrev pub Begins : List Text → List Text → Type 0
Begins ps ts = (rest : List Text) × (ts ≡ ps ++ rest)

pub Begins-of : (ps ts : List Text) → IsCommand ps ts → Begins ps ts ⊎ Trails ps
Begins-of ps ts (leading, (last, (token, (rest, e, f, inr (y, more))))) = inr (leading, last, e, y)
Begins-of ps ts (leading, (last, (token, (rest, e, f, inl s)))) = inl (
  rest,
  f
      ∙ ap (λ (x : Text). leading ++ x ∷ rest) s
      ∙ sym (append_assoc leading (last ∷ []) rest)
      ∙ ap (λ (x : List Text). x ++ rest) (sym e),
)
