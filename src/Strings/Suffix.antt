-- ===== src/Strings/Suffix.antt =====
-- `TrimSuffix`, and membership of bytes.
use kei_connector_contracts.Prelude.{
  ℕ, ◌≡◌, refl, ◌↔◌, true, false, none, [], ◌∷◌, ◌++◌, reverse, arith, Text, In,
}
use kei_connector_contracts.Strings.{
  has_prefix, has_suffix, cut_prefix, cut_suffix, trim_suffix, contains, contains_any,
}
use kei_connector_contracts.Strings.Laws.{cut_prefix-append}
use mathlib.Core.List.{reverse-append, reverse-reverse}

pub trim_suffix-append : (s t : Text) → trim_suffix (s ++ t) t ≡ s
unfolding trim_suffix cut_suffix
trim_suffix-append s t =
    rw (reverse-append s t) (rw (cut_prefix-append (reverse t) (reverse s)) (reverse-reverse s))

pub cut_prefix-none : (s p : Text) → has_prefix s p ≡ false → cut_prefix s p ≡ none
unfolding has_prefix cut_prefix
cut_prefix-none s [] h = cc
cut_prefix-none [] (c ∷ p) h = refl
cut_prefix-none (x ∷ s) (c ∷ p) h = ground (arith, cut_prefix-none s p)

pub trim_suffix_none : (s t : Text) → has_suffix s t ≡ false → trim_suffix s t ≡ s
unfolding has_suffix trim_suffix cut_suffix
trim_suffix_none s t h = rw (cut_prefix-none (reverse s) (reverse t) h)

pub contains_iff : (s : Text) (c : ℕ) → (contains s c ≡ true) ↔ In c s
unfolding contains
contains_iff [] c = (λ h. cc, λ m. absurd m)
contains_iff (x ∷ s) c = let (to, from) = contains_iff s c in (λ h. ground arith, λ m. ground arith)

pub contains_any_none : (s cs : Text) (c : ℕ) → contains_any s cs ≡ false → In c s → In c cs → ⊥
unfolding contains_any
contains_any_none [] cs c h m n = m
contains_any_none (x ∷ s) cs c h m n =
    ground (arith, contains_any_none s cs c, (contains_iff cs c).1 n)
