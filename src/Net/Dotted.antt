-- ===== src/Net/Dotted.antt =====
-- net.ParseIP of dotted quads.
use kei_connector_contracts.Prelude.{
  ℕ, ◌≡◌, refl, sym, ap, ap₂, subst, ◌∙◌, ◌≢◌, inl, inr, true, false, some, [], ◌∷◌, ◌++◌, map,
  arith, Text, codes, all, Bool-cases, In, In-append, all_at,
}
use kei_connector_contracts.Strings.{split, contains, has_suffix, lower, to_lower, trim_suffix}
use kei_connector_contracts.Strings.Laws.{has_suffix_iff}
use kei_connector_contracts.Strings.Suffix.{trim_suffix_none}
use kei_connector_contracts.Net.Escape.{is_digit}
use kei_connector_contracts.Net.Ip.{v4_prefix, v4_field, v4_bytes, first_mark, parse_ip}
use mathlib.Core.List.{map-append}

abbrev pub dotted : Text → Text → Text → Text → Text
dotted a b c d = a ++ (b'.' ∷ (b ++ (b'.' ∷ (c ++ (b'.' ∷ d)))))

-- A decimal field and its value.
abbrev pub IsField : Text → ℕ → Type 0
IsField s n = v4_field s ≡ some n

field_digits : (s : Text) (n : ℕ) → IsField s n → all is_digit s ≡ true
unfolding v4_field
field_digits s n h = ground arith

field-ne-nil : (s : Text) (n : ℕ) → IsField s n → s ≢ []
unfolding v4_field
field-ne-nil [] n h e = ground arith
field-ne-nil (c ∷ s) n h e = ground arith

digits_no_dot : (s : Text) → all is_digit s ≡ true → contains s b'.' ≡ false
unfolding all contains is_digit
digits_no_dot [] h = refl
digits_no_dot (c ∷ s) h = ground (arith, digits_no_dot s)

split_none : (s : Text) (c : ℕ) → contains s c ≡ false → split s c ≡ s ∷ []
unfolding split contains
split_none [] c h = refl
split_none (x ∷ s) c h = ground (arith, split_none s c)

split-append : (s t : Text) (c : ℕ) → contains s c ≡ false → split (s ++ (c ∷ t)) c ≡ s ∷ split t c
unfolding split contains
split-append [] t c h = ground arith
split-append (x ∷ s) t c h = ground (arith, split-append s t c)

first_mark-append : (s t : Text) → all is_digit s ≡ true → first_mark (s ++ (b'.' ∷ t)) ≡ b'.'
unfolding all first_mark is_digit
first_mark-append [] t h = refl
first_mark-append (c ∷ s) t h = ground (arith, first_mark-append s t)

lower_digits : (s : Text) → all is_digit s ≡ true → map lower s ≡ s
unfolding all is_digit lower
lower_digits [] h = refl
lower_digits (c ∷ s) h = ground (arith, lower_digits s)

nil_of_append : (x d : Text) → x ++ d ≡ [] → d ≡ []
nil_of_append [] d e = e
nil_of_append (y ∷ x) d e = cc

-- Whether a text ends in a dot.
abbrev NoFinalDot : Text → Type 0
NoFinalDot s = (gap : Text) → s ≡ gap ++ codes "." → ⊥

digits-NoFinalDot : (d : Text) → all is_digit d ≡ true → NoFinalDot d
unfolding is_digit
digits-NoFinalDot d h gap e =
    let i : In b'.' d =
      subst (In b'.') (sym e) ((In-append b'.' gap (codes ".")).1 (inr (inl refl))) in
    let digit = all_at is_digit b'.' d h i in cc

append-NoFinalDot : (x d : Text) → d ≢ [] → NoFinalDot d → NoFinalDot (x ++ d)
append-NoFinalDot [] d n h gap e = h gap e
append-NoFinalDot (y ∷ x) d n h [] e = n (nil_of_append x d (ground arith))
append-NoFinalDot (y ∷ x) d n h (g ∷ gap) e = append-NoFinalDot x d n h gap (ground arith)

-- A dot and a text behind a text.
joined-NoFinalDot : (x d : Text) → d ≢ [] → NoFinalDot d → NoFinalDot (x ++ (b'.' ∷ d))
joined-NoFinalDot x d n h =
    append-NoFinalDot x (b'.' ∷ d) (λ e. cc) (append-NoFinalDot (b'.' ∷ []) d n h)

joined-ne-nil : (x d : Text) → x ++ (b'.' ∷ d) ≢ []
joined-ne-nil [] d e = ground arith
joined-ne-nil (y ∷ x) d e = ground arith

trim_dot : (s : Text) → NoFinalDot s → trim_suffix s (codes ".") ≡ s
trim_dot s n = elim (Bool-cases (has_suffix s (codes "."))) [
  | inl e ↦ let (gap, f) = (has_suffix_iff s (codes ".")).0 e in absurd (n gap f)
  | inr e ↦ trim_suffix_none s (codes ".") e
]

lower_joined :
    (x d : Text)
    → all is_digit x ≡ true
    → map lower d ≡ d
    → map lower (x ++ (b'.' ∷ d)) ≡ x ++ (b'.' ∷ d)
unfolding lower
lower_joined x d h e =
    map-append lower x (b'.' ∷ d) ∙ ap₂ (λ u v. u ++ (b'.' ∷ v)) (lower_digits x h) e

module _ (a b c d : Text) {i j k l : ℕ} (fa : IsField a i) (fb : IsField b j) (fc : IsField c k)
    (fd : IsField d l) where
  split-dotted : split (dotted a b c d) b'.' ≡ a ∷ b ∷ c ∷ d ∷ []
  split-dotted =
      split-append a _ b'.' (digits_no_dot a (field_digits a i fa))
      ∙ ap (λ t. a ∷ t)
          (split-append b _ b'.' (digits_no_dot b (field_digits b j fb))
            ∙ ap (λ t. b ∷ t)
                (split-append c d b'.' (digits_no_dot c (field_digits c k fc))
                  ∙ ap (λ t. c ∷ t) (split_none d b'.' (digits_no_dot d (field_digits d l fd)))))

  dotted_bytes : v4_bytes (a ∷ b ∷ c ∷ d ∷ []) ≡ some (i ∷ j ∷ k ∷ l ∷ [])
  unfolding v4_bytes
  dotted_bytes = ground arith

  -- A dotted quad of decimal fields is the IPv4 address of their values.
  pub parse_dotted : parse_ip (dotted a b c d) ≡ some (v4_prefix ++ (i ∷ j ∷ k ∷ l ∷ []))
  unfolding parse_ip
  parse_dotted =
      rw (first_mark-append a (b ++ (b'.' ∷ (c ++ (b'.' ∷ d)))) (field_digits a i fa))
        (rw (split-dotted, dotted_bytes))

  -- Case folding and the trimming of a final dot leave it alone.
  pub dotted_host : trim_suffix (to_lower (dotted a b c d)) (codes ".") ≡ dotted a b c d
  unfolding to_lower
  dotted_host =
      let da = field_digits a i fa in
      let db = field_digits b j fb in
      let dc = field_digits c k fc in
      let dd = field_digits d l fd in
      let lowered =
        lower_joined a _ da (lower_joined b _ db (lower_joined c d dc (lower_digits d dd))) in
      let ends = digits-NoFinalDot d dd in
      ap (λ t. trim_suffix t (codes ".")) lowered
      ∙ trim_dot (dotted a b c d) (
          joined-NoFinalDot a _ (joined-ne-nil b _) (
            joined-NoFinalDot b _ (joined-ne-nil c _)
              (joined-NoFinalDot c d (field-ne-nil d l fd) ends)))
