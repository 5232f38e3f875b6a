-- ===== src/Strings/Laws.antt =====
-- What the string functions guarantee: how their results are put together again.
use kei_connector_contracts.Prelude.{
  ℕ, zero, suc, ◌+◌, ◌≤◌, ◌≡◌, refl, sym, ap, ap₂, ◌∙◌, ◌≢◌, ◌↔◌, inl, inr, true, false, some, List,
  [], ◌∷◌, ◌++◌, reverse, arith, Text, eqb, eqb_iff, Bool-cases, Option-cases, &&-eq-true, length,
  take, drop, length-append,
}
use mathlib.Core.List.{reverse-reverse, reverse-append, append_assoc}
use kei_connector_contracts.Strings.{
  prepend, cut, contains, cut_prefix, has_prefix, has_suffix, index, split,
}

pub cut_prefix-append : (p s : Text) → cut_prefix (p ++ s) p ≡ some s
unfolding cut_prefix
cut_prefix-append [] s = refl
cut_prefix-append (c ∷ p) s = ground (arith, cut_prefix-append p s)

pub append_of_cut_prefix : (s p r : Text) → cut_prefix s p ≡ some r → s ≡ p ++ r
unfolding cut_prefix
append_of_cut_prefix s [] r h = ground arith
append_of_cut_prefix [] (c ∷ p) r h = ground arith
append_of_cut_prefix (x ∷ s) (c ∷ p) r h = ground (arith, append_of_cut_prefix s p r)

-- A cut at the first separator gives back the two halves.
pub cut-append : (k v : Text) (c : ℕ) → contains k c ≡ false → cut (k ++ c ∷ v) c ≡ some (k, v)
unfolding cut contains
cut-append [] v c h = ground arith
cut-append (x ∷ k) v c h = ground (arith, cut-append k v c)

pub append_of_cut :
    (s k v : Text) (c : ℕ) → cut s c ≡ some (k, v) → (s ≡ k ++ c ∷ v) × (contains k c ≡ false)
unfolding cut contains
append_of_cut [] k v c h = cc
append_of_cut (x ∷ s) k v c h = elim (Bool-cases (eqb x c)) [
  | inl e ↦ ground arith
  | inr e ↦ elim (Option-cases (cut s c)) [
    | inl n ↦ ground arith
    | inr ((k', v'), n) ↦ ground (arith, append_of_cut s k' v' c n)
  ]
]

pub has_prefix_iff : (s p : Text) → (has_prefix s p ≡ true) ↔ ((r : Text) × (s ≡ p ++ r))
unfolding has_prefix
has_prefix_iff s p = (there s p, λ (r, e). rw e (back p r))
  where
    there : (s p : Text) → has_prefix s p ≡ true → (r : Text) × (s ≡ p ++ r)
    there s [] h = (s, refl)
    there [] (c ∷ p) h = absurd (cc)
    there (x ∷ s) (c ∷ p) h =
        let (a, b) = &&-eq-true (eqb x c) (has_prefix s p) h in
        let (r, e) = there s p b in (r, ap₂ ◌∷◌ ((eqb_iff x c).0 a) e)

    back : (p r : Text) → has_prefix (p ++ r) p ≡ true
    back [] r = refl
    back (c ∷ p) r = ground (arith, back p r)

reverse_eq : (s t r : Text) → reverse s ≡ reverse t ++ r → s ≡ reverse r ++ t
reverse_eq s t r e =
    sym (reverse-reverse s)
    ∙ ap reverse e
    ∙ reverse-append (reverse t) r
    ∙ ap (λ u. reverse r ++ u) (reverse-reverse t)

pub has_suffix_iff : (s t : Text) → (has_suffix s t ≡ true) ↔ ((gap : Text) × (s ≡ gap ++ t))
unfolding has_suffix
has_suffix_iff s t = (
  λ h. let (r, e) = (has_prefix_iff (reverse s) (reverse t)).0 h in (reverse r, reverse_eq s t r e),
  λ (gap, e).
      (has_prefix_iff (reverse s) (reverse t)).1 (reverse gap, ap reverse e ∙ reverse-append gap t),
)

drop-prefix : (p r : Text) → drop (length p) (p ++ r) ≡ r
drop-prefix [] r = refl
drop-prefix (x ∷ p) r = drop-prefix p r

has_prefix-drop : (s p : Text) → has_prefix s p ≡ true → s ≡ p ++ drop (length p) s
has_prefix-drop s p h =
    let (r, e) = (has_prefix_iff s p).0 h in rw e (ap (λ u. p ++ u) (sym (drop-prefix p r)))

zero-plus : (n : ℕ) → 0 + n ≡ n
zero-plus n = omega arith

suc-plus : (m n : ℕ) → suc m + n ≡ suc (m + n)
suc-plus m n = omega arith

index_here : (s sub : Text) → has_prefix s sub ≡ true → index s sub ≡ some 0
unfolding index
index_here [] sub h = rw h
index_here (x ∷ s) sub h = rw h

index_next :
    (x : ℕ) (s sub : Text) (i : ℕ)
    → has_prefix (x ∷ s) sub ≡ false
    → index s sub ≡ some i
    → index (x ∷ s) sub ≡ some (suc i)
unfolding index
index_next x s sub i h e = rw (h, e)

pub index_sound :
    (s sub : Text) (i : ℕ) → index s sub ≡ some i → s ≡ take i s ++ (sub ++ drop (i + length sub) s)
unfolding index
index_sound [] sub i h = elim (Bool-cases (has_prefix [] sub)) [
  | inl e ↦ at_zero [] sub i (ground arith) e
  | inr n ↦ ground arith
]
  where
    at_zero :
        (s sub : Text) (i : ℕ)
        → i ≡ 0
        → has_prefix s sub ≡ true
        → s ≡ take i s ++ (sub ++ drop (i + length sub) s)
    at_zero s sub i z e = rw (z, zero-plus) (has_prefix-drop s sub e)
index_sound (x ∷ s) sub i h = elim (Bool-cases (has_prefix (x ∷ s) sub)) [
  | inl e ↦ let z : i ≡ 0 = ground arith in rw (z, zero-plus) (has_prefix-drop (x ∷ s) sub e)
  | inr n ↦ elim (Option-cases (index s sub)) [
    | inl e ↦ ground arith
    | inr (j, e) ↦
        let z : i ≡ suc j = ground arith in
        rw (z, suc-plus) (ap (λ u. x ∷ u) (index_sound s sub j e))
  ]
]

-- To drop no more than the first of two texts leaves the second one at the end.
drop-append : (n : ℕ) (a r : Text) → n ≤ length a → (g : Text) × (drop n (a ++ r) ≡ g ++ r)
drop-append zero a r h = (a, refl)
drop-append (suc n) [] r h = absurd (omega arith)
drop-append (suc n) (x ∷ a) r h = drop-append n a r (omega arith)

-- What follows the leftmost occurrence ends in what follows any occurrence.
pub index_leftmost :
    (gap sub after : Text)
    → (i : ℕ) × ((g : Text) × (index (gap ++ (sub ++ after)) sub ≡ some i)
        × (drop (i + length sub) (gap ++ (sub ++ after)) ≡ g ++ after))
index_leftmost [] sub after = (
  0,
  (
    [],
    index_here (sub ++ after) sub ((has_prefix_iff (sub ++ after) sub).1 (after, refl)),
    rw zero-plus (drop-prefix sub after),
  ),
)
index_leftmost (x ∷ gap) sub after =
    let s = gap ++ (sub ++ after) in
    elim (Bool-cases (has_prefix (x ∷ s) sub)) [
      | inl e ↦
          let (g, d) =
            drop-append (length sub) ((x ∷ gap) ++ sub) after
              (omega (arith, length-append (x ∷ gap) sub)) in
          (0, (g, index_here (x ∷ s) sub e, rw (zero-plus, ← append_assoc (x ∷ gap) sub after) d))
      | inr n ↦
          let (i, (g, found, left)) = index_leftmost gap sub after in
          (suc i, (g, index_next x s sub i n found, rw suc-plus left))
    ]

pub split-ne-nil : (s : Text) (c : ℕ) → split s c ≢ []
unfolding split
split-ne-nil [] c h = cc
split-ne-nil (x ∷ s) c h = ground arith

-- A text with one part is that part.
pub split_one : (s p : Text) (c : ℕ) → split s c ≡ p ∷ [] → p ≡ s
unfolding split
split_one [] p c h = ground arith
split_one (x ∷ s) p c h = elim (Bool-cases (eqb x c)) [
  | inl e ↦ absurd (split-ne-nil s c (ground arith))
  | inr n ↦ one (split s c) refl (ground arith) (λ q. split_one s q c)
]
  where
    one :
        (ps : List Text)
        → split s c ≡ ps
        → prepend x ps ≡ p ∷ []
        → ((q : Text) → split s c ≡ q ∷ [] → q ≡ s)
        → p ≡ x ∷ s
    one [] e k ih = absurd (split-ne-nil s c e)
    one (q ∷ []) e k ih = ground (arith, ih q e)
    one (q ∷ r ∷ rest) e k ih = ground arith
