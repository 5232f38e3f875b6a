-- ===== src/Prelude/Lists.antt =====
-- Lists measured by native numbers, the tests `any` and `all`, and predicates over lists.
use Prim.Native.Nat.{ℕ, zero, suc, ◌+◌}
use mathlib.Core.Path.{◌≡◌, refl, sym, ap}
use mathlib.Core.Logic.{◌↔◌, ◌⊎◌, inl, inr}
use mathlib.Core.Bool.{Bool, true, false, ◌&&◌, ◌||◌}
use mathlib.Core.List.{List, [], ◌∷◌, ◌++◌, map}
use mathlib.Core.Option.{Option, none, some}
use native.Mathlib.Omega.{arith}
use kei_connector_contracts.Prelude.Tests.{if◌then◌else◌, Bool-cases}

-- A predicate by recursion computes to tuples, which the tactics read and build.
abbrev pub All {ℓ κ} : {A : Type ℓ} → (A → Type κ) → List A → Type κ
All P [] = Unit
All P (x ∷ xs) = P x × All P xs

-- Membership, with its place.
abbrev pub In : {A : Type 0} → A → List A → Type 0
In a [] = ⊥
In a (x ∷ xs) = (a ≡ x) ⊎ In a xs

-- No element occurs twice.
abbrev pub IsDistinct : {A : Type 0} → List A → Type 0
IsDistinct [] = Unit {0}
IsDistinct (x ∷ xs) = (In x xs → ⊥) × IsDistinct xs

-- No element of the second list is in the first.
abbrev pub IsNew : {A : Type 0} → List A → List A → Type 0
IsNew seen xs = All (λ x. In x seen → ⊥) xs

pub All_at {κ} : {A : Type 0} (P : A → Type κ) (a : A) (xs : List A) → All P xs → In a xs → P a
All_at P a [] h m = absurd m
All_at P a (x ∷ xs) h (inl e) = rw e h.0
All_at P a (x ∷ xs) h (inr m) = All_at P a xs h.1 m

module _ {ℓ} {A : Type ℓ} where
  abbrev pub length : List A → ℕ
  length [] = 0
  length (x ∷ xs) = suc (length xs)

  abbrev pub is_empty : List A → Bool
  is_empty [] = true
  is_empty (x ∷ xs) = false

  abbrev pub take : ℕ → List A → List A
  take zero xs = []
  take (suc n) [] = []
  take (suc n) (x ∷ xs) = x ∷ take n xs

  abbrev pub drop : ℕ → List A → List A
  drop zero xs = xs
  drop (suc n) [] = []
  drop (suc n) (x ∷ xs) = drop n xs

  unfoldable pub any : (A → Bool) → List A → Bool
  any p [] = false
  any p (x ∷ xs) = p x || any p xs

  unfoldable pub all : (A → Bool) → List A → Bool
  all p [] = true
  all p (x ∷ xs) = p x && all p xs

  -- The elements that pass a test, in order: a Go loop that appends to a fresh slice.
  unfoldable pub keep : (A → Bool) → List A → List A
  keep p [] = []
  keep p (x ∷ xs) = if p x then x ∷ keep p xs else keep p xs

  -- The first element that passes a test: a Go loop that breaks or returns at it.
  unfoldable pub find : (A → Bool) → List A → Option A
  find p [] = none
  find p (x ∷ xs) = if p x then some x else find p xs

  pub length-append : (xs ys : List A) → length (xs ++ ys) ≡ length xs + length ys
  length-append [] ys = omega arith
  length-append (x ∷ xs) ys = omega (arith, length-append xs ys)

module _ {A : Type 0} where
  pub IsNew-cons : (x : A) (seen xs : List A) → IsNew (x ∷ seen) xs → IsNew seen xs
  IsNew-cons x seen [] h = tt
  IsNew-cons x seen (y ∷ xs) h = (λ i. h.0 (inr i), IsNew-cons x seen xs h.1)

  pub IsNew-head : (x : A) (seen xs : List A) → IsNew (x ∷ seen) xs → In x xs → ⊥
  IsNew-head x seen xs h i = All_at (λ y. In y (x ∷ seen) → ⊥) x xs h i (inl refl)

  pub IsNew-add : (x : A) (seen xs : List A) → (In x xs → ⊥) → IsNew seen xs → IsNew (x ∷ seen) xs
  IsNew-add x seen [] n h = tt
  IsNew-add x seen (y ∷ xs) n h = (
    λ i. elim i [ inl e ↦ n (inl (sym e)) | inr j ↦ h.0 j ],
    IsNew-add x seen xs (λ i. n (inr i)) h.1,
  )

  pub In-append : (a : A) (xs ys : List A) → In a (xs ++ ys) ↔ (In a xs ⊎ In a ys)
  In-append a [] ys = (inr, λ m. ground arith)
  In-append a (x ∷ xs) ys = let ih = In-append a xs ys in (λ m. ground arith, λ m. ground arith)

module _ {A : Type 0} (p : A → Bool) where
  pub In-keep : (a : A) (xs : List A) → In a (keep p xs) → In a xs × (p a ≡ true)
  unfolding keep
  In-keep a [] m = absurd m
  In-keep a (x ∷ xs) m = ground (arith, In-keep a xs)

  pub keep-In : (a : A) (xs : List A) → In a xs → p a ≡ true → In a (keep p xs)
  unfolding keep
  keep-In a [] m h = absurd m
  keep-In a (x ∷ xs) m h = ground (arith, keep-In a xs)

  pub any_iff : (xs : List A) → (any p xs ≡ true) ↔ ((a : A) × In a xs × (p a ≡ true))
  unfolding any
  any_iff xs = (there xs, λ (a, m, h). back a xs m h)
    where
      there : (xs : List A) → any p xs ≡ true → (a : A) × In a xs × (p a ≡ true)
      there [] h = cc
      there (x ∷ xs) h = elim (Bool-cases (p x)) [
        | inl e ↦ (x, inl refl, e)
        | inr e ↦ let (a, m, k) = there xs (ground arith) in (a, inr m, k)
      ]

      back : (a : A) (xs : List A) → In a xs → p a ≡ true → any p xs ≡ true
      back a [] m h = absurd m
      back a (x ∷ xs) m h = ground (arith, back a xs)

  pub any_none : (a : A) (xs : List A) → any p xs ≡ false → In a xs → p a ≡ false
  unfolding any
  any_none a [] h m = absurd m
  any_none a (x ∷ xs) h m = ground (arith, any_none a xs)

  pub all_at : (a : A) (xs : List A) → all p xs ≡ true → In a xs → p a ≡ true
  unfolding all
  all_at a [] h m = absurd m
  all_at a (x ∷ xs) h m = ground (arith, all_at a xs)

  pub find_sound : (xs : List A) (a : A) → find p xs ≡ some a → In a xs × (p a ≡ true)
  unfolding find
  find_sound [] a h = cc
  find_sound (x ∷ xs) a h = ground (arith, find_sound xs a)

  pub find_complete : (xs : List A) → find p xs ≡ none → (a : A) → In a xs → p a ≡ false
  unfolding find
  find_complete [] h a m = absurd m
  find_complete (x ∷ xs) h a m = ground (arith, find_complete xs, find_complete xs (ground arith) a)

  pub find-append :
      (xs ys : List A) → find p (xs ++ ys) ≡ elim (find p xs) [ some a ↦ some a | none ↦ find p ys ]
  unfolding find
  find-append [] ys = refl
  find-append (x ∷ xs) ys = ground (arith, find-append xs ys)

module _ {A B : Type 0} (f : A → B) where
  pub In-map : (b : B) (xs : List A) → In b (map f xs) → (a : A) × In a xs × (b ≡ f a)
  In-map b [] m = absurd m
  In-map b (x ∷ xs) (inl e) = (x, inl refl, e)
  In-map b (x ∷ xs) (inr m) = let (a, i, e) = In-map b xs m in (a, inr i, e)

  pub map-In : (a : A) (xs : List A) → In a xs → In (f a) (map f xs)
  map-In a [] m = absurd m
  map-In a (x ∷ xs) (inl e) = inl (ap f e)
  map-In a (x ∷ xs) (inr m) = inr (map-In a xs m)
