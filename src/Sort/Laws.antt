-- ===== src/Sort/Laws.antt =====
-- A sorted list has the same elements, and its first one is preceded by none.
use kei_connector_contracts.Prelude.{
  ◌≡◌, refl, ap, ◌∙◌, ◌↔◌, inl, inr, Bool, true, false, List, [], ◌∷◌, arith, Bool-cases, All, In,
}
use mathlib.Core.List.{Perm}
use mathlib.Core.List.Perm
use kei_connector_contracts.Sort.{insert, sort}

module _ {A : Type 0} (less : A → A → Bool) where
  insert-perm : (x : A) (xs : List A) → Perm (insert less x xs) (x ∷ xs)
  unfolding insert
  insert-perm x [] = Perm.refl (x ∷ [])
  insert-perm x (y ∷ ys) = elim (Bool-cases (less y x)) [
    | inl e ↦ rw e (Perm.trans (Perm.cons y (insert-perm x ys)) (Perm.swap x y ys))
    | inr e ↦ rw e (Perm.refl (x ∷ y ∷ ys))
  ]

  pub sort-perm : (xs : List A) → Perm (sort less xs) xs
  unfolding sort
  sort-perm [] = Perm.refl []
  sort-perm (x ∷ xs) = Perm.trans (insert-perm x (sort less xs)) (Perm.cons x (sort-perm xs))

  In-insert : (a x : A) (xs : List A) → In a (insert less x xs) ↔ In a (x ∷ xs)
  unfolding insert
  In-insert a x [] = (λ m. m, λ m. m)
  In-insert a x (y ∷ ys) = let ih = In-insert a x ys in (λ m. ground arith, λ m. ground arith)

  pub In-sort : (a : A) (xs : List A) → In a (sort less xs) ↔ In a xs
  unfolding sort
  In-sort a [] = (λ m. m, λ m. m)
  In-sort a (x ∷ xs) =
      let ih = In-sort a xs in
      let step = In-insert a x (sort less xs) in (λ m. ground arith, λ m. ground arith)

-- `less` is a strict weak order: what is not less is a total preorder.
pub record IsOrder {A : Type 0} (less : A → A → Bool) : Type 0 where
  pub asym : (x y : A) → less x y ≡ true → less y x ≡ false
  pub cotrans : (x y z : A) → less y x ≡ false → less z y ≡ false → less z x ≡ false

module _ {A : Type 0} (less : A → A → Bool) (order : IsOrder less) where
  -- No later element precedes an earlier one.
  abbrev pub IsSorted : List A → Type 0
  IsSorted [] = Unit
  IsSorted (x ∷ xs) = All (λ y. less y x ≡ false) xs × IsSorted xs

  All-cotrans :
      (x y : A) (zs : List A)
      → less y x ≡ false
      → All (λ z. less z y ≡ false) zs
      → All (λ z. less z x ≡ false) zs
  All-cotrans x y [] h a = tt
  All-cotrans x y (z ∷ zs) h a = (order.cotrans x y z h a.0, All-cotrans x y zs h a.1)

  All-insert : (P : A → Type 0) (x : A) (ys : List A) → P x → All P ys → All P (insert less x ys)
  unfolding insert
  All-insert P x [] p h = (p, tt)
  All-insert P x (y ∷ ys) p h = elim (Bool-cases (less y x)) [
    | inl e ↦ rw e (h.0, All-insert P x ys p h.1)
    | inr e ↦ rw e (p, h)
  ]

  insert-IsSorted : (x : A) (xs : List A) → IsSorted xs → IsSorted (insert less x xs)
  unfolding insert
  insert-IsSorted x [] s = (tt, tt)
  insert-IsSorted x (y ∷ ys) s = elim (Bool-cases (less y x)) [
    | inl e ↦
        rw e
          (All-insert (λ z. less z y ≡ false) x ys (order.asym y x e) s.0, insert-IsSorted x ys s.1)
    | inr e ↦ rw e ((e, All-cotrans x y ys e s.0), s)
  ]

  pub sort-IsSorted : (xs : List A) → IsSorted (sort less xs)
  unfolding sort
  sort-IsSorted [] = tt
  sort-IsSorted (x ∷ xs) = insert-IsSorted x (sort less xs) (sort-IsSorted xs)

-- Two tests that agree on what is sorted sort alike.
module _ {A : Type 0} (P : A → Type 0) (less less' : A → A → Bool)
    (agree : (a b : A) → P a → P b → less a b ≡ less' a b) where
  insert-congr : (x : A) (ys : List A) → P x → All P ys → insert less x ys ≡ insert less' x ys
  unfolding insert
  insert-congr x [] p h = refl
  insert-congr x (y ∷ ys) p h = rw (agree y x h.0 p, insert-congr x ys p h.1)

  All-insert_of : (x : A) (ys : List A) → P x → All P ys → All P (insert less' x ys)
  unfolding insert
  All-insert_of x [] p h = (p, tt)
  All-insert_of x (y ∷ ys) p h = elim (Bool-cases (less' y x)) [
    | inl e ↦ rw e (h.0, All-insert_of x ys p h.1)
    | inr e ↦ rw e (p, h)
  ]

  All-sort : (xs : List A) → All P xs → All P (sort less' xs)
  unfolding sort
  All-sort [] h = tt
  All-sort (x ∷ xs) h = All-insert_of x (sort less' xs) h.0 (All-sort xs h.1)

  pub sort-congr : (xs : List A) → All P xs → sort less xs ≡ sort less' xs
  unfolding sort
  sort-congr [] h = refl
  sort-congr (x ∷ xs) h =
      ap (insert less x) (sort-congr xs h.1) ∙ insert-congr x (sort less' xs) h.0 (All-sort xs h.1)
