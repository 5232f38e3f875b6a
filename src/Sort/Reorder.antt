-- ===== src/Sort/Reorder.antt =====
-- A sort whose keys are unique does not depend on the order of its input.
use kei_connector_contracts.Prelude.{
  ◌≡◌, refl, sym, ap, ◌∙◌, inl, inr, Bool, true, false, List, [], ◌∷◌, arith, Bool-cases, In,
}
use kei_connector_contracts.Sort.{insert, sort}
use kei_connector_contracts.Sort.Laws.{IsOrder}

-- The same elements in another order.
pub data Reordered {A : Type 0} : List A → List A → Type 0 where
  same : (xs : List A) → Reordered xs xs
  skip : (x : A) {xs ys : List A} → Reordered xs ys → Reordered (x ∷ xs) (x ∷ ys)
  swap : (x y : A) (xs : List A) → Reordered (x ∷ y ∷ xs) (y ∷ x ∷ xs)
  after : {xs ys zs : List A} → Reordered xs ys → Reordered ys zs → Reordered xs zs

pub Reordered-In : {A : Type 0} {xs ys : List A} → Reordered xs ys → (a : A) → In a ys → In a xs
Reordered-In (same xs) a i = i
Reordered-In (skip x r) a (inl e) = inl e
Reordered-In (skip x r) a (inr i) = inr (Reordered-In r a i)
Reordered-In (swap x y xs) a (inl e) = inr (inl e)
Reordered-In (swap x y xs) a (inr (inl e)) = inl e
Reordered-In (swap x y xs) a (inr (inr i)) = inr (inr i)
Reordered-In (after r s) a i = Reordered-In r a (Reordered-In s a i)

module _ {A : Type 0} (less : A → A → Bool) (order : IsOrder less) where
  -- Elements that are not ordered are the same.
  abbrev pub IsKeyed : List A → Type 0
  IsKeyed xs = (a b : A) → In a xs → In b xs → less a b ≡ false → less b a ≡ false → a ≡ b

  less_trans : (z x y : A) → less z x ≡ true → less x y ≡ true → less z y ≡ true
  less_trans z x y p q = elim (Bool-cases (less z y)) [
    | inl e ↦ e
    | inr e ↦ let absurdity = order.cotrans x y z (order.asym x y q) e in absurd (cc)
  ]

  insert_ordered :
      (x y : A) (l : List A)
      → less x y ≡ true
      → insert less x (insert less y l) ≡ insert less y (insert less x l)
  unfolding insert
  insert_ordered x y [] p = ground (arith, order.asym x y)
  insert_ordered x y (z ∷ l) p =
      ground (arith, order.asym x y, less_trans z x y, insert_ordered x y l)

  insert_comm :
      (x y : A) (l : List A)
      → (less x y ≡ false → less y x ≡ false → x ≡ y)
      → insert less x (insert less y l) ≡ insert less y (insert less x l)
  insert_comm x y l tie = elim (Bool-cases (less x y)) [
    | inl p ↦ insert_ordered x y l p
    | inr p ↦ elim (Bool-cases (less y x)) [
      | inl q ↦ sym (insert_ordered y x l q)
      | inr q ↦ let e = tie p q in rw e refl
    ]
  ]

  pub sort-Reordered : {xs ys : List A} → Reordered xs ys → IsKeyed xs → sort less xs ≡ sort less ys
  unfolding sort
  sort-Reordered (same xs) k = refl
  sort-Reordered (skip x r) k =
      ap (insert less x) (sort-Reordered r (λ a b i j. k a b (inr i) (inr j)))
  sort-Reordered (swap x y xs) k =
      insert_comm x y (sort less xs) (λ p q. k x y (inl refl) (inr (inl refl)) p q)
  sort-Reordered (after r s) k =
      sort-Reordered r k
      ∙ sort-Reordered s (λ a b i j. k a b (Reordered-In r a i) (Reordered-In r b j))
