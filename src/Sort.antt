-- ===== src/Sort.antt =====
-- Go's `sort.SliceStable`, as the insertion sort whose result is the same.
pub mod Laws
pub mod Reorder
use kei_connector_contracts.Prelude.{
  ℕ, zero, suc, ◌+◌, ◌-◌, ◌*◌, ◌≤◌, ◌<◌, String, ◌≡◌, refl, sym, ap, ap₂, subst, ◌∙◌, ◌≢◌, ◌↔◌, ◌⊎◌,
  inl, inr, Bool, true, false, not, ◌&&◌, ◌||◌, Option, none, some, List, [], ◌∷◌, ◌++◌, map,
  reverse, arith, Text, codes, ==_iff, ==_refl, ◌==◌, any, all, keep, find, ltb, leb, eqb,
  if◌then◌else◌, eqb_iff, Bool-cases, Option-cases, &&-eq-true, All, In, All_at, length, take, drop,
  length-append, In-append, In-keep, keep-In, any_iff, any_none, all_at, find_sound, find_complete,
  ℤ, pos, negsuc, int_lt, int_eq, Try, ok, err, ◌>>=◌,
}

module _ {A : Type 0} (less : A → A → Bool) where
  unfoldable pub insert : A → List A → List A
  insert x [] = x ∷ []
  insert x (y ∷ ys) = if less y x then y ∷ insert x ys else x ∷ y ∷ ys

  -- Of two elements that are not ordered the earlier one stays first.
  unfoldable pub sort : List A → List A
  unfolding insert
  sort [] = []
  sort (x ∷ xs) = insert x (sort xs)
