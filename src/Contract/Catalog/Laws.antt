-- ===== src/Contract/Catalog/Laws.antt =====
-- contract/contract.go: membership in the tables.
use kei_connector_contracts.Prelude.{
  ◌≡◌, ◌↔◌, true, some, List, [], ◌∷◌, arith, Text, ==_iff, any, In,
}
use kei_connector_contracts.Contract.Catalog.{is_one_of, entry_of}

pub is_one_of_iff : (names : List Text) (t : Text) → (is_one_of names t ≡ true) ↔ In t names
unfolding is_one_of any
is_one_of_iff [] t = (λ h. cc, λ m. absurd m)
is_one_of_iff (n ∷ names) t =
    let ih = is_one_of_iff names t in
    (λ h. ground (arith, ==_iff n t), λ m. ground (arith, ==_iff n t))

pub entry_of_In :
    {A : Type 0} (m : List (Text × A)) (k : Text) (a : A) → entry_of m k ≡ some a → In (k, a) m
unfolding entry_of
entry_of_In [] k a h = cc
entry_of_In ((j, b) ∷ m) k a h = ground (arith, ==_iff j k, entry_of_In m k a)
