-- ===== src/Prelude/Results.antt =====
-- Go's pair of a value and an error. A function that returns an error alone is an `Option`.
use mathlib.Core.Path.{◌≡◌, refl}
use mathlib.Core.Logic.{◌↔◌}
use mathlib.Core.Bool.{Bool, true, false}
use mathlib.Core.Option.{Option, none, some}
use mathlib.Core.List.{List, [], ◌∷◌}
use kei_connector_contracts.Prelude.Lists.{All}

pub data Try (E A : Type 0) : Type 0 where
  ok : A → Try E A
  err : E → Try E A

infixl 5 ◌>>=◌
abbrev pub ◌>>=◌ : {E A B : Type 0} → Try E A → (A → Try E B) → Try E B
ok a >>= f = f a
err e >>= f = err e

-- `if b { return e }` of a function that returns an error alone.
abbrev pub refuse_if : {E : Type 0} → Bool → E → Option E
refuse_if true e = some e
refuse_if false e = none

-- `if err := a; err != nil { return err }`, and then the rest.
infixr 3 ◌>>?◌
abbrev pub ◌>>?◌ : {E : Type 0} → Option E → Option E → Option E
some e >>? rest = some e
none >>? rest = rest

-- A loop that returns the first error.
unfoldable pub first_error : {A E : Type 0} → (A → Option E) → List A → Option E
first_error f [] = none
first_error f (x ∷ xs) = f x >>? first_error f xs

-- A chain of checks passes exactly if each of them does.
pub >>?-eq-none : {E : Type 0} (a b : Option E) → ((a >>? b) ≡ none) ↔ ((a ≡ none) × (b ≡ none))
>>?-eq-none none b = (λ h. (refl, h), λ (p, q). q)
>>?-eq-none (some e) b = (λ h. cc, λ (p, q). p)

pub refuse_if-eq-none : {E : Type 0} (b : Bool) (e : E) → (refuse_if b e ≡ none) ↔ (b ≡ false)
refuse_if-eq-none true e = (λ h. cc, λ h. cc)
refuse_if-eq-none false e = (λ h. refl, λ h. refl)

module _ {A E : Type 0} (f : A → Option E) where
  pub first_error-eq-none : (xs : List A) → (first_error f xs ≡ none) ↔ All (λ x. f x ≡ none) xs
  unfolding first_error
  first_error-eq-none [] = (λ h. tt, λ k. refl)
  first_error-eq-none (x ∷ xs) =
      let chain = >>?-eq-none (f x) (first_error f xs) in
      let rest = first_error-eq-none xs in
      (λ h. let (p, q) = chain.0 h in (p, rest.0 q), λ (p, q). chain.1 (p, rest.1 q))
