-- ===== src/Prelude/Int.antt =====
-- Go's signed integers, of which the code only compares values. `negsuc n` is -(n + 1).
use Prim.Native.Nat.{ℕ}
use mathlib.Core.Path.{◌≡◌, refl}
use native.Mathlib.Omega.{arith}
use mathlib.Core.Bool.{Bool, true, false}
use kei_connector_contracts.Prelude.Tests.{ltb, eqb, if◌then◌else◌}

pub data ℤ : Type 0 where
  pos : ℕ → ℤ
  negsuc : ℕ → ℤ

-- a < b
unfoldable pub int_lt : ℤ → ℤ → Bool
int_lt (pos a) (pos b) = ltb a b
int_lt (pos a) (negsuc b) = false
int_lt (negsuc a) (pos b) = true
int_lt (negsuc a) (negsuc b) = ltb b a

unfoldable pub int_eq : ℤ → ℤ → Bool
int_eq (pos a) (pos b) = eqb a b
int_eq (negsuc a) (negsuc b) = eqb a b
int_eq _ _ = false

pub int_lt_asym : (a b : ℤ) → int_lt a b ≡ true → int_lt b a ≡ false
unfolding int_lt
int_lt_asym (pos a) (pos b) h = ground arith
int_lt_asym (pos a) (negsuc b) h = ground arith
int_lt_asym (negsuc a) (pos b) h = refl
int_lt_asym (negsuc a) (negsuc b) h = ground arith

pub int_lt_cotrans : (a b c : ℤ) → int_lt b a ≡ false → int_lt c b ≡ false → int_lt c a ≡ false
unfolding int_lt
int_lt_cotrans (pos a) (pos b) (pos c) h k = ground arith
int_lt_cotrans (pos a) (pos b) (negsuc c) h k = ground arith
int_lt_cotrans (pos a) (negsuc b) (pos c) h k = ground arith
int_lt_cotrans (pos a) (negsuc b) (negsuc c) h k = ground arith
int_lt_cotrans (negsuc a) (pos b) (pos c) h k = ground arith
int_lt_cotrans (negsuc a) (pos b) (negsuc c) h k = ground arith
int_lt_cotrans (negsuc a) (negsuc b) (pos c) h k = ground arith
int_lt_cotrans (negsuc a) (negsuc b) (negsuc c) h k = ground arith

-- Two integers of which neither is less are equal, and then `==` holds; else it does not.
pub int_eq_lem :
    (a b : ℤ) → int_eq a b ≡ (if int_lt a b then false else if int_lt b a then false else true)
unfolding int_lt int_eq
int_eq_lem (pos a) (pos b) = ground arith
int_eq_lem (pos a) (negsuc b) = refl
int_eq_lem (negsuc a) (pos b) = refl
int_eq_lem (negsuc a) (negsuc b) = ground arith
