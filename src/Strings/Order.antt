-- ===== src/Strings/Order.antt =====
-- The byte order of texts is a strict total order.
use kei_connector_contracts.Prelude.{◌≡◌, refl, true, false, [], ◌∷◌, arith, Text}
use kei_connector_contracts.Strings.{text_lt}

pub text_lt_asym : (s t : Text) → text_lt s t ≡ true → text_lt t s ≡ false
unfolding text_lt
text_lt_asym [] [] h = cc
text_lt_asym [] (y ∷ t) h = refl
text_lt_asym (x ∷ s) [] h = cc
text_lt_asym (x ∷ s) (y ∷ t) h = ground (arith, text_lt_asym s t)

pub text_lt_cotrans :
    (x y z : Text) → text_lt y x ≡ false → text_lt z y ≡ false → text_lt z x ≡ false
unfolding text_lt
text_lt_cotrans [] [] [] h k = refl
text_lt_cotrans [] [] (c ∷ z) h k = refl
text_lt_cotrans [] (b ∷ y) [] h k = refl
text_lt_cotrans [] (b ∷ y) (c ∷ z) h k = refl
text_lt_cotrans (a ∷ x) [] [] h k = cc
text_lt_cotrans (a ∷ x) [] (c ∷ z) h k = cc
text_lt_cotrans (a ∷ x) (b ∷ y) [] h k = cc
text_lt_cotrans (a ∷ x) (b ∷ y) (c ∷ z) h k = ground (arith, text_lt_cotrans x y z)

-- Two texts of which neither is less are equal.
pub text_lt_total : (s t : Text) → text_lt s t ≡ false → text_lt t s ≡ false → s ≡ t
unfolding text_lt
text_lt_total [] [] h k = refl
text_lt_total [] (y ∷ t) h k = cc
text_lt_total (x ∷ s) [] h k = cc
text_lt_total (x ∷ s) (y ∷ t) h k = ground (arith, text_lt_total s t)
