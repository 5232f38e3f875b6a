-- ===== src/HarnessMatch/Glob/Fills.antt =====
-- What a pattern with stars means, with no search order in it: each star stands for some text.
use kei_connector_contracts.Prelude.{◌≡◌, List, [], ◌∷◌, ◌++◌, Text}

-- A text that follows the first star: any text before each part.
abbrev pub FillsAfter : List Text → Text → Type 0
FillsAfter [] s = Unit
FillsAfter (last ∷ []) s = (gap : Text) × (s ≡ gap ++ last)
FillsAfter (part ∷ q ∷ rest) s =
    (gap : Text) × ((after : Text) × (s ≡ gap ++ (part ++ after)) × FillsAfter (q ∷ rest) after)

-- The parts between the stars, with some text in place of each star.
abbrev pub Fills : List Text → Text → Type 0
Fills [] s = ⊥
Fills (p ∷ []) s = s ≡ p
Fills (p ∷ q ∷ rest) s = (after : Text) × (s ≡ p ++ after) × FillsAfter (q ∷ rest) after
