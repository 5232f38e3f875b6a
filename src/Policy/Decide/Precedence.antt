-- ===== src/Policy/Decide/Precedence.antt =====
-- policy/decide.go: the comparison `Precedence` as an order on rules.
use kei_connector_contracts.Prelude.{
  ◌≡◌, inl, inr, Bool, true, false, not, ◌&&◌, arith, Text, codes, ==_iff, ◌==◌, if◌then◌else◌,
  Bool-cases, int_lt,
}
use kei_connector_contracts.Strings.{text_lt}
use kei_connector_contracts.Strings.Order.{text_lt_asym, text_lt_cotrans, text_lt_total}
use kei_connector_contracts.Sort.Laws.{IsOrder}
use kei_connector_contracts.Policy.Decide.{Rule, precedence, precedes}

abbrev pub is_deny : Rule → Bool
is_deny r = r.effect == codes "deny"

-- The same comparison with one branch for each kind of effect.
precedes_lem :
    (a b : Rule)
    → precedes a b ≡ (
        if is_deny a && not (is_deny b)
        then true
        else if is_deny b && not (is_deny a)
        then false
        else text_lt a.id b.id)
unfolding precedes precedence int_lt
precedes_lem a b = ground (arith, ==_iff a.id b.id, text_lt_asym a.id b.id, text_irrefl a.id)
  where
    text_irrefl : (s : Text) → text_lt s s ≡ false
    text_irrefl s = elim (Bool-cases (text_lt s s)) [ inl e ↦ text_lt_asym s s e | inr e ↦ e ]

precedes_asym : (a b : Rule) → precedes a b ≡ true → precedes b a ≡ false
precedes_asym a b h = ground (arith, precedes_lem a b, precedes_lem b a, text_lt_asym a.id b.id)

precedes_cotrans :
    (a b c : Rule) → precedes b a ≡ false → precedes c b ≡ false → precedes c a ≡ false
precedes_cotrans a b c h k =
    ground
      (arith, precedes_lem b a, precedes_lem c b, precedes_lem c a, text_lt_cotrans a.id b.id c.id)

pub precedes-IsOrder : IsOrder precedes
precedes-IsOrder = record { asym = precedes_asym; cotrans = precedes_cotrans }

pub precedes_tie :
    (a b : Rule)
    → precedes a b ≡ false
    → precedes b a ≡ false
    → (a.id ≡ b.id) × (is_deny a ≡ is_deny b)
precedes_tie a b h k = ground (arith, precedes_lem a b, precedes_lem b a, text_lt_total a.id b.id)

-- A rule that no deny precedes, and that denies nothing itself, leaves no deny.
pub precedes_deny : (a b : Rule) → is_deny b ≡ true → precedes b a ≡ false → is_deny a ≡ true
precedes_deny a b h k = ground (arith, precedes_lem b a)
