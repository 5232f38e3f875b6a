-- ===== src/Bundle/Checks/Ranking.antt =====
-- bundle/evaluate_v2.go: the comparison of the sort, and its winner.
use kei_connector_contracts.Prelude.{
  ◌≡◌, refl, sym, subst, ◌∙◌, ◌↔◌, ◌⊎◌, inl, inr, Bool, true, false, not, ◌&&◌, List, [], ◌∷◌,
  arith, codes, ==_iff, ◌==◌, if◌then◌else◌, Bool-cases, All, In, All_at, int_lt, int_lt_asym,
  int_lt_cotrans, int_eq_lem,
}
use kei_connector_contracts.Strings.{text_lt}
use kei_connector_contracts.Strings.Order.{text_lt_asym, text_lt_cotrans, text_lt_total}
use kei_connector_contracts.Sort.{sort}
use kei_connector_contracts.Sort.Laws.{IsOrder, IsSorted, In-sort, sort-IsSorted, sort-congr}
use kei_connector_contracts.Bundle.Types.{
  Decision, ReasonCode, refuse, allow_by, deny_by, no_matching_policy,
}
use kei_connector_contracts.Bundle.Checks.{Ranked, ranked_before, by_winner}

abbrev pub is_deny : Ranked → Bool
is_deny r = r.effect == codes "deny"

-- The policy permits or denies.
abbrev pub IsDecisive : Ranked → Type 0
IsDecisive r = (r.effect ≡ codes "permit") ⊎ (r.effect ≡ codes "deny")

-- Priorities where they count, then denies first, then the id.
unfoldable pub outranks : Bool → Ranked → Ranked → Bool
outranks deny_over a b =
    if not deny_over && int_lt b.priority a.priority
    then true
    else if not deny_over && int_lt a.priority b.priority
    then false
    else if is_deny a && not (is_deny b)
    then true
    else if is_deny b && not (is_deny a)
    then false
    else text_lt a.policy_id b.policy_id

outranks_lem :
    (d : Bool) (a b : Ranked) → IsDecisive a → IsDecisive b → ranked_before d a b ≡ outranks d a b
unfolding outranks ranked_before
outranks_lem d a b p q = ground (
  arith,
  int_eq_lem a.priority b.priority,
  int_lt_asym a.priority b.priority,
  ==_iff a.effect b.effect,
  ==_iff a.effect (codes "deny"),
  ==_iff b.effect (codes "deny"),
)

outranks_asym : (d : Bool) (a b : Ranked) → outranks d a b ≡ true → outranks d b a ≡ false
unfolding outranks
outranks_asym d a b h = ground (
  arith,
  int_lt_asym a.priority b.priority,
  int_lt_asym b.priority a.priority,
  text_lt_asym a.policy_id b.policy_id,
)

outranks_cotrans :
    (d : Bool) (a b c : Ranked)
    → outranks d b a ≡ false
    → outranks d c b ≡ false
    → outranks d c a ≡ false
unfolding outranks
outranks_cotrans d a b c h k = ground (
  arith,
  int_lt_cotrans a.priority b.priority c.priority,
  int_lt_cotrans c.priority b.priority a.priority,
  int_lt_cotrans b.priority a.priority c.priority,
  int_lt_cotrans b.priority c.priority a.priority,
  int_lt_cotrans a.priority c.priority b.priority,
  int_lt_cotrans c.priority a.priority b.priority,
  text_lt_cotrans a.policy_id b.policy_id c.policy_id,
)

outranks-IsOrder : (d : Bool) → IsOrder (outranks d)
outranks-IsOrder d = record { asym = outranks_asym d; cotrans = outranks_cotrans d }

outranks_tie :
    (d : Bool) (a b : Ranked)
    → outranks d a b ≡ false
    → outranks d b a ≡ false
    → (a.policy_id ≡ b.policy_id) × (is_deny a ≡ is_deny b)
unfolding outranks
outranks_tie d a b h k = ground (arith, text_lt_total a.policy_id b.policy_id)

-- Under deny-overrides a deny is outranked by denies alone.
pub outranks_deny : (a b : Ranked) → is_deny b ≡ true → outranks true b a ≡ false → is_deny a ≡ true
unfolding outranks
outranks_deny a b h k = ground arith

-- The decision of the winner alone.
abbrev pub decision_of : ReasonCode → Ranked → Decision
decision_of code w = if is_deny w then deny_by w.policy_id else allow_by w.policy_id code

-- A member that no member outranks, and its decision.
pub record IsWinner (d : Bool) (code : ReasonCode) (xs : List Ranked) (w : Ranked) : Type 0 where
  pub listed : In w xs
  pub first : (r : Ranked) → In r xs → outranks d r w ≡ false
  pub decides : by_winner code (sort (ranked_before d) xs) ≡ decision_of code w

pub IsWinner-cases :
    (d : Bool) (code : ReasonCode) (xs : List Ranked)
    → All IsDecisive xs
    → ((xs ≡ []) × (by_winner code (sort (ranked_before d) xs) ≡ refuse no_matching_policy))
      ⊎ ((w : Ranked) × IsWinner d code xs w)
unfolding by_winner
IsWinner-cases d code xs h =
    go (sort (outranks d) xs) refl (sort-IsSorted (outranks d) (outranks-IsOrder d) xs)
      (sort-congr IsDecisive (ranked_before d) (outranks d) (outranks_lem d) xs h)
  where
    no_members : sort (outranks d) xs ≡ [] → xs ≡ []
    no_members e = nothing xs (λ r m. subst (In r) e ((In-sort (outranks d) r xs).1 m))
      where
        nothing : (xs : List Ranked) → ((r : Ranked) → In r xs → ⊥) → xs ≡ []
        nothing [] n = refl
        nothing (x ∷ xs) n = absurd (n x (inl refl))

    go :
        (ys : List Ranked)
        → sort (outranks d) xs ≡ ys
        → IsSorted (outranks d) (outranks-IsOrder d) ys
        → sort (ranked_before d) xs ≡ sort (outranks d) xs
        → ((xs ≡ []) × (by_winner code (sort (ranked_before d) xs) ≡ refuse no_matching_policy))
          ⊎ ((w : Ranked) × IsWinner d code xs w)
    go [] e s same = inl (no_members e, rw (same, e) refl)
    go (w ∷ rest) e s same = inr (
      w,
      record {
        listed = (In-sort (outranks d) w xs).0 (subst (In w) (sym e) (inl refl));
        first = λ r m. leading r (subst (In r) e ((In-sort (outranks d) r xs).1 m));
        decides = rw (same, e) refl;
      },
    )
      where
        leading : (r : Ranked) → In r (w ∷ rest) → outranks d r w ≡ false
        leading r (inl eq) = rw eq (irrefl w)
          where
            irrefl : (a : Ranked) → outranks d a a ≡ false
            irrefl a = elim (Bool-cases (outranks d a a)) [
              | inl y ↦ outranks_asym d a a y
              | inr n ↦ n
            ]
        leading r (inr later) = All_at (λ z. outranks d z w ≡ false) r rest s.0 later

-- Two lists with the same members give the same decision.
pub winner_order :
    (d : Bool) (code : ReasonCode) (xs ys : List Ranked)
    → All IsDecisive xs
    → All IsDecisive ys
    → ((r : Ranked) → In r xs ↔ In r ys)
    → by_winner code (sort (ranked_before d) xs) ≡ by_winner code (sort (ranked_before d) ys)
winner_order d code xs ys hx hy same = elim (IsWinner-cases d code xs hx) [
  | inl (ex, e) ↦ elim (IsWinner-cases d code ys hy) [
    | inl (_, e') ↦ e ∙ sym e'
    | inr (w', i') ↦ absurd (subst (In w') ex ((same w').1 i'.listed))
  ]
  | inr (w, i) ↦ elim (IsWinner-cases d code ys hy) [
    | inl (ey, _) ↦ absurd (subst (In w) ey ((same w).0 i.listed))
    | inr (w', i') ↦
        let tie =
          outranks_tie d w w' (i'.first w ((same w).0 i.listed))
            (i.first w' ((same w').1 i'.listed)) in
        i.decides ∙ rw (tie.0, tie.1) refl ∙ sym i'.decides
  ]
]
