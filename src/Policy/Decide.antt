-- ===== src/Policy/Decide.antt =====
-- policy/decide.go: the decision of a request by the rules, under deny-overrides.
pub mod Precedence
pub mod Laws
pub mod Order
use kei_connector_contracts.Prelude.{
  ℕ, zero, suc, ◌+◌, ◌-◌, ◌*◌, ◌≤◌, ◌<◌, String, ◌≡◌, refl, sym, ap, ap₂, subst, ◌∙◌, ◌≢◌, ◌↔◌, ◌⊎◌,
  inl, inr, Bool, true, false, not, ◌&&◌, ◌||◌, Option, none, some, List, [], ◌∷◌, ◌++◌, map,
  reverse, arith, Text, codes, ==_iff, ==_refl, ◌==◌, any, all, keep, find, ltb, leb, eqb,
  if◌then◌else◌, eqb_iff, Bool-cases, Option-cases, &&-eq-true, All, In, All_at, length, take, drop,
  length-append, In-append, In-keep, keep-In, any_iff, any_none, all_at, find_sound, find_complete,
  find-append, In-map, map-In, ℤ, pos, negsuc, int_lt, int_eq, int_lt_asym, int_lt_cotrans,
  int_eq_lem, Try, ok, err, ◌>>=◌,
}
use kei_connector_contracts.Strings.{text_lt}
use kei_connector_contracts.Sort.{sort}
use kei_connector_contracts.Policy.Principals.{match_principal}
use kei_connector_contracts.Policy.Targets.{target_matches}

pub record When : Type 0 where
  pub harness : Text

pub record Rule : Type 0 where
  pub id : Text
  pub principal : Text
  pub target : Text
  pub effect : Text
  pub priority : ℤ
  pub enabled : Bool
  pub condition : When

pub record Request : Type 0 where
  pub user : Text
  pub email : Text
  pub groups : List Text
  pub target : Text
  pub harness : Text

pub record Outcome : Type 0 where
  pub decision : Text
  pub reason : Text
  pub decided_by : Text
  pub outranked : List Text

unfoldable pub when_matches : When → Request → Bool
when_matches w req = w.harness == [] || w.harness == req.harness

-- The comparison that `Precedence` holds: negative, positive or zero.
unfoldable pub precedence : Rule → Rule → ℤ
precedence a b =
    let a_deny = a.effect == codes "deny" in
    let b_deny = b.effect == codes "deny" in
    if a_deny && not b_deny
    then negsuc 0
    else if b_deny && not a_deny
    then pos 1
    else if not (a.id == b.id)
    then (if text_lt a.id b.id then negsuc 0 else pos 1)
    else pos 0

-- The comparison that `Decide` sorts by.
unfoldable pub precedes : Rule → Rule → Bool
precedes a b = int_lt (precedence a b) (pos 0)

-- The four tests of the loop of `Decide`.
unfoldable pub applies : Request → Rule → Bool
applies req r =
    r.enabled
    && match_principal r.principal req.user req.email req.groups
    && target_matches r.target req.target
    && when_matches r.condition req

unfoldable pub matched : List Rule → Request → List Rule
matched rules req = keep (applies req) rules

abbrev pub no_match : Outcome
no_match = record { decision = codes "no_match"; reason = []; decided_by = []; outranked = [] }

-- The outcome of the rules in their order: the first one decides.
unfoldable pub conclude : List Rule → Outcome
conclude [] = no_match
conclude (decided ∷ rest) = record {
  decision = decided.effect;
  reason = [];
  decided_by = decided.id;
  outranked = map (λ r. r.id) rest;
}

unfoldable pub decide : List Rule → Request → Outcome
decide rules req = conclude (sort precedes (matched rules req))
