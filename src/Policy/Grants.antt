-- ===== src/Policy/Grants.antt =====
-- policy/decide.go: access grants with an expiry, consulted where no rule matches.
pub mod Laws
use kei_connector_contracts.Prelude.{
  ℕ, zero, suc, ◌+◌, ◌-◌, ◌*◌, ◌≤◌, ◌<◌, String, ◌≡◌, refl, sym, ap, ap₂, subst, ◌∙◌, ◌≢◌, ◌↔◌, ◌⊎◌,
  inl, inr, Bool, true, false, not, ◌&&◌, ◌||◌, Option, none, some, List, [], ◌∷◌, ◌++◌, map,
  reverse, arith, Text, codes, ==_iff, ==_refl, ◌==◌, any, all, keep, find, ltb, leb, eqb,
  if◌then◌else◌, eqb_iff, Bool-cases, Option-cases, &&-eq-true, All, In, All_at, length, take, drop,
  length-append, In-append, In-keep, keep-In, any_iff, any_none, all_at, find_sound, find_complete,
  find-append, In-map, map-In, ℤ, pos, negsuc, int_lt, int_eq, int_lt_asym, int_lt_cotrans,
  int_eq_lem, Try, ok, err, ◌>>=◌,
}
use kei_connector_contracts.Policy.Principals.{match_principal}
use kei_connector_contracts.Policy.Targets.{target_matches}
use kei_connector_contracts.Policy.Decide.{Rule, Request, Outcome, decide}

-- A `time.Time`, as the nanoseconds since the zero time; `Before` is `ltb`.
abbrev pub Time : Type 0
Time = ℕ

pub record AccessGrant : Type 0 where
  pub principal : Text
  pub target : Text
  pub expire_time : Time

-- The two tests that the loops over the grants share.
unfoldable pub grant_matches : Request → AccessGrant → Bool
grant_matches req g =
    match_principal g.principal req.user req.email req.groups && target_matches g.target req.target

unfoldable pub is_live : Time → Request → AccessGrant → Bool
is_live now req g = grant_matches req g && ltb now g.expire_time

-- What follows the search for the first live grant.
unfoldable pub by_grants : Outcome → List AccessGrant → Request → Option AccessGrant → Outcome
by_grants out grants req (some g) = record {
  decision = codes "permit";
  reason = [];
  decided_by = codes "grant:" ++ g.principal ++ b':' ∷ g.target;
  outranked = [];
}
by_grants out grants req none =
    if any (grant_matches req) grants
    then record out { reason = codes "access_grant_expired" }
    else record out { reason = codes "no_grant_matched" }

unfoldable pub decide_at : List Rule → Request → List AccessGrant → Time → Outcome
decide_at rules req grants now =
    let out = decide rules req in
    let granted = by_grants out grants req (find (is_live now req) grants) in
    if not (out.decision == codes "no_match") then out else granted
