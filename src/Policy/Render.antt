-- ===== src/Policy/Render.antt =====
-- policy/render.go: the rules rendered for one harness principal and kind.
pub mod Overlap
pub mod Laws
use kei_connector_contracts.Prelude.{
  ℕ, zero, suc, ◌+◌, ◌-◌, ◌*◌, ◌≤◌, ◌<◌, String, ◌≡◌, refl, sym, ap, ap₂, subst, ◌∙◌, ◌≢◌, ◌↔◌, ◌⊎◌,
  inl, inr, Bool, true, false, not, ◌&&◌, ◌||◌, Option, none, some, List, [], ◌∷◌, ◌++◌, map,
  reverse, arith, Text, codes, ==_iff, ==_refl, ◌==◌, any, all, keep, find, ltb, leb, eqb,
  if◌then◌else◌, eqb_iff, Bool-cases, Option-cases, &&-eq-true, All, In, All_at, length, take, drop,
  length-append, In-append, In-keep, keep-In, any_iff, any_none, all_at, find_sound, find_complete,
  find-append, In-map, map-In, ℤ, pos, negsuc, int_lt, int_eq, int_lt_asym, int_lt_cotrans,
  int_eq_lem, Try, ok, err, ◌>>=◌,
}
use kei_connector_contracts.HarnessMatch.Kinds.{valid_kind}
use kei_connector_contracts.Policy.Principals.{match_principal}
use kei_connector_contracts.Policy.Decide.{Rule}
use kei_connector_contracts.Policy.Render.Overlap.{overlaps_any}

pub record RenderEntry : Type 0 where
  pub rule_id : Text
  pub target : Text
  pub effect : Text

pub data DiagnosticKind : Type 0 where
  withheld unrenderable : DiagnosticKind

-- The reasons that `Render` writes.
pub data DiagnosticReason : Type 0 where
  principal_does_not_match unsupported_kind overlapping_deny : DiagnosticReason

pub record Diagnostic : Type 0 where
  pub rule_id : Text
  pub kind : DiagnosticKind
  pub reason : DiagnosticReason

pub record RenderResult : Type 0 where
  pub entries : List RenderEntry
  pub diagnostics : List Diagnostic

-- What the first loop leaves: candidates, diagnostics and the targets of withheld denies.
pub record Screened : Type 0 where
  pub candidates : List Rule
  pub diagnostics : List Diagnostic
  pub withheld_deny_targets : List Text

-- `append` if the rule is a deny.
unfoldable pub with_deny : Rule → List Text → List Text
with_deny r targets = if r.effect == codes "deny" then r.target ∷ targets else targets

-- Whom the rules are rendered for.
pub record Reader : Type 0 where
  pub user : Text
  pub email : Text
  pub groups : List Text

unfoldable pub reads : Reader → Rule → Bool
reads who r = match_principal r.principal who.user who.email who.groups

-- The first loop.
unfoldable pub screen : Reader → List Rule → Screened
screen who [] = record { candidates = []; diagnostics = []; withheld_deny_targets = [] }
screen who (r ∷ rs) =
    let rest = screen who rs in
    if not r.enabled
    then record rest { withheld_deny_targets = with_deny r rest.withheld_deny_targets }
    else if not (reads who r)
    then record rest {
      diagnostics =
          record { rule_id = r.id; kind = withheld; reason = principal_does_not_match }
          ∷ rest.diagnostics;
      withheld_deny_targets = with_deny r rest.withheld_deny_targets;
    }
    else record rest { candidates = r ∷ rest.candidates }

-- The second loop.
unfoldable pub render_candidates : Bool → List Text → List Rule → RenderResult
render_candidates kind_ok denies [] = record { entries = []; diagnostics = [] }
render_candidates kind_ok denies (r ∷ rs) =
    let rest = render_candidates kind_ok denies rs in
    if not kind_ok
    then record rest {
      diagnostics =
          record { rule_id = r.id; kind = unrenderable; reason = unsupported_kind }
          ∷ rest.diagnostics;
    }
    else if r.effect == codes "permit" && overlaps_any r.target denies
    then record rest {
      diagnostics =
          record { rule_id = r.id; kind = withheld; reason = overlapping_deny } ∷ rest.diagnostics;
    }
    else record rest {
      entries = record { rule_id = r.id; target = r.target; effect = r.effect } ∷ rest.entries;
    }

unfoldable pub render : List Rule → Reader → Text → RenderResult
render rules who harness_kind =
    let s = screen who rules in
    let rest = render_candidates (valid_kind harness_kind) s.withheld_deny_targets s.candidates in
    record rest { diagnostics = s.diagnostics ++ rest.diagnostics }
