-- ===== src/HarnessMatch/Evaluate.antt =====
-- harnessmatch/harnessmatch.go: the first policy whose source and destination match decides.

pub mod Laws
use kei_connector_contracts.Prelude.{
  ℕ, zero, suc, ◌+◌, ◌-◌, ◌*◌, ◌≤◌, ◌<◌, String, ◌≡◌, refl, sym, ap, ap₂, subst, ◌∙◌, ◌≢◌, ◌↔◌, ◌⊎◌,
  inl, inr, Bool, true, false, not, ◌&&◌, ◌||◌, Option, none, some, List, [], ◌∷◌, ◌++◌, map,
  reverse, arith, Text, codes, ==_iff, ==_refl, ◌==◌, any, all, keep, find, ltb, leb, eqb,
  if◌then◌else◌, eqb_iff, Bool-cases, Option-cases, &&-eq-true, All, In, All_at, length, take, drop,
  length-append, In-append, In-keep, keep-In, any_iff, any_none, all_at, find_sound, find_complete,
  ℤ, pos, negsuc, int_lt, int_eq, Try, ok, err, ◌>>=◌,
}
use kei_connector_contracts.Strings.{has_prefix}
use kei_connector_contracts.HarnessMatch.Kinds.{valid_kind, calls_pdp}
use kei_connector_contracts.HarnessMatch.Paths.{is_abs, clean_abs}
use kei_connector_contracts.HarnessMatch.Match.{
  Call, Policy, SrcMatch, DstMatch, match_src, match_dst,
}

pub data Outcome : Type 0 where
  permit deny unmatched not_renderable : Outcome

-- `no_reason` stands for the empty reason.
pub data Reason : Type 0 where
  no_reason : Reason
  unsupported_kind path_not_absolute bundle_invalid human_source : Reason
  dst_not_renderable evaluate_via_pdp : Reason

pub record Result : Type 0 where
  pub outcome : Outcome
  pub policy_id : Text
  pub reason : Reason

-- `via_pdp` is `none` where the Go field is nil.
pub record KindSet : Type 0 where
  pub known : Text → Bool
  pub via_pdp : Option (Text → Bool)

abbrev refused : Reason → Result
refused reason = record { outcome = not_renderable; policy_id = []; reason = reason }

unfoldable pub scope_ok : Option Text → Call → Bool
scope_ok none call = true
scope_ok (some agent) call = agent == call.agent_id

-- A permit on a shell call counts only with a `shell:` prefix that is not the wildcard.
unfoldable pub shell_permit_rejected : Call → Policy → Bool
shell_permit_rejected call p =
    ltb 0 (length call.argv)
    && p.action == codes "permit"
    && (not (has_prefix p.dst (codes "shell:")) || p.dst == codes "shell:*")

-- The result of a policy that is not passed over.
unfoldable pub verdict : Call → Policy → Result
verdict call p =
    if (match_src p.src call).human
    then record { outcome = not_renderable; policy_id = p.id; reason = human_source }
    else if not (match_dst p.dst call).renderable
    then record { outcome = not_renderable; policy_id = p.id; reason = dst_not_renderable }
    else if p.action == codes "deny"
    then record { outcome = deny; policy_id = p.id; reason = no_reason }
    else record { outcome = permit; policy_id = p.id; reason = no_reason }

-- The loop over the policies: each `continue` takes the rest of the list.
unfoldable pub walk : Call → List Policy → Result
walk call [] = record { outcome = unmatched; policy_id = []; reason = no_reason }
walk call (p ∷ ps) =
    let rest = walk call ps in
    if not p.enabled
    then rest
    else if not (scope_ok p.scope call)
    then rest
    else if not (p.action == codes "permit") && not (p.action == codes "deny")
    then rest
    else if not (match_dst p.dst call).matched
    then rest
    else if shell_permit_rejected call p
    then rest
    else if not (match_src p.src call).applies && not (match_src p.src call).human
    then rest
    else verdict call p

unfoldable pub decides_via_pdp : KindSet → Text → Bool
decides_via_pdp kinds kind = elim kinds.via_pdp [ none ↦ calls_pdp kind | some via ↦ via kind ]

unfoldable pub path_refused : Text → Bool
path_refused path = not (path == []) && (not (is_abs path) || not (clean_abs path == path))

unfoldable pub evaluate_with : Call → List Policy → KindSet → Result
evaluate_with call policies kinds =
    if not (kinds.known call.kind)
    then refused unsupported_kind
    else if decides_via_pdp kinds call.kind
    then refused evaluate_via_pdp
    else if path_refused call.path
    then refused path_not_absolute
    else walk call policies

unfoldable pub evaluate : Call → List Policy → Result
evaluate call policies = evaluate_with call policies (record { known = valid_kind; via_pdp = none })
