-- ===== src/Policy/Tests.antt =====
-- Rules, grants and patterns at concrete inputs.
use kei_connector_contracts.Prelude.{
  ◌≤◌, ◌<◌, ◌≡◌, refl, sym, ap, subst, ◌∙◌, ◌≢◌, ◌↔◌, inl, inr, true, false, none, List, [], ◌∷◌,
  arith, Text, codes, ◌==◌, any, all, keep, find, In, pos, int_lt, ok,
}
use kei_connector_contracts.Strings.{
  has_prefix, cut_prefix, trim_prefix, has_suffix, cut_suffix, cut, contains, contains_any, split,
  fields, fields_from, is_space, last_index, lower, equal_fold, text_lt,
}
use kei_connector_contracts.Sort.{sort, insert}
use kei_connector_contracts.HarnessMatch.Kinds.{valid_kind}
use kei_connector_contracts.Policy.Parse.{parse_target, is_listed, target_of}
use kei_connector_contracts.Policy.Typed.{
  TypedTarget, validate_target, validate_caps, cap_pattern, is_alnum, is_cap_byte, target_pattern,
  target_from_pattern, validate_grant, validate_value,
}
use kei_connector_contracts.Policy.Typed.RoundTrip.{target_pattern-parse}
use kei_connector_contracts.Policy.Principals.{
  match_principal, matches_input, matches_group, matches_scheme_wildcard, scheme_wildcard,
  matches_email_domain, email_in_domain,
}
use kei_connector_contracts.Policy.Targets.{
  target_matches, wildcard_matches, shell_matches, tokens_match, connector_matches, segments_match,
}
use kei_connector_contracts.Policy.Decide.{
  Rule, Request, when_matches, precedence, precedes, applies, matched, conclude, decide,
}
use kei_connector_contracts.Policy.Decide.Laws.{decide_deny, decide_permit}
use kei_connector_contracts.Policy.Decide.Order.{decide_order, SameRules, HasUniqueIds}
use kei_connector_contracts.Policy.Grants.{AccessGrant, grant_matches, decide_at}
use kei_connector_contracts.Policy.Grants.Laws.{decide_at_permit}
use kei_connector_contracts.Policy.Render.{
  RenderEntry, Reader, reads, screen, render_candidates, render, with_deny,
}
use kei_connector_contracts.Policy.Render.Overlap.{
  shells_overlap, prefix_equal, is_open, targets_overlap, overlaps_any, wildcard_covers,
  same_scheme_overlap, values_overlap,
}
use kei_connector_contracts.Policy.Render.Laws.{render_sound, IsFaithful}

abbrev rule : Text → Text → Text → Text → Rule
rule id principal target effect = record {
  id = id;
  principal = principal;
  target = target;
  effect = effect;
  priority = pos 0;
  enabled = true;
  condition = record { harness = [] };
}

abbrev permit_git : Rule
permit_git = rule (codes "r1") (codes "group:dev") (codes "shell:git") (codes "permit")

abbrev deny_push : Rule
deny_push = rule (codes "r2") (codes "*") (codes "shell:git push") (codes "deny")

abbrev ask : Text → Request
ask target = record {
  user = codes "ann";
  email = codes "ann@kei.dev";
  groups = codes "dev" ∷ [];
  target = target;
  harness = [];
}

abbrev both : List Rule
both = permit_git ∷ deny_push ∷ []

-- Everything that a decision computes with, opened at once.
deciding : Unit {0}
unfolding decide conclude matched applies when_matches precedes precedence int_lt sort insert keep
    find any all match_principal matches_input matches_group matches_scheme_wildcard scheme_wildcard
    matches_email_domain email_in_domain target_matches wildcard_matches shell_matches tokens_match
    connector_matches segments_match has_prefix cut_prefix trim_prefix has_suffix cut_suffix cut
    contains contains_any split fields fields_from is_space last_index lower equal_fold text_lt ◌==◌
deciding = tt

push_denied : applies (ask (codes "shell:git push")) deny_push ≡ true
unfolding deciding
push_denied = refl

decide_deny_example : (decide both (ask (codes "shell:git push"))).decision ≡ codes "deny"
decide_deny_example =
    decide_deny both (ask (codes "shell:git push")) deny_push (inr (inl refl)) push_denied refl

status_permitted : (decide both (ask (codes "shell:git status"))).decision ≡ codes "permit"
unfolding deciding
status_permitted = refl

decide_permit_example :
    ((r : Rule) × In r both
      × (applies (ask (codes "shell:git status")) r ≡ true)
      × (r.effect ≡ codes "permit")
      × (r.id ≡ (decide both (ask (codes "shell:git status"))).decided_by))
    × ((r : Rule)
        → In r both
        → applies (ask (codes "shell:git status")) r ≡ true
        → r.effect ≢ codes "deny")
decide_permit_example = decide_permit both (ask (codes "shell:git status")) status_permitted

ls_unmatched : (r : Rule) → In r both → applies (ask (codes "shell:ls")) r ≡ false
unfolding deciding
ls_unmatched r (inl e) = rw e refl
ls_unmatched r (inr (inl e)) = rw e refl
ls_unmatched r (inr (inr m)) = absurd m

-- The deny decides, and the permit that applies too is outranked.
push_decision : decide both (ask (codes "shell:git push")) ≡ record {
  decision = codes "deny";
  reason = [];
  decided_by = codes "r2";
  outranked = codes "r1" ∷ [];
}
unfolding deciding
push_decision = refl

swapped : SameRules both (deny_push ∷ permit_git ∷ [])
swapped r = (λ m. ground arith, λ m. ground arith)

both-HasUniqueIds : HasUniqueIds both
both-HasUniqueIds a b (inl e) (inl f) h = e ∙ sym f
both-HasUniqueIds a b (inl e) (inr (inl f)) h =
    absurd (ids (sym (ap (λ (r : Rule). r.id) e) ∙ h ∙ ap (λ (r : Rule). r.id) f))
  where
    ids : codes "r1" ≡ codes "r2" → ⊥
    ids e = ground arith
both-HasUniqueIds a b (inr (inl e)) (inl f) h =
    absurd (ids (sym (ap (λ (r : Rule). r.id) e) ∙ h ∙ ap (λ (r : Rule). r.id) f))
  where
    ids : codes "r2" ≡ codes "r1" → ⊥
    ids e = ground arith
both-HasUniqueIds a b (inr (inl e)) (inr (inl f)) h = e ∙ sym f
both-HasUniqueIds a b (inr (inr m)) n h = absurd m
both-HasUniqueIds a b (inl e) (inr (inr n)) h = absurd n
both-HasUniqueIds a b (inr (inl e)) (inr (inr n)) h = absurd n

decide_order_example :
    ((decide both (ask (codes "shell:git push"))).decision
      ≡ (decide (deny_push ∷ permit_git ∷ []) (ask (codes "shell:git push"))).decision)
    × ((decide both (ask (codes "shell:git push"))).decided_by
        ≡ (decide (deny_push ∷ permit_git ∷ []) (ask (codes "shell:git push"))).decided_by)
decide_order_example =
    decide_order both (deny_push ∷ permit_git ∷ []) (ask (codes "shell:git push")) swapped
      both-HasUniqueIds

abbrev ls_grant : AccessGrant
ls_grant = record {
  principal = codes "email:ann@kei.dev";
  target = codes "shell:ls";
  expire_time = 100;
}

expired_at_200 :
    (g : AccessGrant)
    → In g (ls_grant ∷ [])
    → grant_matches (ask (codes "shell:ls")) g ≡ true
    → g.expire_time ≤ 200
expired_at_200 g (inl e) h = rw e (omega arith)
expired_at_200 g (inr m) h = absurd m

abbrev github : TypedTarget
github = record {
  kind = codes "connector";
  value = codes "github.repos.*";
  caps = codes "repos:read" ∷ [];
}

github_valid : validate_target github ≡ none
unfolding deciding validate_target validate_caps cap_pattern is_alnum is_cap_byte is_listed
github_valid = refl

github_parsed :
    target_from_pattern (codes "connector:github.*")
    ≡ ok (record { kind = codes "connector"; value = codes "github.*"; caps = [] })
unfolding deciding target_from_pattern parse_target target_of is_listed
github_parsed = refl

target_pattern-parse_example :
    (target_pattern (record { kind = codes "connector"; value = codes "github.*"; caps = [] })
      ≡ codes "connector:github.*")
    × (validate_target (record { kind = codes "connector"; value = codes "github.*"; caps = [] })
        ≡ none)
target_pattern-parse_example =
    target_pattern-parse (codes "connector:github.*")
      (record { kind = codes "connector"; value = codes "github.*"; caps = [] }) github_parsed

ann_valid : validate_grant (record { kind = codes "email"; value = codes "ann@kei.dev" }) ≡ none
unfolding deciding validate_grant validate_value is_listed
ann_valid = refl

abbrev ann : Reader
ann = record { user = codes "ann"; email = codes "ann@kei.dev"; groups = codes "dev" ∷ [] }

abbrev git_entry : RenderEntry
git_entry = record { rule_id = codes "r1"; target = codes "shell:git"; effect = codes "permit" }

git_rendered :
    (render both ann (codes "pi")).entries
    ≡ git_entry
      ∷ record { rule_id = codes "r2"; target = codes "shell:git push"; effect = codes "deny" }
      ∷ []
unfolding deciding render screen render_candidates reads with_deny overlaps_any targets_overlap
    valid_kind
git_rendered = refl

git_listed : In git_entry (render both ann (codes "pi")).entries
git_listed = subst (In git_entry) (sym git_rendered) (inl refl)

render_sound_example : IsFaithful both ann (codes "pi") git_entry
render_sound_example = render_sound both ann (codes "pi") git_entry git_listed

-- Two connector patterns that match one target and are not taken to overlap.
connector_overlap :
    (targets_overlap (codes "connector:github.*") (codes "connector:github.repos.delete") ≡ false)
    × (target_matches (codes "connector:github.*") (codes "connector:github.repos.delete") ≡ true)
unfolding deciding targets_overlap wildcard_covers same_scheme_overlap values_overlap
connector_overlap = (refl, refl)

-- A trailing slash lets the last token go on, and only the last one.
slash_prefixes :
    (shell_matches (codes "git push /tmp/") (codes "git push /tmp/x -f") ≡ true)
    × (shell_matches (codes "git/ push") (codes "git/x push") ≡ false)
unfolding deciding
slash_prefixes = (refl, refl)

-- The same of two shell patterns, of which one goes on after its slash.
shell_overlap :
    (targets_overlap (codes "shell:rm /tmp/") (codes "shell:rm /tmp/a") ≡ false)
    × (target_matches (codes "shell:rm /tmp/") (codes "shell:rm /tmp/a") ≡ true)
unfolding deciding targets_overlap wildcard_covers same_scheme_overlap values_overlap shells_overlap
    prefix_equal is_open
shell_overlap = (refl, refl)

decide_at_permit_example :
    ((decide_at both (ask (codes "shell:ls")) (ls_grant ∷ []) 50).decision ≡ codes "permit") ↔ (
      (g : AccessGrant) × In g (ls_grant ∷ [])
      × (grant_matches (ask (codes "shell:ls")) g ≡ true)
      × (50 < g.expire_time))
decide_at_permit_example =
    decide_at_permit both (ask (codes "shell:ls")) (ls_grant ∷ []) 50 ls_unmatched
