-- ===== src/HarnessMatch/Evaluate/Laws.antt =====
-- harnessmatch/harnessmatch.go: which policy decides a harness call.
use kei_connector_contracts.Prelude.{
  ℕ, suc, ◌≡◌, refl, sym, ap, subst, ◌∙◌, ◌≢◌, inl, inr, Bool, true, false, not, ◌&&◌, ◌||◌, Option,
  none, some, List, [], ◌∷◌, arith, Text, codes, ==_iff, ◌==◌, find, ltb, Option-cases, In, length,
  find_sound,
}
use kei_connector_contracts.Strings.{has_prefix}
use kei_connector_contracts.HarnessMatch.Match.{Call, Policy, match_src, match_dst}
use kei_connector_contracts.HarnessMatch.Evaluate.{
  Outcome, Result, KindSet, permit, unmatched, no_reason, scope_ok, shell_permit_rejected, verdict,
  walk, decides_via_pdp, path_refused, evaluate_with,
}

-- A policy that is not passed over: all its guards in one test.
abbrev pub bears : Call → Policy → Bool
bears call p =
    p.enabled
    && scope_ok p.scope call
    && (p.action == codes "permit" || p.action == codes "deny")
    && (match_dst p.dst call).matched
    && not (shell_permit_rejected call p)
    && ((match_src p.src call).applies || (match_src p.src call).human)

abbrev pub first_verdict : Call → Option Policy → Result
first_verdict call none = record { outcome = unmatched; policy_id = []; reason = no_reason }
first_verdict call (some p) = verdict call p

-- The walk gives the verdict of the first policy that bears on the call.
pub walk-first :
    (call : Call) (policies : List Policy)
    → walk call policies ≡ first_verdict call (find (bears call) policies)
unfolding walk find
walk-first call [] = refl
walk-first call (p ∷ ps) = ground (arith, walk-first call ps)

walk_permit :
    (call : Call) (policies : List Policy)
    → (walk call policies).outcome ≡ permit
    → (p : Policy) × In p policies × (bears call p ≡ true) × (verdict call p ≡ walk call policies)
walk_permit call policies h = elim (Option-cases (find (bears call) policies)) [
  | inl e ↦ absurd (
      nothing (
        subst (λ (r : Result). r.outcome ≡ permit)
          (walk-first call policies ∙ ap (first_verdict call) e) h))
  | inr (p, e) ↦
      let (m, b) = find_sound (bears call) policies p e in
      (p, m, b, sym (walk-first call policies ∙ ap (first_verdict call) e))
]
  where
    nothing : ◌≡◌ {A = Outcome} unmatched permit → ⊥
    nothing e = cc

bears_permit :
    (call : Call) (p : Policy)
    → bears call p ≡ true
    → (verdict call p).outcome ≡ permit
    → (p.id ≡ (verdict call p).policy_id)
      × (p.enabled ≡ true)
      × (scope_ok p.scope call ≡ true)
      × (p.action ≡ codes "permit")
      × ((match_dst p.dst call).matched ≡ true)
      × ((match_src p.src call).applies ≡ true)
      × (shell_permit_rejected call p ≡ false)
unfolding verdict
bears_permit call p b h =
    ground (arith, ==_iff p.action (codes "permit"), ==_iff p.action (codes "deny"))

shell_permit_accepted :
    (call : Call) (p : Policy)
    → shell_permit_rejected call p ≡ false
    → p.action ≡ codes "permit"
    → call.argv ≢ []
    → (has_prefix p.dst (codes "shell:") ≡ true) × (p.dst ≢ codes "shell:*")
unfolding shell_permit_rejected
shell_permit_accepted call p r a n = go call.argv refl
  where
    go :
        (argv : List Text)
        → call.argv ≡ argv
        → (has_prefix p.dst (codes "shell:") ≡ true) × (p.dst ≢ codes "shell:*")
    go [] e = absurd (n e)
    go (x ∷ xs) e =
        let pos : ltb 0 (length call.argv) ≡ true = rw e (positive (length xs)) in
        (
          ground (arith, (==_iff p.action (codes "permit")).1 a),
          λ w.
              ground (
                arith,
                (==_iff p.action (codes "permit")).1 a,
                (==_iff p.dst (codes "shell:*")).1 w,
              ),
        )
      where
        positive : (n : ℕ) → ltb 0 (suc n) ≡ true
        positive n = ground arith

pub evaluate_with-walk :
    (call : Call) (policies : List Policy) (kinds : KindSet)
    → (evaluate_with call policies kinds).outcome ≡ permit
    → (kinds.known call.kind ≡ true)
      × (decides_via_pdp kinds call.kind ≡ false)
      × (path_refused call.path ≡ false)
      × (evaluate_with call policies kinds ≡ walk call policies)
unfolding evaluate_with
evaluate_with-walk call policies kinds h = ground arith

-- What a permitted harness call has shown.
abbrev pub IsPermitted : Call → List Policy → KindSet → Type 0
IsPermitted call policies kinds =
    (kinds.known call.kind ≡ true)
    × (decides_via_pdp kinds call.kind ≡ false)
    × (path_refused call.path ≡ false)
    × ((p : Policy) × In p policies
        × (p.id ≡ (evaluate_with call policies kinds).policy_id)
        × (p.enabled ≡ true)
        × (scope_ok p.scope call ≡ true)
        × (p.action ≡ codes "permit")
        × ((match_dst p.dst call).matched ≡ true)
        × ((match_src p.src call).applies ≡ true)
        × (call.argv ≢ [] → (has_prefix p.dst (codes "shell:") ≡ true) × (p.dst ≢ codes "shell:*")))

-- A call is permitted only for a known kind that does not decide through the local decision point,
-- at a clean absolute path if it has one, by a listed policy that is enabled, in scope and a
-- permit, whose source and destination match; and a shell call only by a `shell:` prefix that is
-- not the wildcard.
pub evaluate_with_permit :
    (call : Call) (policies : List Policy) (kinds : KindSet)
    → (evaluate_with call policies kinds).outcome ≡ permit
    → IsPermitted call policies kinds
evaluate_with_permit call policies kinds h =
    let (known, local, path, e) = evaluate_with-walk call policies kinds h in
    let (p, m, b, v) = walk_permit call policies (subst (λ (r : Result). r.outcome ≡ permit) e h) in
    let (id, on, scope, action, dst, src, shell) =
      bears_permit call p b (subst (λ (r : Result). r.outcome ≡ permit) (e ∙ sym v) h) in
    (
      known,
      local,
      path,
      (
        p,
        m,
        id ∙ ap (λ (r : Result). r.policy_id) (v ∙ sym e),
        on,
        scope,
        action,
        dst,
        src,
        shell_permit_accepted call p shell action,
      ),
    )
