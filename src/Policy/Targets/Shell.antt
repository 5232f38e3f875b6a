-- ===== src/Policy/Targets/Shell.antt =====
-- policy/decide.go: which commands a shell target matches.
use kei_connector_contracts.Prelude.{
  ◌≡◌, refl, sym, ap, subst, ◌↔◌, ◌⊎◌, inl, inr, Bool, true, false, List, [], ◌∷◌, ◌++◌, arith,
  Text, codes, ==_iff, ==_refl, ltb, eqb, if◌then◌else◌, Bool-cases, length,
}
use kei_connector_contracts.Strings.{has_suffix, fields}
use kei_connector_contracts.Strings.Laws.{has_prefix_iff}
use kei_connector_contracts.Policy.Targets.{tokens_match, shell_matches}

-- The tokens of a command begin with those of the pattern; where the pattern's last token ends in a
-- slash, the command's token at its place may go on.
abbrev pub IsCommand : List Text → List Text → Type 0
IsCommand ps ts =
    (leading : List Text) × ((last : Text) × ((token : Text) × ((rest : List Text) × (ps
            ≡ leading ++ last ∷ [])
          × (ts ≡ leading ++ token ∷ rest)
          × ((token ≡ last)
              ⊎ ((has_suffix last (codes "/") ≡ true)
                  × ((more : Text) × (token ≡ last ++ more)))))))

IsCommand-cons : (p : Text) (ps ts : List Text) → IsCommand ps ts → IsCommand (p ∷ ps) (p ∷ ts)
IsCommand-cons p ps ts (leading, (last, (token, (rest, e, f, c)))) =
    (p ∷ leading, (last, (token, (rest, ap (λ u. p ∷ u) e, ap (λ u. p ∷ u) f, c))))

tokens_sound :
    (p : Text) (ps ts : List Text) → tokens_match (p ∷ ps) ts ≡ true → IsCommand (p ∷ ps) ts
unfolding tokens_match
tokens_sound p ps [] h = absurd (cc)
tokens_sound p [] (t ∷ ts) h = elim (Bool-cases (has_suffix p (codes "/"))) [
  | inl y ↦ ([], (p, (t, (ts, refl, refl, inr (y, (has_prefix_iff t p).0 (ground arith))))))
  | inr n ↦ ([], (p, (t, (ts, refl, refl, inl ((==_iff t p).0 (ground arith))))))
]
tokens_sound p (q ∷ ps) (t ∷ ts) h =
    subst (λ u. IsCommand (p ∷ q ∷ ps) (u ∷ ts)) (sym ((==_iff t p).0 (ground arith)))
      (IsCommand-cons p (q ∷ ps) ts (tokens_sound q ps ts (ground arith)))

append_nil : (s : Text) → s ++ [] ≡ s
append_nil [] = refl
append_nil (c ∷ s) = ap (λ t. c ∷ t) (append_nil s)

tokens_complete :
    (leading : List Text) (last token : Text) (rest : List Text)
    → (token ≡ last)
      ⊎ ((has_suffix last (codes "/") ≡ true) × ((more : Text) × (token ≡ last ++ more)))
    → tokens_match (leading ++ last ∷ []) (leading ++ token ∷ rest) ≡ true
unfolding tokens_match
tokens_complete [] last token rest (inl e) =
    rw e (ground (arith, ==_refl last, (has_prefix_iff last last).1 ([], sym (append_nil last))))
tokens_complete [] last token rest (inr (y, (more, e))) =
    rw e (ground (arith, y, (has_prefix_iff (last ++ more) last).1 (more, refl)))
tokens_complete (p ∷ []) last token rest c =
    ground (arith, ==_refl p, tokens_complete [] last token rest c)
tokens_complete (p ∷ q ∷ leading) last token rest c =
    ground (arith, ==_refl p, tokens_complete (q ∷ leading) last token rest c)

-- A pattern with no token matches nothing, and a command is no shorter than its pattern.
shorter :
    (leading rest : List Text) (last token : Text)
    → ltb (length (leading ++ token ∷ rest)) (length (leading ++ last ∷ [])) ≡ false
shorter [] rest last token = ground arith
shorter (p ∷ leading) rest last token = ground (arith, shorter leading rest last token)

-- The tests of `shellMatches` on the tokens.
abbrev token_test : List Text → List Text → Bool
token_test ps ts =
    if eqb (length ps) 0
    then false
    else if ltb (length ts) (length ps)
    then false
    else tokens_match ps ts

nonempty : (leading : List Text) (last : Text) → eqb (length (leading ++ last ∷ [])) 0 ≡ false
nonempty [] last = ground arith
nonempty (p ∷ leading) last = ground arith

test_sound : (ps ts : List Text) → token_test ps ts ≡ true → IsCommand ps ts
test_sound [] ts h = absurd (cc)
test_sound (p ∷ ps) ts h = tokens_sound p ps ts (ground arith)

test_complete : (ps ts : List Text) → IsCommand ps ts → token_test ps ts ≡ true
test_complete ps ts (leading, (last, (t, (rest, e, f, c)))) =
    let m = tokens_complete leading last t rest c in
    let l = shorter leading rest last t in
    let n = nonempty leading last in
    subst (λ xs. token_test xs ts ≡ true) (sym e)
      (subst (λ ys. token_test (leading ++ last ∷ []) ys ≡ true) (sym f) (ground arith))

-- A shell pattern matches exactly the commands whose tokens begin with its tokens, the last of which
-- may go on where it ends in a slash.
pub shell_matches_iff :
    (pattern target : Text)
    → (shell_matches pattern target ≡ true) ↔ IsCommand (fields pattern) (fields target)
unfolding shell_matches
shell_matches_iff pattern target =
    (test_sound (fields pattern) (fields target), test_complete (fields pattern) (fields target))
