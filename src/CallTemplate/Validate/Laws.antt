-- ===== src/CallTemplate/Validate/Laws.antt =====
-- calltemplate/calltemplate.go: which templates are accepted.
use kei_connector_contracts.Prelude.{
  ◌≡◌, refl, ap, subst, ◌≢◌, ◌↔◌, inl, inr, Bool, true, false, not, some, List, [], ◌∷◌, ◌++◌, map,
  arith, Text, codes, ==_iff, ◌==◌, Bool-cases, Option-cases, All, In, IsDistinct, IsNew,
  IsNew-cons, IsNew-head, IsNew-add, ok,
}
use kei_connector_contracts.Contract.Catalog.{is_one_of, entry_of}
use kei_connector_contracts.Contract.Catalog.Laws.{is_one_of_iff, entry_of_In}
use kei_connector_contracts.CallTemplate.Secrets.Clean.{append-eq-nil, IsClean}
use kei_connector_contracts.CallTemplate.Types.{
  Arg, Transport, Binding, Template, RawTemplate, TemplateError, unbound_placeholder,
  duplicate_name, bad_method, no_url,
}
use kei_connector_contracts.CallTemplate.Validate.{
  accepted, methods, when, each, placeholders, is_path_arg, validate_arg, validate_auth,
  validate_transport, validate, parse_entries, parse,
}

-- Each entry decodes to its template, which has no error.
abbrev pub Accepted : List RawTemplate → List Template → Type 0
Accepted [] [] = Unit {0}
Accepted (raw ∷ raws) (t ∷ ts) = ((raw.decoded ≡ some t) × (validate t raw ≡ [])) × Accepted raws ts
Accepted _ _ = ⊥

abbrev pub names : List Template → List Text
names ts = map (λ (t : Template). t.name) ts

when-eq-nil : (b : Bool) (e : TemplateError) → (when b e ≡ []) ↔ (b ≡ false)
when-eq-nil true e = (λ h. cc, λ h. cc)
when-eq-nil false e = (λ h. refl, λ h. refl)

entries_sound :
    (seen : List Text) (raws : List RawTemplate) (ts : List Template)
    → parse_entries seen raws ≡ ([], ts)
    → Accepted raws ts × IsDistinct (names ts) × IsNew seen (names ts)
unfolding parse_entries
entries_sound seen [] ts h = let e : ts ≡ [] = ground arith in rw e (tt, tt, tt)
entries_sound seen (raw ∷ raws) ts h = elim (Option-cases raw.decoded) [
  | inl e ↦ absurd (ground arith)
  | inr (t, e) ↦
      let us = (parse_entries (t.name ∷ seen) raws).1 in
      let errors : (validate t raw
            ++ (when (is_one_of seen t.name) duplicate_name
                ++ (parse_entries (t.name ∷ seen) raws).0))
          ≡ [] =
        ground arith in
      let (valid, rest) = (append-eq-nil (validate t raw) _).0 errors in
      let (once, more) = (append-eq-nil (when (is_one_of seen t.name) duplicate_name) _).0 rest in
      let fresh = (when-eq-nil (is_one_of seen t.name) duplicate_name).0 once in
      let left : t ∷ us ≡ ts = ground arith in
      let (a, d, n) =
        entries_sound (t.name ∷ seen) raws us (ap (λ (es : List TemplateError). (es, us)) more) in
      subst
        (λ (x : List Template).
          Accepted (raw ∷ raws) x × IsDistinct (names x) × IsNew seen (names x))
        left
        (
          ((e, valid), a),
          (IsNew-head t.name seen (names us) n, d),
          (
            λ i. let listed = (is_one_of_iff seen t.name).1 i in cc,
            IsNew-cons t.name seen (names us) n,
          ),
        )
]

entries_complete :
    (seen : List Text) (raws : List RawTemplate) (ts : List Template)
    → Accepted raws ts
    → IsDistinct (names ts)
    → IsNew seen (names ts)
    → parse_entries seen raws ≡ ([], ts)
unfolding parse_entries
entries_complete seen [] [] a d n = refl
entries_complete seen [] (t ∷ ts) a d n = absurd a
entries_complete seen (raw ∷ raws) [] a d n = absurd a
entries_complete seen (raw ∷ raws) (t ∷ ts) ((e, v), a) (u, d) (n, ns) =
    let rest =
      entries_complete (t.name ∷ seen) raws ts a d (IsNew-add t.name seen (names ts) u ns) in
    elim (Bool-cases (is_one_of seen t.name)) [
      | inl f ↦ absurd (n ((is_one_of_iff seen t.name).0 f))
      | inr f ↦ ground arith
    ]

accepted_lem :
    (p : List TemplateError × List Template) (ts : List Template)
    → accepted p ≡ ok ts
    → p ≡ ([], ts)
accepted_lem ([], us) ts h = ap (λ (x : List Template). ([], x)) (ground arith)
accepted_lem (e ∷ es, us) ts h = cc

none_seen : (ns : List Text) → IsNew [] ns
none_seen [] = tt
none_seen (n ∷ ns) = (λ i. absurd i, none_seen ns)

-- `Parse` accepts exactly the arrays of at least one entry whose entries each decode and have no
-- error and whose names differ, and gives the templates in their order.
pub parse_iff :
    (raws : List RawTemplate) (ts : List Template)
    → (parse (some raws) ≡ ok ts) ↔ ((raws ≢ []) × Accepted raws ts × IsDistinct (names ts))
unfolding parse
parse_iff [] ts = (λ h. absurd (ground arith), λ (n, a, d). absurd (n refl))
parse_iff (raw ∷ raws) ts = (
  λ h.
      let clean : (parse_entries [] (raw ∷ raws)) ≡ ([], ts) =
        accepted_lem (parse_entries [] (raw ∷ raws)) ts h in
      let (a, d, n) = entries_sound [] (raw ∷ raws) ts clean in (λ e. cc, a, d),
  λ (n, a, d). rw (entries_complete [] (raw ∷ raws) ts a d (none_seen (names ts))) refl,
)

-- A placeholder of the URL is an argument of the path.
abbrev pub IsBoundBy : List (Text × Arg) → Text → Type 0
IsBoundBy args p = (a : Arg) × In (p, a) args × (a.location ≡ codes "path")

bound_lem : (args : List (Text × Arg)) (p : Text) → is_path_arg args p ≡ true → IsBoundBy args p
unfolding is_path_arg
bound_lem args p h = elim (Option-cases (entry_of args p)) [
  | inl e ↦ absurd (ground arith)
  | inr (a, e) ↦ (a, entry_of_In args p a e, (==_iff a.location (codes "path")).0 (ground arith))
]

all_bound :
    (args : List (Text × Arg)) (ps : List Text)
    → each (λ p. when (not (is_path_arg args p)) (unbound_placeholder p)) ps ≡ []
    → All (IsBoundBy args) ps
unfolding each
all_bound args [] h = tt
all_bound args (p ∷ ps) h =
    let (q, r) = (append-eq-nil (when (not (is_path_arg args p)) (unbound_placeholder p)) _).0 h in
    (bound_lem args p (ground arith), all_bound args ps r)

last_of : (a b c d e : List TemplateError) → (a ++ (b ++ (c ++ (d ++ e)))) ≡ [] → e ≡ []
last_of a b c d e h =
    let (p, q) = (append-eq-nil a _).0 h in
    let (p', q') = (append-eq-nil b _).0 q in
    let (r, s) = (append-eq-nil c _).0 q' in ((append-eq-nil d e).0 s).1

-- Each placeholder of the URL of a transport without errors is bound by an argument of the path.
pub validate_transport-IsBoundBy :
    (way : Transport)
    → validate_transport way ≡ []
    → All (IsBoundBy way.args) (placeholders way.url_template)
unfolding validate_transport
validate_transport-IsBoundBy way h = all_bound way.args (placeholders way.url_template) (
    last_of (when (not (is_one_of methods way.method)) bad_method)
      (when (way.url_template == []) no_url) (validate_auth way.auth) (each validate_arg way.args) _
      h)

-- What holds of a template without errors, and of the tree that it was decoded from.
pub record IsSafe (t : Template) (raw : RawTemplate) : Type 0 where
  pub bound :
      (b : Binding) (way : Transport)
      → t.binding ≡ some b
      → b.transport ≡ some way
      → All (IsBoundBy way.args) (placeholders way.url_template)
  pub clean : IsClean raw.tree
