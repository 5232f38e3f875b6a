-- ===== src/AuthorizeRequest/Laws.antt =====
-- authorizerequest/request.go: which requests are valid.
use kei_connector_contracts.Prelude.{
  ◌≡◌, refl, ◌≢◌, ◌↔◌, ◌⊎◌, inl, inr, true, false, not, Option, none, some, [], arith, Text, codes,
  ==_iff, ◌==◌, if◌then◌else◌,
}
use kei_connector_contracts.AuthorizeRequest.{
  Connector, Caller, Request, request_schema, harness_pattern, session_ref_pattern, absent_or,
  is_origin, validate_caller, has_connector, incomplete, validate,
}

-- A tool and no connector, or a complete connector and no tool.
abbrev pub NamesOne : Text → Option Connector → Type 0
NamesOne tool none = tool ≢ []
NamesOne tool (some c) = (tool ≡ []) × (c.connector_id ≢ []) × (c.capability ≢ [])

-- The fields of the caller that were sent have the form of a label, an origin and a reference.
abbrev pub IsKnownCaller : Option Caller → Type 0
IsKnownCaller none = Unit {0}
IsKnownCaller (some c) =
    (absent_or harness_pattern c.harness ≡ true)
    × ((o : Text) → c.origin ≡ some o → (o ≡ codes "interactive") ⊎ (o ≡ codes "automation"))
    × (absent_or session_ref_pattern c.session_ref ≡ true)

pub record IsWellFormed (r : Request) : Type 0 where
  pub schema : r.schema ≡ request_schema
  pub names_one : NamesOne r.tool r.connector
  pub caller : IsKnownCaller r.caller

origin_iff :
    (origin : Option Text)
    → (absent_or is_origin origin ≡ true)
      ↔ ((o : Text) → origin ≡ some o → (o ≡ codes "interactive") ⊎ (o ≡ codes "automation"))
unfolding absent_or is_origin
origin_iff none = (λ h o e. absurd (cc), λ f. refl)
origin_iff (some t) = (
  λ h o e. ground (arith, ==_iff t (codes "interactive"), ==_iff t (codes "automation")),
  λ f. elim (f t refl) [
    | inl e ↦ ground (arith, (==_iff t (codes "interactive")).1 e)
    | inr e ↦ ground (arith, (==_iff t (codes "automation")).1 e)
  ],
)

caller_iff :
    (c : Option Caller)
    → (elim c [ none ↦ none | some c ↦ validate_caller c ] ≡ none) ↔ IsKnownCaller c
unfolding validate_caller
caller_iff none = (λ h. tt, λ k. refl)
caller_iff (some c) = (
  λ h. (ground arith, (origin_iff c.origin).0 (ground arith), ground arith),
  λ (a, o, s). let i = (origin_iff c.origin).1 o in ground arith,
)

names_iff :
    (tool : Text) (c : Option Connector)
    → (((if tool == [] then not (has_connector c) else has_connector c) ≡ false)
        × (incomplete c ≡ false))
      ↔ NamesOne tool c
unfolding has_connector incomplete
names_iff tool none =
    (λ (h, i) e. ground (arith, (==_iff tool []).1 e), λ n. (ground (arith, ==_iff tool []), refl))
names_iff tool (some c) = (
  λ (h, i). (
    ground (arith, ==_iff tool []),
    λ e. ground (arith, (==_iff c.connector_id []).1 e),
    λ e. ground (arith, (==_iff c.capability []).1 e),
  ),
  λ (e, a, b). (
    ground (arith, (==_iff tool []).1 e),
    ground (arith, ==_iff c.connector_id [], ==_iff c.capability []),
  ),
)

-- A request is valid exactly if it has the schema, names a tool or a complete connector and not
-- both, and what it says of its caller is well formed.
pub validate_iff : (r : Request) → (validate r ≡ none) ↔ IsWellFormed r
unfolding validate
validate_iff r = (
  λ h. record {
    schema = ground (arith, ==_iff r.schema request_schema);
    names_one = (names_iff r.tool r.connector).0 (ground arith, ground arith);
    caller = (caller_iff r.caller).0 (ground arith);
  },
  λ w.
      let s = (==_iff r.schema request_schema).1 w.schema in
      let (one, full) = (names_iff r.tool r.connector).1 w.names_one in
      let c = (caller_iff r.caller).1 w.caller in ground arith,
)
