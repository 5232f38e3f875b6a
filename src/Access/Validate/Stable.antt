-- ===== src/Access/Validate/Stable.antt =====
-- access/access.go: validation leaves a document that it accepts again.
use kei_connector_contracts.Prelude.{
  ◌≡◌, refl, sym, ap, ap₂, subst, ◌∙◌, inl, inr, true, false, Option, none, some, List, [], ◌∷◌,
  arith, Text, ==_iff, ◌==◌, eqb, Bool-cases, Option-cases,
}
use kei_connector_contracts.Contract.Catalog.{is_one_of, valid_provider}
use kei_connector_contracts.Access.Types.{
  access_schema_version, kind_api, kind_cli, kind_mcp, McpMode, AccessMode, ProviderAccess,
  AccessError,
}
use kei_connector_contracts.Access.Checks.{with_resource, check_mcp, validate_mcp}
use kei_connector_contracts.Access.Validate.{
  blocks, check_kind, check_mcp_block, check_rest, validate_mode, validate_modes, validate,
}

with_resource_idem : (m : McpMode) → with_resource (with_resource m) ≡ with_resource m
unfolding with_resource
with_resource_idem m = ground (arith, ==_iff m.resource [], ==_iff m.url [])

check_mcp-with_resource : (m : McpMode) → check_mcp (with_resource m) ≡ check_mcp m
unfolding check_mcp with_resource
check_mcp-with_resource m = ground arith

mcp_stable : (m m' : McpMode) → validate_mcp m ≡ (m', none) → validate_mcp m' ≡ (m', none)
unfolding validate_mcp
mcp_stable m m' h = ground (arith, with_resource_idem m, check_mcp-with_resource m)

-- What the validation of a mode leaves: it is accepted again, of the same kind.
abbrev IsStable : (AccessMode → AccessMode × Option AccessError) → AccessMode → AccessMode → Type 0
IsStable check m m' = (check m' ≡ (m', none)) × (blocks m' ≡ blocks m) × (m'.kind ≡ m.kind)

abbrev with_mcp : AccessMode → McpMode → AccessMode
with_mcp m s = record m { mcp = some s }

mcp_block_at :
    (m : AccessMode) (s : McpMode)
    → m.mcp ≡ some s
    → (validate_mcp s).1 ≡ none
    → IsStable check_mcp_block m (with_mcp m (validate_mcp s).0)
unfolding check_mcp_block blocks
mcp_block_at m s e h =
    let again =
      mcp_stable s (validate_mcp s).0
        (ap (λ (o : Option AccessError). ((validate_mcp s).0, o)) h) in
    (ap (λ (r : McpMode × Option AccessError). (with_mcp m r.0, r.1)) again, rw e refl, refl)

mcp_block_lem :
    (m : AccessMode) (s : McpMode)
    → m.mcp ≡ some s
    → check_mcp_block m ≡ (with_mcp m (validate_mcp s).0, (validate_mcp s).1)
unfolding check_mcp_block
mcp_block_lem m s e = ground arith

mcp_block-IsStable :
    (m m' : AccessMode) → check_mcp_block m ≡ (m', none) → IsStable check_mcp_block m m'
unfolding check_mcp_block
mcp_block-IsStable m m' h = elim (Option-cases m.mcp) [
  | inl e ↦ absurd (ground arith)
  | inr (s, e) ↦
      let both = sym (mcp_block_lem m s e) ∙ h in
      let left = ap (λ (r : AccessMode × Option AccessError). r.0) both in
      let fine = ap (λ (r : AccessMode × Option AccessError). r.1) both in
      subst (IsStable check_mcp_block m) left (mcp_block_at m s e fine)
]

kind-IsStable :
    (provider : Text) (m m' : AccessMode)
    → check_kind provider m ≡ (m', none)
    → IsStable (check_kind provider) m m'
unfolding check_kind
kind-IsStable provider m m' h = elim (Bool-cases (m.kind == kind_mcp)) [
  | inl e ↦
      let k = (==_iff m.kind kind_mcp).0 e in
      let not_api : (m.kind == kind_api) ≡ false = ground (arith, ==_iff m.kind kind_api) in
      let not_cli : (m.kind == kind_cli) ≡ false = ground (arith, ==_iff m.kind kind_cli) in
      let block : check_mcp_block m ≡ (m', none) = ground arith in
      let (again, count, same) = mcp_block-IsStable m m' block in (ground arith, count, same)
  | inr e ↦
      let unchanged : m' ≡ m = ground arith in
      subst (λ n. IsStable (check_kind provider) m n) (sym unchanged)
        (h ∙ ap (λ (n : AccessMode). (n, none)) unchanged, refl, refl)
]

mode_stable :
    (provider : Text) (m m' : AccessMode)
    → validate_mode provider m ≡ (m', none)
    → (validate_mode provider m' ≡ (m', none)) × (m'.kind ≡ m.kind)
unfolding validate_mode
mode_stable provider m m' h =
    let one : eqb (blocks m) 1 ≡ true = ground arith in
    let left : (check_kind provider m).0 ≡ m' = ground arith in
    let fine : (check_kind provider m).1 ≡ none = ground arith in
    let rest : check_rest provider m' ≡ none = ground arith in
    let (again, count, same) =
      kind-IsStable provider m m'
        (ap₂ (λ (a : AccessMode) (b : Option AccessError). (a, b)) left fine) in
    (ground arith, same)

cons_accepts :
    (provider : Text) (seen : List Text) (m m' : AccessMode) (ms ms' : List AccessMode)
    → is_one_of seen m.kind ≡ false
    → validate_mode provider m ≡ (m', none)
    → validate_modes provider (m.kind ∷ seen) ms ≡ (ms', none)
    → validate_modes provider seen (m ∷ ms) ≡ (m' ∷ ms', none)
unfolding validate_modes
cons_accepts provider seen m m' ms ms' new e r = ground arith

modes_stable :
    (provider : Text) (seen : List Text) (ms ms' : List AccessMode)
    → validate_modes provider seen ms ≡ (ms', none)
    → validate_modes provider seen ms' ≡ (ms', none)
unfolding validate_modes
modes_stable provider seen [] ms' h = let e : ms' ≡ [] = ground arith in rw e refl
modes_stable provider seen (m ∷ ms) ms' h =
    let new : is_one_of seen m.kind ≡ false = ground arith in
    let one : (validate_mode provider m).1 ≡ none = ground arith in
    let more : (validate_modes provider (m.kind ∷ seen) ms).1 ≡ none = ground arith in
    let (again, same) =
      mode_stable provider m (validate_mode provider m).0
        (ap (λ (o : Option AccessError). ((validate_mode provider m).0, o)) one) in
    let rest =
      modes_stable provider (m.kind ∷ seen) ms (validate_modes provider (m.kind ∷ seen) ms).0 (
        ap (λ (o : Option AccessError). ((validate_modes provider (m.kind ∷ seen) ms).0, o))
          more) in
    let left : (validate_mode provider m).0 ∷ (validate_modes provider (m.kind ∷ seen) ms).0 ≡ ms' =
      ground arith in
    let new' = subst (λ (k : Text). is_one_of seen k ≡ false) (sym same) new in
    let ms'' = (validate_modes provider (m.kind ∷ seen) ms).0 in
    let rest' =
      subst (λ (k : Text). validate_modes provider (k ∷ seen) ms'' ≡ (ms'', none)) (sym same)
        rest in
    subst (λ (x : List AccessMode). validate_modes provider seen x ≡ (x, none)) left
      (cons_accepts provider seen (validate_mode provider m).0 (validate_mode provider m).0 ms''
        ms'' new' again rest')

-- A document that validation accepts is left in a form that it accepts again, unchanged.
pub validate-stable : (a b : ProviderAccess) → validate a ≡ (b, none) → validate b ≡ (b, none)
unfolding validate
validate-stable a b h =
    let named : (a.schema == access_schema_version) ≡ true = ground arith in
    let known : valid_provider a.provider ≡ true = ground arith in
    let fine : (validate_modes a.provider [] a.access).1 ≡ none = ground arith in
    let ms = (validate_modes a.provider [] a.access).0 in
    let left : record a { access = ms } ≡ b = ground arith in
    let again =
      modes_stable a.provider [] a.access ms (ap (λ (o : Option AccessError). (ms, o)) fine) in
    subst (λ (x : ProviderAccess). validate x ≡ (x, none)) left (ground arith)
