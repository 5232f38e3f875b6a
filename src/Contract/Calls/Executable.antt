-- ===== src/Contract/Calls/Executable.antt =====
-- contract/contract.go: an executed call is one that the runtime has code for.
use kei_connector_contracts.Prelude.{
  ◌≡◌, refl, sym, ◌∙◌, inl, inr, Bool, true, not, ◌&&◌, ◌||◌, none, List, [], ◌∷◌, arith, Text,
  ==_iff, ◌==◌, any, all, Option-cases, &&-eq-true, In, any_iff, all_at,
}
use kei_connector_contracts.Contract.Types.{Capability, Metadata, Invocation}
use kei_connector_contracts.Contract.Names.Provider
use kei_connector_contracts.Contract.Names.Action
use kei_connector_contracts.Contract.Catalog.{
  is_one_of, entry_of, definitions, capabilities_for, defined_capability,
}
use kei_connector_contracts.Contract.Catalog.Laws.{is_one_of_iff, entry_of_In}
use kei_connector_contracts.Contract.Calls.{validate_executable, validate_call}
use kei_connector_contracts.Contract.Calls.Laws.{validate_call_parts, validate_call-authorize_call}
use kei_connector_contracts.Contract.Calls.Authorized.{authorize_call-IsInScope}

-- The providers that declare reads only.
abbrev pub read_only : List Text
read_only =
    Provider.notion ∷ Provider.s3 ∷ Provider.freshbooks ∷ Provider.mercury ∷ Provider.gmail
    ∷ Provider.tito ∷ Provider.discord ∷ Provider.grafana ∷ Provider.skills_repo ∷ []

-- A capability of the provider's definitions has the name and the action of the call.
abbrev pub IsDefined : Text → Invocation → Type 0
IsDefined provider call =
    (d : Capability) × In d (capabilities_for provider)
    × (d.name ≡ call.capability)
    × (d.action ≡ call.action)

defined_sound :
    (provider : Text) (c : Capability)
    → defined_capability provider c ≡ true
    → (d : Capability) × In d (capabilities_for provider)
      × (d.name ≡ c.name)
      × (d.action ≡ c.action)
unfolding defined_capability
defined_sound provider c h =
    let (d, i, e) =
      (any_iff (λ d. d.name == c.name && d.action == c.action) (capabilities_for provider)).0 h in
    let (n, a) = &&-eq-true (d.name == c.name) (d.action == c.action) e in
    (d, i, (==_iff d.name c.name).0 n, (==_iff d.action c.action).0 a)

executable_at :
    (m : Metadata) (c : Capability)
    → validate_executable m ≡ none
    → In c m.capabilities
    → defined_capability m.provider c ≡ true
unfolding validate_executable
executable_at m c x i = all_at (defined_capability m.provider) c m.capabilities (ground arith) i

-- Of an executed call the runtime has the provider's operation, with its name and its action.
pub validate_call-IsDefined :
    (m : Metadata) (call : Invocation) → validate_call m call ≡ none → IsDefined m.provider call
validate_call-IsDefined m call h =
    let (v, x, b, r) = (validate_call_parts m call).0 h in
    let (w, s, (c, i, n, a)) =
      authorize_call-IsInScope m call (validate_call-authorize_call m call h) in
    let (d, j, n', a') = defined_sound m.provider c (executable_at m c x i) in
    (d, j, n' ∙ n, a' ∙ a)

abbrev reads_only : Text × List Capability → Bool
reads_only (p, cs) = not (is_one_of read_only p) || all (λ c. c.action == Action.read) cs

table_read_only : all reads_only definitions ≡ true
unfolding all any is_one_of ◌==◌
table_read_only = refl

defined_reads :
    (provider : Text) (d : Capability)
    → In provider read_only
    → In d (capabilities_for provider)
    → d.action ≡ Action.read
unfolding capabilities_for
defined_reads p d r i = elim (Option-cases (entry_of definitions p)) [
  | inl e ↦ absurd (ground arith)
  | inr (cs, e) ↦
      let entry =
        all_at reads_only (p, cs) definitions table_read_only (entry_of_In definitions p cs e) in
      let listed = (is_one_of_iff read_only p).1 r in
      let reads : all (λ (c : Capability). c.action == Action.read) cs ≡ true = ground arith in
      (==_iff d.action Action.read).0 (all_at (λ c. c.action == Action.read) d cs reads (rw e at i))
]

-- A call that `ValidateCall` accepts for a connector of a read-only provider is a read, whatever
-- capabilities the connector declares.
pub validate_call-read_only :
    (m : Metadata) (call : Invocation)
    → validate_call m call ≡ none
    → In m.provider read_only
    → call.action ≡ Action.read
validate_call-read_only m call h r =
    let (d, i, n, a) = validate_call-IsDefined m call h in sym a ∙ defined_reads m.provider d r i
