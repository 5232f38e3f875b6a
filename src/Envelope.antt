-- ===== src/Envelope.antt =====
-- envelope/envelope.go: the governed envelope of an invocation.
use kei_connector_contracts.Prelude.{
  ℕ, not, Option, none, some, Text, codes, ◌==◌, eqb, refuse_if, ◌>>?◌,
}
use kei_connector_contracts.Contract.Types.{Invocation, ContractError}
use kei_connector_contracts.Contract.Calls.{validate_invocation}

-- `issued_at` is in nanoseconds since the zero time.
pub record Envelope : Type 0 where
  pub version : Text
  pub invocation : Invocation
  pub minted_by : Text
  pub issued_at : ℕ

pub data EnvelopeError : Type 0 where
  unsupported_version not_minted_by_control_plane no_issued_at : EnvelopeError
  invalid_invocation : ContractError → EnvelopeError

abbrev pub envelope_version1 : Text
envelope_version1 = codes "1.0"

abbrev pub minted_by_control_plane : Text
minted_by_control_plane = codes "kei-control-plane"

-- An error of the contract, under another type of errors.
abbrev pub wrap : {E F : Type 0} → (E → F) → Option E → Option F
wrap f none = none
wrap f (some e) = some (f e)

-- `Envelope.Validate`
unfoldable pub validate : Envelope → Option EnvelopeError
validate e =
    refuse_if (not (e.version == envelope_version1)) unsupported_version
    >>? refuse_if (not (e.minted_by == minted_by_control_plane)) not_minted_by_control_plane
    >>? refuse_if (eqb e.issued_at 0) no_issued_at
    >>? wrap invalid_invocation (validate_invocation e.invocation)
