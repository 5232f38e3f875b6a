-- ===== src/Contract/Calls/Laws.antt =====
-- contract/contract.go: what the checks of a call say of each other.
use kei_connector_contracts.Prelude.{◌≡◌, ◌↔◌, false, not, ◌&&◌, none, arith}
use kei_connector_contracts.Contract.Types.{Metadata, Invocation}
use kei_connector_contracts.Contract.Calls.{
  is_http_api, has_request, validate, validate_executable, validate_call_boundary, validate_call,
  authorize_call,
}

-- What `ValidateCall` checks, as a product.
pub validate_call_parts :
    (m : Metadata) (call : Invocation)
    → (validate_call m call ≡ none) ↔ (
        (validate m ≡ none)
        × (validate_executable m ≡ none)
        × (validate_call_boundary m call ≡ none)
        × ((is_http_api m && not (has_request call)) ≡ false))
unfolding validate_call
validate_call_parts m call =
    (λ h. (ground arith, ground arith, ground arith, ground arith), λ (v, x, b, r). ground arith)

-- A call that `ValidateCall`, the check of the runtime, accepts is one that `AuthorizeCall`, the
-- check of the control plane, accepts.
pub validate_call-authorize_call :
    (m : Metadata) (call : Invocation) → validate_call m call ≡ none → authorize_call m call ≡ none
unfolding authorize_call
validate_call-authorize_call m call h =
    let (v, x, b, r) = (validate_call_parts m call).0 h in rw (v, r, b)
