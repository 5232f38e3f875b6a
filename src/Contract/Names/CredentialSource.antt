-- ===== src/Contract/Names/CredentialSource.antt =====
-- contract/contract.go: the credential sources.
use kei_connector_contracts.Prelude.{Text, codes}

abbrev pub oauth : Text
oauth = codes "oauth"

abbrev pub opaque_ref : Text
opaque_ref = codes "opaque_ref"
