-- ===== src/Contract/Names/Status.antt =====
-- contract/accountmodel.go: the statuses of a connector.
use kei_connector_contracts.Prelude.{Text, codes}

abbrev pub pending : Text
pending = codes "pending"

abbrev pub active : Text
active = codes "active"

abbrev pub suspended : Text
suspended = codes "suspended"

abbrev pub revoked : Text
revoked = codes "revoked"

abbrev pub failed : Text
failed = codes "failed"
