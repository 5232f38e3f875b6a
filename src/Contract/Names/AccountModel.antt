-- ===== src/Contract/Names/AccountModel.antt =====
-- contract/accountmodel.go: the account models.
use kei_connector_contracts.Prelude.{Text, codes}

abbrev pub per_user : Text
per_user = codes "per_user"

abbrev pub shared : Text
shared = codes "shared"

abbrev pub domain_delegation : Text
domain_delegation = codes "domain_delegation"
