-- ===== src/Contract/Names/Action.antt =====
-- contract/accountmodel.go: the actions of a capability.
use kei_connector_contracts.Prelude.{Text, codes}

abbrev pub read : Text
read = codes "read"

abbrev pub create : Text
create = codes "create"

abbrev pub update : Text
update = codes "update"

abbrev pub delete : Text
delete = codes "delete"

abbrev pub comment : Text
comment = codes "comment"
