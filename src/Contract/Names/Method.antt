-- ===== src/Contract/Names/Method.antt =====
-- contract/http_api.go: the supported HTTP methods.
use kei_connector_contracts.Prelude.{Text, codes}

abbrev pub get : Text
get = codes "GET"

abbrev pub head : Text
head = codes "HEAD"

abbrev pub post : Text
post = codes "POST"

abbrev pub patch : Text
patch = codes "PATCH"
