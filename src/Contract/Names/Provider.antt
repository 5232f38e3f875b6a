-- ===== src/Contract/Names/Provider.antt =====
-- contract/contract.go: the providers.
use kei_connector_contracts.Prelude.{Text, codes}

abbrev pub linear : Text
linear = codes "linear"

abbrev pub github : Text
github = codes "github"

abbrev pub google : Text
google = codes "google_drive"

abbrev pub notion : Text
notion = codes "notion"

abbrev pub s3 : Text
s3 = codes "s3"

abbrev pub http_api : Text
http_api = codes "http_api"

abbrev pub freshbooks : Text
freshbooks = codes "freshbooks"

abbrev pub mercury : Text
mercury = codes "mercury"

abbrev pub gmail : Text
gmail = codes "gmail"

abbrev pub tito : Text
tito = codes "tito"

abbrev pub discord : Text
discord = codes "discord"

abbrev pub grafana : Text
grafana = codes "grafana"

abbrev pub skills_repo : Text
skills_repo = codes "skills_repo"
