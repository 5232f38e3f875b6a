-- ===== src/Contract/Grafana.antt =====
-- contract/grafana.go: the origin of a Grafana instance.
use kei_connector_contracts.Prelude.{
  suc, Bool, not, ◌&&◌, ◌||◌, Option, none, some, [], ◌∷◌, ◌++◌, Text, codes, ◌==◌, any, all, ltb,
  if◌then◌else◌, length, drop, refuse_if, ◌>>?◌,
}
use kei_connector_contracts.Strings.{has_prefix, trim_suffix, contains, last_index, to_lower}
use kei_connector_contracts.Net.Escape.{is_digit, among}
use kei_connector_contracts.Net.Ip.{
  Ip, parse_ip, is_link_local_unicast, is_link_local_multicast, is_unspecified,
}
use kei_connector_contracts.Net.Url.{Url, parse, hostname}
use kei_connector_contracts.Contract.Types.{
  GrafanaConfig, ContractError, invalid_origin, metadata_address,
}

-- `awsIPv6Metadata`, fd00:ec2::254
abbrev pub aws_ipv6_metadata : Ip
aws_ipv6_metadata = 253 ∷ 0 ∷ 14 ∷ 194 ∷ 0 ∷ 0 ∷ 0 ∷ 0 ∷ 0 ∷ 0 ∷ 0 ∷ 0 ∷ 0 ∷ 0 ∷ 2 ∷ 84 ∷ []

-- `numericLabel`
unfoldable pub numeric_label : Text → Bool
numeric_label label =
    if has_prefix label (codes "0x")
    then not (drop 2 label == []) && all (λ c. is_digit c || among c "abcdef") (drop 2 label)
    else not (label == []) && all is_digit label

-- What follows the last dot.
unfoldable pub last_label : Text → Text
last_label host = elim (last_index host b'.') [ none ↦ host | some i ↦ drop (suc i) host ]

abbrev is_metadata_name : Text → Text → Bool
is_metadata_name host name = host == name || has_prefix host (name ++ codes ".")

-- `metadataDestination`
unfoldable pub metadata_destination : Text → Bool
metadata_destination name =
    let host = trim_suffix (to_lower name) (codes ".") in
    elim (parse_ip host) [
      | some ip ↦
          is_link_local_unicast ip
          || is_link_local_multicast ip
          || is_unspecified ip
          || ip == aws_ipv6_metadata
      | none ↦
          numeric_label (last_label host)
          || any (is_metadata_name host) (codes "metadata" ∷ codes "instance-data" ∷ [])
    ]

-- An https URL of a scheme and a host, and no more than the path `/`.
unfoldable pub is_origin : Text → Url → Bool
is_origin base u =
    u.scheme == codes "https"
    && not (u.host == [])
    && not (hostname u == [])
    && not u.has_user
    && u.opaque == []
    && u.raw_query == []
    && not u.force_query
    && u.fragment == []
    && not (contains base b'#')
    && (u.path == [] || u.path == codes "/")

-- `GrafanaConfig.Validate`
unfoldable pub validate_grafana : GrafanaConfig → Option ContractError
validate_grafana g =
    refuse_if (g.base_url == [] || ltb 2048 (length g.base_url)) invalid_origin
    >>? elim (parse g.base_url) [
      | none ↦ some invalid_origin
      | some u ↦
          refuse_if (not (is_origin g.base_url u)) invalid_origin
          >>? refuse_if (metadata_destination (hostname u)) metadata_address
    ]
