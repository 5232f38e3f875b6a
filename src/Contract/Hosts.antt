-- ===== src/Contract/Hosts.antt =====
-- contract/http_api.go and contract/grafana.go: the addresses that a connector may not name.
use kei_connector_contracts.Prelude.{
  ℕ, ◌≤◌, ◌<◌, ◌≡◌, ap, ◌∙◌, ◌≢◌, ◌⊎◌, true, false, not, ◌&&◌, none, some, [], ◌∷◌, ◌++◌, arith,
  Text, ◌==◌,
}
use kei_connector_contracts.Strings.{has_prefix}
use kei_connector_contracts.Net.Ip.{
  Ip, v4_prefix, parse_ip, to4, is_loopback, is_private, is_link_local_unicast, is_unspecified,
}
use kei_connector_contracts.Net.Dotted.{dotted, IsField, parse_dotted, dotted_host}
use kei_connector_contracts.Net.Url.{Url, parse, hostname}
use kei_connector_contracts.Contract.Types.{HttpApi}
use kei_connector_contracts.Contract.HttpApi.{
  valid_public_hostname, check_base_url, validate_http_api,
}
use kei_connector_contracts.Contract.Grafana.{metadata_destination}

-- The addresses a.b.c.d of the loopback, private and link-local networks, and 0.0.0.0.
abbrev pub IsInternal : ℕ → ℕ → ℕ → ℕ → Type 0
IsInternal a b c d =
    (a ≡ 127)
    ⊎ (a ≡ 10)
    ⊎ ((a ≡ 172) × (16 ≤ b) × (b < 32))
    ⊎ ((a ≡ 192) × (b ≡ 168))
    ⊎ ((a ≡ 169) × (b ≡ 254))
    ⊎ ((a ≡ 0) × (b ≡ 0) × (c ≡ 0) × (d ≡ 0))

abbrev quad : ℕ → ℕ → ℕ → ℕ → Ip
quad a b c d = v4_prefix ++ (a ∷ b ∷ c ∷ d ∷ [])

internal_lem :
    (a b c d : ℕ)
    → IsInternal a b c d
    → (not (is_loopback (quad a b c d))
        && not (is_private (quad a b c d))
        && not (is_link_local_unicast (quad a b c d))
        && not (is_unspecified (quad a b c d)))
      ≡ false
unfolding is_loopback is_private is_link_local_unicast is_unspecified to4 has_prefix ◌==◌
internal_lem a b c d h = ground arith

link_local_lem : (i j k l : ℕ) → i ≡ 169 → j ≡ 254 → is_link_local_unicast (quad i j k l) ≡ true
unfolding is_link_local_unicast to4 has_prefix
link_local_lem i j k l p q = ground arith

public_host :
    (api : HttpApi) (u : Url)
    → validate_http_api api ≡ none
    → parse api.registered_base_url ≡ some u
    → valid_public_hostname (hostname u) ≡ true
unfolding validate_http_api check_base_url
public_host api u h e = ground arith

module _ (a b c d : Text) {i j k l : ℕ} (fa : IsField a i) (fb : IsField b j) (fc : IsField c k)
    (fd : IsField d l) where
  -- The check of an http_api host refuses each dotted quad of a loopback, private or link-local
  -- network, and 0.0.0.0.
  valid_public_hostname-internal :
      IsInternal i j k l → valid_public_hostname (dotted a b c d) ≡ false
  unfolding valid_public_hostname
  valid_public_hostname-internal h =
      rw (dotted_host a b c d fa fb fc fd)
        (rw (parse_dotted a b c d fa fb fc fd) (ground (arith, internal_lem i j k l h)))

  -- The base URL of an accepted http_api configuration names no dotted quad of a loopback, private
  -- or link-local network, and not 0.0.0.0.
  pub validate_http_api-internal :
      (api : HttpApi) (u : Url)
      → validate_http_api api ≡ none
      → parse api.registered_base_url ≡ some u
      → IsInternal i j k l
      → hostname u ≢ dotted a b c d
  validate_http_api-internal api u h e n same =
      let public = public_host api u h e in
      let refused = valid_public_hostname-internal n in
      let refused' = ap valid_public_hostname same in cc

  -- The check of a Grafana host reports each link-local dotted quad.
  pub metadata_destination-link_local :
      i ≡ 169 → j ≡ 254 → metadata_destination (dotted a b c d) ≡ true
  unfolding metadata_destination
  metadata_destination-link_local p q =
      let parsed =
        ap parse_ip (dotted_host a b c d fa fb fc fd) ∙ parse_dotted a b c d fa fb fc fd in
      ground (arith, parsed, link_local_lem i j k l p q)
