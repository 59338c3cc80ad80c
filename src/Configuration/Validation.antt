-- ===== src/Configuration/Validation.antt =====
-- `RelayRouteConfiguration::validate`, `validate_bus` and `checked_proxy`, check by check.
use connectors.Base.{
  ℕ, ◌/◌, ◌^◌, Bool, true, false, not, ◌&&◌, ◌||◌, Option, none, some, List, [], ◌∷◌, Text, text_eq,
  codes, byte_len, trim, is_empty, eq_ignore_ascii_case, ok, ◌>>=◌, ◌>>◌, fail_if, ok_or, ltb, leb,
  ◌==◌, all, is_some, length,
}
use connectors.Configuration.Types.{
  Checked, RelayPublicationTransport, web_rtc, web_socket, Host, ipv4, ipv6, domain, RelayIceServer,
  Api, RelayRouteConfiguration, as_millis, max_ice_servers, max_startup_timeout_ms,
  insecure_ingress, invalid_proxy, invalid_relay_url, invalid_identity, invalid_bus_id,
  invalid_ice_server_count, invalid_startup_timeout,
}
use connectors.Configuration.IceServers.{validate_server}

abbrev pub bus_max_len : ℕ
bus_max_len = 64

abbrev pub is_bus_character : ℕ → Bool
is_bus_character c =
    (leb b'0' c && leb c b'9')
    || (leb b'A' c && leb c b'Z')
    || (leb b'a' c && leb c b'z')
    || c == b'.'
    || c == b'_'
    || c == b'-'

-- `validate_bus`; both of its errors become `InvalidBusId`.
unfoldable pub is_valid_bus : Text → Bool
is_valid_bus bus = not (is_empty bus || ltb bus_max_len (byte_len bus)) && all is_bus_character bus

-- `Ipv4Addr::is_loopback` is 127.0.0.0/8; `Ipv6Addr::is_loopback` is ::1.
unfoldable pub is_loopback : Option Host → Bool
is_loopback none = false
is_loopback (some (ipv4 address)) = address / 2 ^ 24 == 127
is_loopback (some (ipv6 address)) = address == 1
is_loopback (some (domain name)) = eq_ignore_ascii_case name (codes "localhost")

unfoldable pub check_servers : List RelayIceServer → Checked (Unit {0})
check_servers [] = ok tt
check_servers (server ∷ rest) = do validate_server server; check_servers rest

abbrev pub is_root_path : Text → Bool
is_root_path path = is_empty path || text_eq path (codes "/")

abbrev pub is_web_scheme : Text → Bool
is_web_scheme scheme = text_eq scheme (codes "http") || text_eq scheme (codes "https")

module _ {Secret Url : Type 0} (api : Api Secret Url) where
  unfoldable pub is_relay_origin : Url → Bool
  is_relay_origin url =
      is_web_scheme (api.scheme url)
      && is_some (api.host url)
      && not (api.cannot_be_a_base url)
      && is_root_path (api.path url)
      && not (is_some (api.query url))
      && not (is_some (api.fragment url))
      && is_empty (api.username url)
      && not (is_some (api.password url))

  unfoldable pub is_proxy_origin : Url → Bool
  is_proxy_origin url =
      is_web_scheme (api.scheme url)
      && is_some (api.host url)
      && is_root_path (api.path url)
      && not (is_some (api.query url))
      && not (is_some (api.fragment url))

  -- `checked_proxy`, as a test.
  unfoldable pub checked_proxy : Text → Option Url
  checked_proxy raw = elim (api.parse_url raw) [
    | none ↦ none
    | some url ↦ elim (is_proxy_origin url) [ true ↦ some url | false ↦ none ]
  ]

  -- Credentials go over plaintext only to this machine.
  abbrev pub is_insecure : RelayPublicationTransport → Url → Bool
  is_insecure web_rtc url = false
  is_insecure web_socket url =
      not (text_eq (api.scheme url) (codes "https")) && not (is_loopback (api.host url))

  abbrev pub is_proxy_refused : Option Secret → Bool
  is_proxy_refused none = false
  is_proxy_refused (some proxy) = not (is_some (checked_proxy (api.expose_secret proxy)))

  abbrev pub lacks_identity : RelayRouteConfiguration Secret → Bool
  lacks_identity c =
      is_empty (trim c.relay_session_id)
      || is_empty (trim c.publisher_group_id)
      || ltb 256 (byte_len c.publisher_group_id)

  abbrev pub is_timeout_refused : ℕ → Bool
  is_timeout_refused startup_timeout =
      as_millis startup_timeout == 0 || ltb max_startup_timeout_ms (as_millis startup_timeout)

  unfoldable pub validate : RelayRouteConfiguration Secret → Checked (Unit {0})
  validate c = do
    relay ← ok_or (api.parse_url c.relay_url) invalid_relay_url
    fail_if (not (is_relay_origin relay)) invalid_relay_url
    fail_if (is_insecure c.transport relay) insecure_ingress
    fail_if (is_proxy_refused c.http_proxy) invalid_proxy
    fail_if (lacks_identity c) invalid_identity
    fail_if (not (is_valid_bus c.bus_id)) invalid_bus_id
    fail_if (ltb max_ice_servers (length c.ice_servers)) invalid_ice_server_count
    check_servers c.ice_servers
    fail_if (is_timeout_refused c.startup_timeout) invalid_startup_timeout
