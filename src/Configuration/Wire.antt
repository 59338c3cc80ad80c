-- ===== src/Configuration/Wire.antt =====
-- `connector_configuration` and `from_node_config`: the way through Core's configuration.
-- `ConnectorConfiguration` and `NodeConfig` are pocketstation's: here a map from keys to values, and
-- what `NodeConfig::get` and `is_sensitive` answer.
use connectors.Base.{
  ℕ, ◌+◌, ◌-◌, ◌*◌, Bool, not, ◌&&◌, Option, none, some, List, [], ◌∷◌, Text, codes, trim, is_empty,
  ok, err, ◌>>=◌, ◌>>◌, fail_if, ok_or, if◌then◌else◌, ltb, leb, ◌==◌, u64_max,
}
use connectors.Configuration.Types.{
  Checked, RelayIceServer, Api, RelayRouteConfiguration, Key, relay_url_key, relay_session_id_key,
  source_token_key, bus_id_key, publisher_group_id_key, latency_profile_key, ice_servers_key,
  startup_timeout_ms_key, transport_key, http_proxy_key, transport_as_str, parse_transport,
  profile_as_str, parse_profile, as_millis, from_millis, missing_field, secret_not_sensitive,
  invalid_startup_timeout, connector_configuration,
}
use connectors.Configuration.IceServers.{encode_ice_servers, decode_ice_servers}
use connectors.Configuration.Validation.{validate}

-- `ConnectorConfigurationValue`, as far as it is used.
pub data Value (Secret : Type 0) : Type 0 where
  text : Text → Value Secret
  secret : Secret → Value Secret
  duration_milliseconds : ℕ → Value Secret

abbrev pub key_number : Key → ℕ
key_number relay_url_key = 0
key_number relay_session_id_key = 1
key_number source_token_key = 2
key_number bus_id_key = 3
key_number publisher_group_id_key = 4
key_number latency_profile_key = 5
key_number ice_servers_key = 6
key_number startup_timeout_ms_key = 7
key_number transport_key = 8
key_number http_proxy_key = 9

abbrev pub ConnectorConfiguration : Type 0 → Type 0
ConnectorConfiguration Secret = Key → Option (Value Secret)

-- `ConnectorConfiguration::with` and `insert`.
abbrev pub insert :
    {Secret : Type 0}
    → Key
    → Value Secret
    → ConnectorConfiguration Secret
    → ConnectorConfiguration Secret
insert key value m k = if key_number k == key_number key then some value else m k

pub record NodeConfig : Type 0 where
  pub get : Key → Option Text
  pub is_sensitive : Key → Bool

-- `str::parse::<u64>`: digits after an optional plus sign, within 64 bits.
parse_digits : ℕ → Text → Option ℕ
parse_digits value [] = some value
parse_digits value (c ∷ rest) =
    let next = value * 10 + (c - b'0') in
    let later = parse_digits next rest in
    if (leb b'0' c && leb c b'9') && leb next u64_max then later else none

parse_unsigned : Text → Option ℕ
unfolding parse_digits
parse_unsigned [] = none
parse_unsigned (c ∷ rest) = parse_digits 0 (c ∷ rest)

unfoldable pub parse_u64 : Text → Option ℕ
unfolding parse_unsigned
parse_u64 [] = none
parse_u64 (c ∷ rest) = if c == b'+' then parse_unsigned rest else parse_unsigned (c ∷ rest)

-- `required` and `required_sensitive`.
unfoldable pub required : NodeConfig → Key → Checked Text
required node key = elim (node.get key) [
  | none ↦ err (missing_field key)
  | some value ↦ if is_empty (trim value) then err (missing_field key) else ok value
]

unfoldable pub required_sensitive : NodeConfig → Key → Checked Text
required_sensitive node key = do
  value ← required node key
  fail_if (not (node.is_sensitive key)) (secret_not_sensitive key)
  ok value

module _ {Secret Url : Type 0} (api : Api Secret Url) where
  abbrev pub make_secret : Text → Checked Secret
  make_secret value = ok_or (api.new_secret value) connector_configuration

  abbrev pub insert_proxy :
      Option Secret → ConnectorConfiguration Secret → ConnectorConfiguration Secret
  insert_proxy none m = m
  insert_proxy (some proxy) m = insert http_proxy_key (secret proxy) m

  unfoldable pub insert_servers :
      List RelayIceServer → ConnectorConfiguration Secret → Checked (ConnectorConfiguration Secret)
  insert_servers [] m = ok m
  insert_servers (server ∷ rest) m = do
    encoded ← encode_ice_servers api (server ∷ rest)
    hidden ← make_secret encoded
    ok (insert ice_servers_key (secret hidden) m)

  abbrev pub entries : RelayRouteConfiguration Secret → ConnectorConfiguration Secret
  entries c = insert transport_key (text (transport_as_str c.transport)) (
      insert startup_timeout_ms_key (duration_milliseconds (as_millis c.startup_timeout)) (
        insert latency_profile_key (text (profile_as_str c.latency_profile)) (
          insert publisher_group_id_key (text c.publisher_group_id) (
            insert bus_id_key (text c.bus_id) (
              insert source_token_key (secret c.source_token) (
                insert relay_session_id_key (text c.relay_session_id)
                  (insert relay_url_key (text c.relay_url) (λ k. none))))))))

  unfoldable pub to_connector_configuration :
      RelayRouteConfiguration Secret → Checked (ConnectorConfiguration Secret)
  unfolding insert_servers
  to_connector_configuration c = do
    validate api c
    fail_if (ltb u64_max (as_millis c.startup_timeout)) invalid_startup_timeout
    insert_servers c.ice_servers (insert_proxy c.http_proxy (entries c))

  abbrev pub get_or_else : NodeConfig → Key → Text → Text
  get_or_else node key fallback = elim (node.get key) [ none ↦ fallback | some value ↦ value ]

  unfoldable pub read_servers : NodeConfig → Checked (List RelayIceServer)
  read_servers node = elim (node.get ice_servers_key) [
    | none ↦ ok []
    | some encoded ↦ decode_ice_servers api encoded
  ]

  -- `.map(|_| required_sensitive(..)).transpose()?.map(ConnectorSecret::new).transpose()?`.
  unfoldable pub read_proxy : NodeConfig → Checked (Option Secret)
  read_proxy node = elim (node.get http_proxy_key) [
    | none ↦ ok none
    | some value ↦ (do
      shown ← required_sensitive node http_proxy_key
      proxy ← make_secret shown
      ok (some proxy))
  ]

  unfoldable pub from_node_config : NodeConfig → Checked (RelayRouteConfiguration Secret)
  unfolding read_servers read_proxy
  from_node_config node = do
    token ← required_sensitive node source_token_key
    startup_timeout_ms ←
        ok_or (parse_u64 (get_or_else node startup_timeout_ms_key (codes "30000")))
          invalid_startup_timeout
    ice_servers ← read_servers node
    relay_url ← required node relay_url_key
    relay_session_id ← required node relay_session_id_key
    source_token ← make_secret token
    bus_id ← required node bus_id_key
    publisher_group_id ← required node publisher_group_id_key
    latency_profile ← parse_profile (get_or_else node latency_profile_key (codes "standard"))
    transport ← parse_transport (get_or_else node transport_key (codes "webrtc"))
    http_proxy ← read_proxy node
    let result : RelayRouteConfiguration Secret = record {
      relay_url = relay_url;
      relay_session_id = relay_session_id;
      source_token = source_token;
      bus_id = bus_id;
      publisher_group_id = publisher_group_id;
      latency_profile = latency_profile;
      ice_servers = ice_servers;
      startup_timeout = from_millis startup_timeout_ms;
      transport = transport;
      http_proxy = http_proxy;
    }
    validate api result
    ok result
