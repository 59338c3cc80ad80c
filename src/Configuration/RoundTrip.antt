-- ===== src/Configuration/RoundTrip.antt =====
-- A configuration survives the way through Core: `from_node_config` after
-- `connector_configuration`.
pub mod Through
use mathlib.Core.List.{reverse, reverse-reverse}
use connectors.Base.{
  ℕ, ◌*◌, ◌/◌, ◌≤◌, ◌<◌, ◌≡◌, ◌≢◌, refl, sym, ap, subst, ◌∙◌, ◌↔◌, ◌⊎◌, inl, inr, Bool, true, false,
  not, Option, none, some, List, [], ◌∷◌, ◌++◌, map, arith, Text, codes, trim, trim_start,
  is_whitespace, text_eq, byte_len, All-map, All-reverse, is_empty, Result, ok, err, length,
  length-map, All, Option-cases, Result-cases, Bool-cases, >>=-eq-ok, ltb,
}
use connectors.Configuration.Types.{
  Checked, RelayIceServer, WireIceServer, Api, RelayRouteConfiguration, RelayPublicationTransport,
  web_rtc, web_socket, RelayLatencyProfile, standard, low, Key, relay_url_key, relay_session_id_key,
  source_token_key, bus_id_key, publisher_group_id_key, latency_profile_key, ice_servers_key,
  startup_timeout_ms_key, transport_key, http_proxy_key, transport_as_str, parse_transport,
  profile_as_str, parse_profile, as_millis, from_millis,
}
use connectors.Configuration.IceServers.{
  to_wire, from_wire, all_from_wire, new_server, validate_server, encode_ice_servers,
  decode_ice_servers,
}
use connectors.Configuration.Validation.{is_bus_character, check_servers, validate}
use connectors.Configuration.Validated.{validate_iff, nonempty_iff, IsValid}
use connectors.Configuration.Names.{IsBusCharacter, IsBus}
use connectors.Configuration.Wire.{
  Value, text, secret, duration_milliseconds, ConnectorConfiguration, NodeConfig, key_number,
  parse_u64, required, required_sensitive, insert, insert_proxy, insert_servers, entries,
  make_secret, read_servers, read_proxy, get_or_else, to_connector_configuration, from_node_config,
}

-- The documented behaviour of the other crates that the way relies on.
pub record Laws {Secret Url : Type 0} (api : Api Secret Url) : Type 0 where
  pub secret_of_text : (t : Text) (s : Secret) → api.new_secret t ≡ some s → api.expose_secret s ≡ t
  pub secret_again : (s : Secret) → api.new_secret (api.expose_secret s) ≡ some s
  pub json_again :
      (wire : List WireIceServer) (t : Text)
      → api.to_json wire ≡ some t
      → api.from_json t ≡ some wire
  pub json_not_blank :
      (wire : List WireIceServer) (t : Text) → api.to_json wire ≡ some t → trim t ≢ []
  pub url_not_blank : (t : Text) (url : Url) → api.parse_url t ≡ some url → trim t ≢ []

-- Core hands each value to the node as text: a text as it is, a secret exposed and marked, a
-- duration in a form that parses to it; and no other key.
abbrev pub Shows :
    {Secret Url : Type 0} → Api Secret Url → NodeConfig → Key → Option (Value Secret) → Type 0
Shows api node key none = node.get key ≡ none
Shows api node key (some (text t)) = node.get key ≡ some t
Shows api node key (some (secret s)) =
    (node.get key ≡ some (api.expose_secret s)) × (node.is_sensitive key ≡ true)
Shows api node key (some (duration_milliseconds ms)) =
    (t : Text) × (node.get key ≡ some t) × (parse_u64 t ≡ some ms)

abbrev pub Projects :
    {Secret Url : Type 0} → Api Secret Url → ConnectorConfiguration Secret → NodeConfig → Type 0
Projects api m node = (key : Key) → Shows api node key (m key)

-- Text without white space is its own trim.
trim_start-solid : (t : Text) → All (λ c. is_whitespace c ≡ false) t → trim_start t ≡ t
unfolding trim_start
trim_start-solid [] h = refl
trim_start-solid (c ∷ t) h = rw h.0

trim-solid : (t : Text) → All (λ c. is_whitespace c ≡ false) t → trim t ≡ t
unfolding trim
trim-solid t h =
    rw (trim_start-solid (reverse t) (All-reverse (λ c. is_whitespace c ≡ false) t h))
      (rw (reverse-reverse t) (trim_start-solid t h))

bus_character_range : (c : ℕ) → IsBusCharacter c → (45 ≤ c) × (c ≤ 122)
bus_character_range c h = ground arith

in_range_solid : (c : ℕ) → 45 ≤ c → c ≤ 122 → is_whitespace c ≡ false
unfolding is_whitespace
in_range_solid c lo hi = ground arith

bus_character_solid : (c : ℕ) → IsBusCharacter c → is_whitespace c ≡ false
bus_character_solid c h = in_range_solid c (bus_character_range c h).0 (bus_character_range c h).1

bus_not_blank : (bus : Text) → IsBus bus → trim bus ≢ []
bus_not_blank [] h e = absurd (omega (arith, h.0, nothing))
  where
    nothing : byte_len [] ≡ 0
    nothing = unfold byte_len in refl
bus_not_blank (c ∷ bus) h e = absurd (cons_not_nil (sym same ∙ e))
  where
    solid : All (λ c. is_whitespace c ≡ false) (c ∷ bus)
    solid = All-map IsBusCharacter (λ c. bus_character_solid c) (c ∷ bus) h.2

    same : trim (c ∷ bus) ≡ c ∷ bus
    same = trim-solid (c ∷ bus) solid

    cons_not_nil : ¬ (◌≡◌ {A = Text} (c ∷ bus) [])
    cons_not_nil e = cc

required_shown :
    (node : NodeConfig) (key : Key) (t : Text)
    → node.get key ≡ some t
    → trim t ≢ []
    → required node key ≡ ok t
unfolding required
required_shown node key t e h = rw (e, required) (rw ((nonempty_iff (trim t)).1 h))

required_sensitive_shown :
    (node : NodeConfig) (key : Key) (t : Text)
    → node.get key ≡ some t
    → node.is_sensitive key ≡ true
    → trim t ≢ []
    → required_sensitive node key ≡ ok t
unfolding required_sensitive
required_sensitive_shown node key t e m h = rw (required_shown node key t e h, m)

parse_transport-as_str :
    (t : RelayPublicationTransport) → parse_transport (transport_as_str t) ≡ ok t
unfolding parse_transport transport_as_str text_eq
parse_transport-as_str web_rtc = refl
parse_transport-as_str web_socket = refl

parse_profile-as_str : (p : RelayLatencyProfile) → parse_profile (profile_as_str p) ≡ ok p
unfolding parse_profile profile_as_str text_eq
parse_profile-as_str standard = refl
parse_profile-as_str low = refl

-- Servers that `validate` accepts come back from their JSON projection.
all_from_wire-to_wire :
    (servers : List RelayIceServer)
    → check_servers servers ≡ ok tt
    → all_from_wire (map to_wire servers) ≡ ok servers
unfolding all_from_wire new_server check_servers
all_from_wire-to_wire [] h = refl
all_from_wire-to_wire (server ∷ rest) h =
    let (u, first, others) = >>=-eq-ok (validate_server server) (λ _. check_servers rest) h in
    rw first (rw (all_from_wire-to_wire rest others))

module _ {Secret Url : Type 0} (api : Api Secret Url) (laws : Laws api) where
  decode-encode :
      (servers : List RelayIceServer) (t : Text)
      → check_servers servers ≡ ok tt
      → length servers ≤ 16
      → encode_ice_servers api servers ≡ ok t
      → decode_ice_servers api t ≡ ok servers
  unfolding encode_ice_servers decode_ice_servers
  decode-encode servers t h few e = elim (Option-cases (api.to_json (map to_wire servers))) [
    | inl missing ↦ absurd (ground arith)
    | inr (u, found) ↦
        let same : u ≡ t = ground arith in
        rw (laws.json_again (map to_wire servers) t (found ∙ ap some same))
          (rw (few_wire) (all_from_wire-to_wire servers h))
  ]
    where
      few_wire : ltb 16 (length (map to_wire servers)) ≡ false
      few_wire = let k = length-map to_wire servers in ground arith

  -- What the node shows of a configuration.
  record Shown (c : RelayRouteConfiguration Secret) (node : NodeConfig) : Type 0 where
    url : node.get relay_url_key ≡ some c.relay_url
    session : node.get relay_session_id_key ≡ some c.relay_session_id
    token : node.get source_token_key ≡ some (api.expose_secret c.source_token)
    token_sensitive : node.is_sensitive source_token_key ≡ true
    bus : node.get bus_id_key ≡ some c.bus_id
    group : node.get publisher_group_id_key ≡ some c.publisher_group_id
    profile : node.get latency_profile_key ≡ some (profile_as_str c.latency_profile)
    transport : node.get transport_key ≡ some (transport_as_str c.transport)
    timeout :
        (t : Text) × (node.get startup_timeout_ms_key ≡ some t)
        × (parse_u64 t ≡ some (as_millis c.startup_timeout))
    servers : read_servers api node ≡ ok c.ice_servers
    proxy : read_proxy api node ≡ ok c.http_proxy

  abbrev with_servers :
      Option Secret → ConnectorConfiguration Secret → ConnectorConfiguration Secret
  with_servers none m = m
  with_servers (some hidden) m = insert ice_servers_key (secret hidden) m

  kept :
      (c : RelayRouteConfiguration Secret) (servers proxy : Option Secret) (key : Key)
      → key_number key ≢ 6
      → key_number key ≢ 9
      → with_servers servers (insert_proxy api proxy (entries api c)) key ≡ entries api c key
  kept c none none key h k = refl
  kept c none (some p) key h k = ground arith
  kept c (some s) none key h k = ground arith
  kept c (some s) (some p) key h k = ground arith
