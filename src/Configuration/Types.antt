-- ===== src/Configuration/Types.antt =====
-- The data of configuration.rs, and the interface to the crates that it uses.
use connectors.Base.{
  ℕ, ◌*◌, ◌/◌, Bool, Option, List, Text, text_eq, codes, Result, ok, err, if◌then◌else◌,
}

pub data RelayPublicationTransport : Type 0 where
  web_rtc web_socket : RelayPublicationTransport

pub data RelayLatencyProfile : Type 0 where
  standard low : RelayLatencyProfile

-- The keys of the connector configuration, with the text that each stands for.
pub data Key : Type 0 where
  relay_url_key relay_session_id_key source_token_key bus_id_key publisher_group_id_key : Key
  latency_profile_key ice_servers_key startup_timeout_ms_key transport_key http_proxy_key : Key

pub data RelayConfigurationError : Type 0 where
  invalid_transport insecure_ingress invalid_proxy invalid_relay_url : RelayConfigurationError
  invalid_identity invalid_bus_id invalid_latency_profile : RelayConfigurationError
  invalid_startup_timeout invalid_ice_server_count : RelayConfigurationError
  invalid_ice_server_url invalid_ice_credential : RelayConfigurationError
  invalid_ice_server_encoding : RelayConfigurationError
  missing_field : Key → RelayConfigurationError
  secret_not_sensitive : Key → RelayConfigurationError
  connector_configuration : RelayConfigurationError

abbrev pub Checked : Type 0 → Type 0
Checked A = Result RelayConfigurationError A

unfoldable pub transport_as_str : RelayPublicationTransport → Text
transport_as_str web_rtc = codes "webrtc"
transport_as_str web_socket = codes "websocket"

unfoldable pub parse_transport : Text → Checked RelayPublicationTransport
parse_transport value =
    if text_eq value (codes "webrtc")
    then ok web_rtc
    else if text_eq value (codes "websocket")
    then ok web_socket
    else err invalid_transport

unfoldable pub profile_as_str : RelayLatencyProfile → Text
profile_as_str standard = codes "standard"
profile_as_str low = codes "low"

unfoldable pub parse_profile : Text → Checked RelayLatencyProfile
parse_profile value =
    if text_eq value (codes "standard")
    then ok standard
    else if text_eq value (codes "low")
    then ok low
    else err invalid_latency_profile

pub record RelayIceServer : Type 0 where
  pub urls : List Text

-- What travels as JSON in the place of a server.
pub record WireIceServer : Type 0 where
  pub urls : List Text
  pub username : Option Text
  pub credential : Option Text

-- `url::Host`; an address is its number.
pub data Host : Type 0 where
  ipv4 : ℕ → Host
  ipv6 : ℕ → Host
  domain : Text → Host

-- The crates url, serde_json and pocketstation::connector, as far as configuration.rs calls them.
pub record Api (Secret Url : Type 0) : Type 0 where
  pub parse_url : Text → Option Url
  pub scheme : Url → Text
  pub host : Url → Option Host
  pub cannot_be_a_base : Url → Bool
  pub path : Url → Text
  pub query : Url → Option Text
  pub fragment : Url → Option Text
  pub username : Url → Text
  pub password : Url → Option Text
  -- `ConnectorSecret::new`, `expose_secret` and `==`.
  pub new_secret : Text → Option Secret
  pub expose_secret : Secret → Text
  pub secret_eq : Secret → Secret → Bool
  -- `serde_json::to_string` and `from_str` at `Vec<WireIceServer>`.
  pub to_json : List WireIceServer → Option Text
  pub from_json : Text → Option (List WireIceServer)

-- A `Duration` is a number of nanoseconds.
abbrev pub from_millis : ℕ → ℕ
from_millis ms = ms * 1_000_000

abbrev pub as_millis : ℕ → ℕ
as_millis ns = ns / 1_000_000

abbrev pub max_ice_servers : ℕ
max_ice_servers = 16

abbrev pub max_ice_server_urls : ℕ
max_ice_server_urls = 8

abbrev pub default_startup_timeout_ms : ℕ
default_startup_timeout_ms = 30_000

abbrev pub max_startup_timeout_ms : ℕ
max_startup_timeout_ms = 120_000

pub record RelayRouteConfiguration (Secret : Type 0) : Type 0 where
  pub relay_url : Text
  pub relay_session_id : Text
  pub source_token : Secret
  pub bus_id : Text
  pub publisher_group_id : Text
  pub latency_profile : RelayLatencyProfile
  pub ice_servers : List RelayIceServer
  pub startup_timeout : ℕ
  pub transport : RelayPublicationTransport
  pub http_proxy : Option Secret
