-- ===== src/Configuration/Tests.antt =====
-- Runs of the configuration at concrete inputs (relay/src/configuration.rs). Of URLs this instance of
-- the interface knows one, and of lists of servers the empty one.
use connectors.Base.{
  arith, ◌≡◌, ◌≢◌, ◌↔◌, refl, true, false, Option, none, some, List, [], ◌∷◌, Text, codes, text_eq,
  trim, trim_start, is_whitespace, ok, if◌then◌else◌, text_eq_iff, Bool-cases, inl, inr, byte_len,
}
use connectors.Configuration.Types.{
  Api, RelayRouteConfiguration, WireIceServer, standard, web_rtc, from_millis, ipv4, Key,
  relay_url_key, relay_session_id_key, source_token_key, bus_id_key, publisher_group_id_key,
  latency_profile_key, ice_servers_key, startup_timeout_ms_key, transport_key, http_proxy_key,
  transport_as_str, profile_as_str,
}
use connectors.Configuration.Validation.{validate, is_relay_origin, is_valid_bus, check_servers}
use connectors.Configuration.Builders.{new}
use connectors.Configuration.Validated.{IsValid, validate_iff, from_new, Built-validate}
use connectors.Configuration.Wire.{
  NodeConfig, entries, insert_servers, to_connector_configuration, from_node_config, parse_u64,
}
use connectors.Configuration.RoundTrip.{Laws, Projects}
use connectors.Configuration.RoundTrip.Through.{
  in_millis, from_node_config-to_connector_configuration,
}

abbrev pub origin : Text
origin = codes "http://127.0.0.1:1"

abbrev to_json : List WireIceServer → Option Text
to_json [] = some (codes "[]")
to_json (server ∷ rest) = none

-- A secret is its text, and a URL is the only one.
abbrev pub api : Api Text (Unit {0})
api = record {
  parse_url = λ t. if text_eq t origin then some tt else none;
  scheme = λ url. codes "http";
  host = λ url. some (ipv4 2_130_706_433);
  cannot_be_a_base = λ url. false;
  path = λ url. codes "/";
  query = λ url. none;
  fragment = λ url. none;
  username = λ url. [];
  password = λ url. none;
  new_secret = λ t. some t;
  expose_secret = λ s. s;
  secret_eq = text_eq;
  to_json = to_json;
  from_json = λ t. some [];
}

not_blank : trim origin ≢ []
unfolding trim trim_start is_whitespace
not_blank e = cc

laws : Laws api
laws = record {
  secret_of_text = λ t s e. ground arith;
  secret_again = λ s. refl;
  json_again = again;
  json_not_blank = solid;
  url_not_blank = λ t url e. elim (Bool-cases (text_eq t origin)) [
    | inl same ↦ let is = (text_eq_iff t origin).0 same in rw is not_blank
    | inr other ↦ absurd (ground arith)
  ];
}
  where
    again : (wire : List WireIceServer) (t : Text) → to_json wire ≡ some t → some [] ≡ some wire
    again [] t e = refl
    again (server ∷ rest) t e = cc

    brackets : trim (codes "[]") ≢ []
    brackets e = unfold trim in unfold trim_start in unfold is_whitespace in cc

    solid : (wire : List WireIceServer) (t : Text) → to_json wire ≡ some t → trim t ≢ []
    solid [] t e = let is : codes "[]" ≡ t = ground arith in rw (← is) brackets
    solid (server ∷ rest) t e = cc

abbrev pub route : RelayRouteConfiguration Text
route = record {
  relay_url = origin;
  relay_session_id = codes "session";
  source_token = codes "token";
  bus_id = codes "mix-1";
  publisher_group_id = codes "session";
  latency_profile = standard;
  ice_servers = [];
  startup_timeout = from_millis 30_000;
  transport = web_rtc;
  http_proxy = none;
}

validated : validate api route ≡ ok tt
unfolding validate is_relay_origin is_valid_bus check_servers text_eq trim trim_start is_whitespace
    byte_len
validated = refl

validate_iff_example : (validate api route ≡ ok tt) ↔ IsValid api route
validate_iff_example = validate_iff api route

made : new api origin (codes "session") (codes "token") (codes "mix-1") ≡ ok route
unfolding new validate is_relay_origin is_valid_bus check_servers text_eq trim trim_start
    is_whitespace byte_len
made = refl

Built-validate_example : validate api route ≡ ok tt
Built-validate_example =
    Built-validate api (from_new origin (codes "session") (codes "mix-1") (codes "token") made)

-- What Core shows of `route`: every entry, as text.
abbrev shown : Key → Option Text
shown relay_url_key = some origin
shown relay_session_id_key = some (codes "session")
shown source_token_key = some (codes "token")
shown bus_id_key = some (codes "mix-1")
shown publisher_group_id_key = some (codes "session")
shown latency_profile_key = some (codes "standard")
shown ice_servers_key = none
shown startup_timeout_ms_key = some (codes "30000")
shown transport_key = some (codes "webrtc")
shown http_proxy_key = none

abbrev pub node : NodeConfig
node = record { get = shown; is_sensitive = λ key. true }

projects : Projects api (entries api route) node
unfolding transport_as_str profile_as_str parse_u64
projects relay_url_key = refl
projects relay_session_id_key = refl
projects source_token_key = (refl, refl)
projects bus_id_key = refl
projects publisher_group_id_key = refl
projects latency_profile_key = refl
projects ice_servers_key = refl
projects startup_timeout_ms_key = (codes "30000", refl, refl)
projects transport_key = refl
projects http_proxy_key = refl

projected : to_connector_configuration api route ≡ ok (entries api route)
unfolding to_connector_configuration insert_servers validate is_relay_origin is_valid_bus
    check_servers text_eq trim trim_start is_whitespace byte_len
projected = refl

token_not_blank : trim (codes "token") ≢ []
unfolding trim trim_start is_whitespace
token_not_blank e = cc

from_node_config-to_connector_configuration_example :
    from_node_config api node ≡ ok (in_millis api laws route)
from_node_config-to_connector_configuration_example =
    from_node_config-to_connector_configuration api laws route (entries api route) node
      token_not_blank projected projects
