-- ===== src/Configuration/Builders.antt =====
-- `RelayRouteConfiguration::new` and its `with_*` methods. Each but `with_low_latency` validates.
use connectors.Base.{
  ℕ, Bool, not, Option, none, some, List, [], ◌∷◌, Text, ok, ◌>>◌, fail_if, is_some, ◌&&◌, text_eq,
  ◌==◌, true, false,
}
use connectors.Configuration.Types.{
  Checked, RelayPublicationTransport, web_rtc, web_socket, standard, low, RelayIceServer, Api,
  RelayRouteConfiguration, from_millis, default_startup_timeout_ms, invalid_proxy,
}
use connectors.Configuration.Validation.{checked_proxy, validate}

module _ {Secret Url : Type 0} (api : Api Secret Url) where
  abbrev pub Configuration : Type 0
  Configuration = RelayRouteConfiguration Secret

  -- `self.validate()?; Ok(self)`.
  abbrev pub validated : Configuration → Checked Configuration
  validated c = do validate api c; ok c

  unfoldable pub new : Text → Text → Secret → Text → Checked Configuration
  new relay_url relay_session_id source_token bus_id = validated (record {
    relay_url = relay_url;
    relay_session_id = relay_session_id;
    source_token = source_token;
    bus_id = bus_id;
    publisher_group_id = relay_session_id;
    latency_profile = standard;
    ice_servers = [];
    startup_timeout = from_millis default_startup_timeout_ms;
    transport = web_rtc;
    http_proxy = none;
  })

  unfoldable pub with_publisher_group : Configuration → Text → Checked Configuration
  with_publisher_group c publisher_group_id =
      validated (record c { publisher_group_id = publisher_group_id })

  unfoldable pub with_ice_servers : Configuration → List RelayIceServer → Checked Configuration
  with_ice_servers c ice_servers = validated (record c { ice_servers = ice_servers })

  unfoldable pub with_websocket_ingress : Configuration → Checked Configuration
  with_websocket_ingress c = validated (record c { transport = web_socket })

  unfoldable pub with_http_proxy : Configuration → Secret → Checked Configuration
  with_http_proxy c proxy = do
    fail_if (not (is_some (checked_proxy api (api.expose_secret proxy)))) invalid_proxy
    validated (record c { http_proxy = some proxy })

  unfoldable pub with_low_latency : Configuration → Configuration
  with_low_latency c = record c { latency_profile = low }

  unfoldable pub with_startup_timeout : Configuration → ℕ → Checked Configuration
  with_startup_timeout c startup_timeout =
      validated (record c { startup_timeout = startup_timeout })

-- Derived equalities.
unfoldable pub texts_eq : List Text → List Text → Bool
texts_eq [] [] = true
texts_eq [] (t ∷ ts) = false
texts_eq (s ∷ ss) [] = false
texts_eq (s ∷ ss) (t ∷ ts) = text_eq s t && texts_eq ss ts

unfoldable pub servers_eq : List RelayIceServer → List RelayIceServer → Bool
servers_eq [] [] = true
servers_eq [] (t ∷ ts) = false
servers_eq (s ∷ ss) [] = false
servers_eq (s ∷ ss) (t ∷ ts) = texts_eq s.urls t.urls && servers_eq ss ts

abbrev pub transport_eq : RelayPublicationTransport → RelayPublicationTransport → Bool
transport_eq web_rtc web_rtc = true
transport_eq web_rtc web_socket = false
transport_eq web_socket web_rtc = false
transport_eq web_socket web_socket = true

module _ {Secret Url : Type 0} (api : Api Secret Url) where
  abbrev pub proxy_eq : Option Secret → Option Secret → Bool
  proxy_eq none none = true
  proxy_eq none (some b) = false
  proxy_eq (some a) none = false
  proxy_eq (some a) (some b) = api.secret_eq a b

  unfoldable pub same_publisher :
      RelayRouteConfiguration Secret → RelayRouteConfiguration Secret → Bool
  same_publisher a b =
      text_eq a.relay_url b.relay_url
      && text_eq a.relay_session_id b.relay_session_id
      && api.secret_eq a.source_token b.source_token
      && text_eq a.publisher_group_id b.publisher_group_id
      && servers_eq a.ice_servers b.ice_servers
      && a.startup_timeout == b.startup_timeout
      && transport_eq a.transport b.transport
      && proxy_eq a.http_proxy b.http_proxy
