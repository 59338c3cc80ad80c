-- ===== src/Configuration/RoundTrip/Through.antt =====
-- The round trip itself, from what the node shows.
use connectors.Base.{
  ◌≤◌, ◌≡◌, ◌≢◌, refl, subst, inl, inr, Option, none, some, List, [], ◌∷◌, arith, Text, trim, true,
  ok, fail_if, Option-cases, >>=-eq-ok, ltb, u64_max, is_some, ok_or, map_option, length,
}
use connectors.Configuration.Types.{
  RelayIceServer, Api, RelayRouteConfiguration, Key, relay_url_key, relay_session_id_key,
  source_token_key, bus_id_key, publisher_group_id_key, latency_profile_key, ice_servers_key,
  startup_timeout_ms_key, transport_key, http_proxy_key, as_millis, from_millis,
  RelayConfigurationError, connector_configuration, invalid_startup_timeout,
}
use connectors.Configuration.IceServers.{encode_ice_servers}
use connectors.Configuration.Validation.{validate, check_servers, checked_proxy}
use connectors.Configuration.Origins.{checked_proxy_iff}
use connectors.Configuration.Validated.{validate_iff, check_servers_iff, IsValid}
use connectors.Configuration.Wire.{
  secret, ConnectorConfiguration, NodeConfig, insert_proxy, insert_servers, entries, make_secret,
  read_servers, read_proxy, to_connector_configuration, from_node_config, key_number, get_or_else,
}
use connectors.Configuration.RoundTrip.{
  Laws, Shows, Projects, Shown, kept, with_servers, bus_not_blank, required_shown,
  required_sensitive_shown, parse_transport-as_str, parse_profile-as_str, decode-encode,
}

module _ {Secret Url : Type 0} (api : Api Secret Url) (laws : Laws api) where
  ok_or-some :
      {A : Type 0} (o : Option A) {a : A} (e : RelayConfigurationError)
      → ok_or o e ≡ ok a
      → o ≡ some a
  ok_or-some none e h = cc
  ok_or-some (some a) e h = ground arith

  -- How the servers went into the configuration, and how they are read back.
  abbrev Packed :
      List RelayIceServer → ConnectorConfiguration Secret → ConnectorConfiguration Secret → Type 0
  Packed servers base m =
      (hidden : Option Secret) × (m ≡ with_servers api laws hidden base)
      × ((node : NodeConfig)
          → Shows api node ice_servers_key (map_option secret hidden)
          → read_servers api node ≡ ok servers)

  pack :
      (servers : List RelayIceServer) (base m : ConnectorConfiguration Secret)
      → check_servers servers ≡ ok tt
      → length servers ≤ 16
      → insert_servers api servers base ≡ ok m
      → Packed servers base m
  unfolding insert_servers read_servers
  pack [] base m checked few h = (none, ground arith, λ node shown. rw (shown, read_servers))
  pack (server ∷ rest) base m checked few h =
      let (encoded, e₁, h₁) = >>=-eq-ok (encode_ice_servers api (server ∷ rest)) _ h in
      let (hidden, e₂, h₂) = >>=-eq-ok (make_secret api encoded) _ h₁ in
      let text_back =
        laws.secret_of_text encoded hidden
          (ok_or-some (api.new_secret encoded) connector_configuration e₂) in
      (
        some hidden,
        ground arith,
        λ node shown.
            rw (shown.0, read_servers)
              (rw text_back (decode-encode api laws (server ∷ rest) encoded checked few e₁)),
      )

  proxy_back :
      (c : RelayRouteConfiguration Secret) (proxy : Option Secret) (node : NodeConfig)
      → ((s : Secret) → proxy ≡ some s → trim (api.expose_secret s) ≢ [])
      → Shows api node http_proxy_key (map_option secret proxy)
      → read_proxy api node ≡ ok proxy
  unfolding read_proxy
  proxy_back c none node solid shown = rw (shown, read_proxy)
  proxy_back c (some s) node solid shown =
      rw (shown.0, read_proxy)
        (rw
          (required_sensitive_shown node http_proxy_key (api.expose_secret s) shown.0 shown.1
            (solid s refl))
          (rw (laws.secret_again s)))

  checked_not_blank : (t : Text) → is_some (checked_proxy api t) ≡ true → trim t ≢ []
  unfolding checked_proxy
  checked_not_blank t h = elim (Option-cases (api.parse_url t)) [
    | inl e ↦ absurd (ground arith)
    | inr (url, e) ↦ laws.url_not_blank t url e
  ]

  -- What the node shows, of a configuration that passed `validate`.
  projected-Shown :
      (c : RelayRouteConfiguration Secret) (m : ConnectorConfiguration Secret) (node : NodeConfig)
      → IsValid api c
      → Packed c.ice_servers (insert_proxy api c.http_proxy (entries api c)) m
      → Projects api m node
      → Shown api laws c node
  projected-Shown c m node v (hidden, made, reads) p = record {
    url = at relay_url_key (omega arith) (omega arith);
    session = at relay_session_id_key (omega arith) (omega arith);
    token = (at source_token_key (omega arith) (omega arith)).0;
    token_sensitive = (at source_token_key (omega arith) (omega arith)).1;
    bus = at bus_id_key (omega arith) (omega arith);
    group = at publisher_group_id_key (omega arith) (omega arith);
    profile = at latency_profile_key (omega arith) (omega arith);
    transport = at transport_key (omega arith) (omega arith);
    timeout = at startup_timeout_ms_key (omega arith) (omega arith);
    servers = reads node (
        subst (Shows api node ice_servers_key) (at_servers hidden c.http_proxy)
          (whole ice_servers_key));
    proxy =
        proxy_back c c.http_proxy node
          (λ s e.
            checked_not_blank (api.expose_secret s)
              ((checked_proxy_iff api (api.expose_secret s)).1 (v.proxy s e)))
          (subst (Shows api node http_proxy_key) (at_proxy hidden c.http_proxy)
            (whole http_proxy_key));
  }
    where
      whole :
          (key : Key)
          → Shows api node key
              (with_servers api laws hidden (insert_proxy api c.http_proxy (entries api c)) key)
      whole key = subst (λ f. Shows api node key (f key)) made (p key)

      at :
          (key : Key)
          → key_number key ≢ 6
          → key_number key ≢ 9
          → Shows api node key (entries api c key)
      at key h k =
          subst (Shows api node key) (kept api laws c hidden c.http_proxy key h k) (whole key)

      at_servers :
          (servers proxy : Option Secret)
          → with_servers api laws servers (insert_proxy api proxy (entries api c)) ice_servers_key
            ≡ map_option secret servers
      at_servers none none = refl
      at_servers none (some s) = refl
      at_servers (some t) none = refl
      at_servers (some t) (some s) = refl

      at_proxy :
          (servers proxy : Option Secret)
          → with_servers api laws servers (insert_proxy api proxy (entries api c)) http_proxy_key
            ≡ map_option secret proxy
      at_proxy none none = refl
      at_proxy none (some s) = refl
      at_proxy (some t) none = refl
      at_proxy (some t) (some s) = refl

  -- The node speaks in whole milliseconds.
  abbrev pub in_millis : RelayRouteConfiguration Secret → RelayRouteConfiguration Secret
  in_millis c = record c { startup_timeout = from_millis (as_millis c.startup_timeout) }

  in_millis-IsValid :
      (c : RelayRouteConfiguration Secret) → IsValid api c → IsValid api (in_millis c)
  in_millis-IsValid c v = record {
    origin = v.origin;
    proxy = v.proxy;
    session = v.session;
    group = v.group;
    group_bounded = v.group_bounded;
    bus = v.bus;
    few_servers = v.few_servers;
    servers = v.servers;
    starts_late = let h = v.starts_late in omega arith;
    starts_early = let h = v.starts_early in omega arith;
  }

  Shown-from_node_config :
      (c : RelayRouteConfiguration Secret) (node : NodeConfig)
      → IsValid api c
      → trim (api.expose_secret c.source_token) ≢ []
      → Shown api laws c node
      → from_node_config api node ≡ ok (in_millis c)
  unfolding from_node_config
  Shown-from_node_config c node v solid s =
      let (t, shown, parsed) = s.timeout in
      let (url, origin, relay, safe) = v.origin in
      rw (required_sensitive_shown node source_token_key _ s.token s.token_sensitive solid) (
        rw (shown, get_or_else)
          (rw parsed (
            rw s.servers (
              rw
                (required_shown node relay_url_key _ s.url
                  (laws.url_not_blank c.relay_url url origin))
                (rw (required_shown node relay_session_id_key _ s.session v.session) (
                  rw (laws.secret_again c.source_token) (
                    rw (required_shown node bus_id_key _ s.bus (bus_not_blank c.bus_id v.bus)) (
                      rw (required_shown node publisher_group_id_key _ s.group v.group) (
                        rw (s.profile, get_or_else)
                          (rw (parse_profile-as_str c.latency_profile) (
                            rw (s.transport, get_or_else)
                              (rw (parse_transport-as_str c.transport) (
                                rw s.proxy (
                                  rw (
                                    (validate_iff api (in_millis c)).1
                                      (in_millis-IsValid c v))))))))))))))))

  -- Under the laws of the other crates: a configuration whose token is not blank, that becomes a
  -- connector configuration and is shown by a node entry by entry, is read back from the node as it
  -- was, but for the startup timeout, which is cut to whole milliseconds.
  pub from_node_config-to_connector_configuration :
      (c : RelayRouteConfiguration Secret) (m : ConnectorConfiguration Secret) (node : NodeConfig)
      → trim (api.expose_secret c.source_token) ≢ []
      → to_connector_configuration api c ≡ ok m
      → Projects api m node
      → from_node_config api node ≡ ok (in_millis c)
  unfolding to_connector_configuration
  from_node_config-to_connector_configuration c m node solid h p =
      let (u, e₁, h₁) = >>=-eq-ok (validate api c) _ h in
      let v : IsValid api c = (validate_iff api c).0 e₁ in
      let (u₂, e₂, h₂) =
        >>=-eq-ok (fail_if (ltb u64_max (as_millis c.startup_timeout)) invalid_startup_timeout) _
          h₁ in
      Shown-from_node_config c node v solid (
        projected-Shown c m node v
          (pack c.ice_servers _ m ((check_servers_iff c.ice_servers).1 v.servers) v.few_servers h₂)
          p)
