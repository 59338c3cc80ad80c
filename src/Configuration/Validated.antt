-- ===== src/Configuration/Validated.antt =====
-- What `validate` accepts, and that no configuration is made without it.
use connectors.Base.{
  ℕ, ◌≤◌, ◌<◌, ◌≡◌, ◌≢◌, refl, ◌∙◌, subst, ◌↔◌, ◌⊎◌, inl, inr, true, false, Option, none, some,
  List, [], ◌∷◌, arith, Text, text_eq, text_eq_iff, Bool-cases, codes, byte_len, trim, is_empty,
  length, All, ok, Option-cases, Result-cases,
}
use connectors.Configuration.Types.{
  RelayPublicationTransport, web_rtc, web_socket, RelayIceServer, Api, RelayRouteConfiguration,
  as_millis,
}
use connectors.Configuration.Origins.{
  IsRelayOrigin, is_relay_origin_iff, IsLoopback, is_loopback_iff, IsProxy, checked_proxy_iff,
}
use connectors.Configuration.Names.{IsStunUrl, stun_authority_iff, IsBus, is_valid_bus_iff}
use connectors.Configuration.IceServers.{check_urls, validate_server}
use connectors.Configuration.Validation.{
  is_valid_bus, is_insecure, is_proxy_refused, lacks_identity, is_timeout_refused, check_servers,
  is_relay_origin, validate,
}
use connectors.Configuration.Builders.{
  new, with_publisher_group, with_ice_servers, with_websocket_ingress, with_http_proxy,
  with_low_latency, with_startup_timeout, validated,
}

-- A server: 1 to 8 URLs, each with a STUN authority.
abbrev pub IsServer : RelayIceServer → Type 0
IsServer server = (0 < length server.urls) × (length server.urls ≤ 8) × All IsStunUrl server.urls

check_urls_iff : (urls : List Text) → (check_urls urls ≡ ok tt) ↔ All IsStunUrl urls
unfolding check_urls
check_urls_iff [] = (λ _. tt, λ _. refl)
check_urls_iff (url ∷ rest) =
    let first = stun_authority_iff url in
    let others = check_urls_iff rest in
    (
      λ h. (first.0 (ground (arith, h)), others.0 (ground (arith, h))),
      λ h. let a = first.1 h.0 in let b = others.1 h.1 in rw a (rw b refl),
    )

is_empty_iff {ℓ} : {A : Type ℓ} (xs : List A) → (is_empty xs ≡ false) ↔ (0 < length xs)
is_empty_iff [] = (λ h. cc, λ h. absurd (omega arith))
is_empty_iff (x ∷ xs) = (λ h. omega arith, λ h. refl)

pub validate_server_iff :
    (server : RelayIceServer) → (validate_server server ≡ ok tt) ↔ IsServer server
unfolding validate_server
validate_server_iff server = ground (arith, is_empty_iff server.urls, check_urls_iff server.urls)

pub check_servers_iff :
    (servers : List RelayIceServer) → (check_servers servers ≡ ok tt) ↔ All IsServer servers
unfolding check_servers
check_servers_iff [] = (λ _. tt, λ _. refl)
check_servers_iff (server ∷ rest) =
    ground (arith, validate_server_iff server, check_servers_iff rest)

pub nonempty_iff {ℓ} : {A : Type ℓ} (xs : List A) → (is_empty xs ≡ false) ↔ (xs ≢ [])
nonempty_iff [] = (λ h. cc, λ h. absurd (h refl))
nonempty_iff (x ∷ xs) = (λ h e. cc, λ h. refl)

some_eq {ℓ} : {A : Type ℓ} {a b : A} → some a ≡ some b → a ≡ b
some_eq e = cc

module _ {Secret Url : Type 0} (api : Api Secret Url) where
  -- No source capability over plaintext, but to this machine.
  abbrev pub IsSecure : RelayPublicationTransport → Url → Type 0
  IsSecure transport url =
      transport ≡ web_socket → (api.scheme url ≡ codes "https") ⊎ (IsLoopback (api.host url))

  is_insecure_iff :
      (transport : RelayPublicationTransport) (url : Url)
      → (is_insecure api transport url ≡ false) ↔ IsSecure transport url
  is_insecure_iff web_rtc url = (λ h e. cc, λ h. refl)
  is_insecure_iff web_socket url =
      let https = text_eq_iff (api.scheme url) (codes "https") in
      let local = is_loopback_iff (api.host url) in
      (
        λ h e. elim (Bool-cases (text_eq (api.scheme url) (codes "https"))) [
          | inl s ↦ inl (https.0 s)
          | inr s ↦ inr (local.0 (ground (arith, h, s)))
        ],
        λ h. elim (h refl) [
          | inl s ↦ let t = https.1 s in ground (arith, t)
          | inr s ↦ let t = local.1 s in ground (arith, t)
        ],
      )

  abbrev pub IsProxied : Option Secret → Type 0
  IsProxied http_proxy =
      (secret : Secret) → http_proxy ≡ some secret → IsProxy api (api.expose_secret secret)

  is_proxy_refused_iff :
      (http_proxy : Option Secret)
      → (is_proxy_refused api http_proxy ≡ false) ↔ IsProxied http_proxy
  is_proxy_refused_iff none = (λ h s e. cc, λ h. refl)
  is_proxy_refused_iff (some proxy) =
      let checked = checked_proxy_iff api (api.expose_secret proxy) in
      (
        λ h s e.
            subst (λ t. IsProxy api (api.expose_secret t)) (some_eq e)
              (checked.0 (ground (arith, h))),
        λ h. let k = checked.1 (h proxy refl) in ground (arith, k),
      )

  -- A configuration that may be used.
  pub record IsValid (c : RelayRouteConfiguration Secret) : Type 0 where
    pub origin :
        (url : Url) × (api.parse_url c.relay_url ≡ some url)
        × IsRelayOrigin api url
        × IsSecure c.transport url
    pub proxy : IsProxied c.http_proxy
    pub session : trim c.relay_session_id ≢ []
    pub group : trim c.publisher_group_id ≢ []
    pub group_bounded : byte_len c.publisher_group_id ≤ 256
    pub bus : IsBus c.bus_id
    pub few_servers : length c.ice_servers ≤ 16
    pub servers : All IsServer c.ice_servers
    pub starts_late : 1 ≤ as_millis c.startup_timeout
    pub starts_early : as_millis c.startup_timeout ≤ 120_000

  -- The checks of `validate`, each passed.
  record Passes (c : RelayRouteConfiguration Secret) (url : Url) : Type 0 where
    parsed : api.parse_url c.relay_url ≡ some url
    origin : is_relay_origin api url ≡ true
    secure : is_insecure api c.transport url ≡ false
    proxied : is_proxy_refused api c.http_proxy ≡ false
    identified : lacks_identity api c ≡ false
    bus : is_valid_bus c.bus_id ≡ true
    few_servers : length c.ice_servers ≤ 16
    servers : check_servers c.ice_servers ≡ ok tt
    timely : is_timeout_refused api c.startup_timeout ≡ false

  Passes-validate :
      (c : RelayRouteConfiguration Secret) (url : Url) → Passes c url → validate api c ≡ ok tt
  unfolding validate
  Passes-validate c url p = ground arith

  validate-Passes :
      (c : RelayRouteConfiguration Secret) → validate api c ≡ ok tt → (url : Url) × Passes c url
  unfolding validate
  validate-Passes c h = elim (Option-cases (api.parse_url c.relay_url)) [
    | inl e ↦ absurd (ground arith)
    | inr (url, e) ↦ (url, ground arith)
  ]

  identified_iff :
      (c : RelayRouteConfiguration Secret)
      → (lacks_identity api c ≡ false) ↔ (
          (trim c.relay_session_id ≢ [])
          × (trim c.publisher_group_id ≢ [])
          × (byte_len c.publisher_group_id ≤ 256))
  identified_iff c =
      ground
        (arith, nonempty_iff (trim c.relay_session_id), nonempty_iff (trim c.publisher_group_id))

  -- `validate` accepts a configuration exactly if it is valid. Its Relay URL parses to an origin: http
  -- or https with a host, no path but `/`, no query, fragment, user name or password. Over a WebSocket
  -- it is https or this machine. Its proxy, if any, parses to an http or https URL with a host and
  -- without path, query or fragment. Its session and group are not blank, and the group has at most 256
  -- bytes. Its bus is named by 1 to 64 letters, digits, points, lines and dashes. It has at most 16
  -- servers, each with 1 to 8 URLs of the form `stun:` or `stun://` and an authority, which is not
  -- empty, has no `/`, `?`, `#` or `@`, and no white space at its ends. Its startup timeout is between
  -- 1 ms and 2 min.
  pub validate_iff : (c : RelayRouteConfiguration Secret) → (validate api c ≡ ok tt) ↔ IsValid c
  validate_iff c = (sound, complete)
    where
      sound : validate api c ≡ ok tt → IsValid c
      sound h =
          let (url, p) = validate-Passes c h in
          let named = (identified_iff c).0 p.identified in
          record {
            origin = (
              url,
              p.parsed,
              (is_relay_origin_iff api url).0 p.origin,
              (is_insecure_iff c.transport url).0 p.secure,
            );
            proxy = (is_proxy_refused_iff c.http_proxy).0 p.proxied;
            session = named.0;
            group = named.1;
            group_bounded = named.2;
            bus = (is_valid_bus_iff c.bus_id).0 p.bus;
            few_servers = p.few_servers;
            servers = (check_servers_iff c.ice_servers).0 p.servers;
            starts_late = let t = p.timely in ground arith;
            starts_early = let t = p.timely in ground arith;
          }

      complete : IsValid c → validate api c ≡ ok tt
      complete v =
          let (url, parsed, origin, secure) = v.origin in
          Passes-validate c url (record {
            parsed = parsed;
            origin = (is_relay_origin_iff api url).1 origin;
            secure = (is_insecure_iff c.transport url).1 secure;
            proxied = (is_proxy_refused_iff c.http_proxy).1 v.proxy;
            identified = (identified_iff c).1 (v.session, v.group, v.group_bounded);
            bus = (is_valid_bus_iff c.bus_id).1 v.bus;
            few_servers = v.few_servers;
            servers = (check_servers_iff c.ice_servers).1 v.servers;
            timely = let a = v.starts_late in let b = v.starts_early in ground arith;
          })

  -- What a caller can make: `new`, and any of the `with_*` methods on what was made.
  pub data Built : RelayRouteConfiguration Secret → Type 0 where
    from_new :
        (url session bus : Text) (token : Secret) {c : RelayRouteConfiguration Secret}
        → new api url session token bus ≡ ok c
        → Built c
    from_group :
        {c d : RelayRouteConfiguration Secret} (group : Text)
        → Built c
        → with_publisher_group api c group ≡ ok d
        → Built d
    from_servers :
        {c d : RelayRouteConfiguration Secret} (servers : List RelayIceServer)
        → Built c
        → with_ice_servers api c servers ≡ ok d
        → Built d
    from_websocket :
        {c d : RelayRouteConfiguration Secret}
        → Built c
        → with_websocket_ingress api c ≡ ok d
        → Built d
    from_proxy :
        {c d : RelayRouteConfiguration Secret} (proxy : Secret)
        → Built c
        → with_http_proxy api c proxy ≡ ok d
        → Built d
    from_low_latency :
        {c d : RelayRouteConfiguration Secret} → Built c → with_low_latency api c ≡ d → Built d
    from_timeout :
        {c d : RelayRouteConfiguration Secret} (startup_timeout : ℕ)
        → Built c
        → with_startup_timeout api c startup_timeout ≡ ok d
        → Built d

  validated_valid :
      (c : RelayRouteConfiguration Secret) {d : RelayRouteConfiguration Secret}
      → validated api c ≡ ok d
      → validate api d ≡ ok tt
  validated_valid c {d} h = elim (Result-cases (validate api c)) [
    | inl (t, e) ↦ let same : c ≡ d = ground arith in rw (← same) e
    | inr (x, e) ↦ absurd (ground arith)
  ]

  latency_irrelevant :
      (c : RelayRouteConfiguration Secret) → validate api (with_low_latency api c) ≡ validate api c
  unfolding with_low_latency validate
  latency_irrelevant c = refl

  -- A configuration that `new` and the `with_*` methods made, in any order, passes `validate`.
  pub Built-validate : {c : RelayRouteConfiguration Secret} → Built c → validate api c ≡ ok tt
  unfolding new with_publisher_group with_ice_servers with_websocket_ingress with_http_proxy
      with_startup_timeout
  Built-validate (from_new url session bus token h) = validated_valid _ h
  Built-validate (from_group group b h) = validated_valid _ h
  Built-validate (from_servers servers b h) = validated_valid _ h
  Built-validate (from_websocket b h) = validated_valid _ h
  Built-validate (from_proxy {c} proxy b h) =
      validated_valid (record c { http_proxy = some proxy }) (ground arith)
  Built-validate (from_low_latency {c} b h) = rw (← h) (latency_irrelevant c ∙ Built-validate b)
  Built-validate (from_timeout startup_timeout b h) = validated_valid _ h
