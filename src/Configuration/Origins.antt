-- ===== src/Configuration/Origins.antt =====
-- Which URLs are origins, and which hosts are this machine (`validate` of configuration.rs,
-- `checked_proxy` of rtc/proxy.rs), independently of the code's tests.
use connectors.Base.{
  ◌*◌, ◌^◌, ◌≤◌, ◌<◌, ◌≡◌, ◌≢◌, refl, ◌↔◌, ◌⊎◌, inl, inr, true, false, Option, none, some, List, [],
  ◌∷◌, map, arith, Text, text_eq_iff, codes, is_empty, is_some, ascii_lower, eq_ignore_ascii_case,
  Option-cases,
}
use connectors.Configuration.Types.{Api, Host, ipv4, ipv6, domain}
use connectors.Configuration.Validation.{
  is_loopback, is_web_scheme, is_root_path, is_relay_origin, is_proxy_origin, checked_proxy,
}

is_none_iff {ℓ} : {A : Type ℓ} (o : Option A) → (is_some o ≡ false) ↔ (o ≡ none)
is_none_iff none = (λ h. refl, λ h. refl)
is_none_iff (some a) = (λ h. cc, λ h. cc)

is_some_iff {ℓ} : {A : Type ℓ} (o : Option A) → (is_some o ≡ true) ↔ (o ≢ none)
is_some_iff none = (λ h. cc, λ h. absurd (h refl))
is_some_iff (some a) = (λ h e. cc, λ h. refl)

is_nil_iff {ℓ} : {A : Type ℓ} (xs : List A) → (is_empty xs ≡ true) ↔ (xs ≡ [])
is_nil_iff [] = (λ h. refl, λ h. refl)
is_nil_iff (x ∷ xs) = (λ h. cc, λ h. cc)

abbrev pub IsWebScheme : Text → Type 0
IsWebScheme scheme = (scheme ≡ codes "http") ⊎ (scheme ≡ codes "https")

is_web_scheme_iff : (scheme : Text) → (is_web_scheme scheme ≡ true) ↔ IsWebScheme scheme
is_web_scheme_iff scheme =
    ground (arith, text_eq_iff scheme (codes "http"), text_eq_iff scheme (codes "https"))

abbrev pub IsRootPath : Text → Type 0
IsRootPath path = (path ≡ []) ⊎ (path ≡ codes "/")

is_root_path_iff : (path : Text) → (is_root_path path ≡ true) ↔ IsRootPath path
is_root_path_iff path = ground (arith, is_nil_iff path, text_eq_iff path (codes "/"))

-- This machine: an address of 127.0.0.0/8, ::1, or the name localhost in any case.
abbrev pub IsLoopback : Option Host → Type 0
IsLoopback none = ⊥
IsLoopback (some (ipv4 address)) = (127 * 2 ^ 24 ≤ address) × (address < 128 * 2 ^ 24)
IsLoopback (some (ipv6 address)) = address ≡ 1
IsLoopback (some (domain name)) = map ascii_lower name ≡ codes "localhost"

eq_ignore_ascii_case_iff :
    (s t : Text) → (eq_ignore_ascii_case s t ≡ true) ↔ (map ascii_lower s ≡ map ascii_lower t)
unfolding eq_ignore_ascii_case
eq_ignore_ascii_case_iff [] [] = (λ h. refl, λ h. refl)
eq_ignore_ascii_case_iff [] (b ∷ t) = (λ h. cc, λ h. cc)
eq_ignore_ascii_case_iff (a ∷ s) [] = (λ h. cc, λ h. cc)
eq_ignore_ascii_case_iff (a ∷ s) (b ∷ t) = ground (arith, eq_ignore_ascii_case_iff s t)

pub is_loopback_iff : (host : Option Host) → (is_loopback host ≡ true) ↔ IsLoopback host
unfolding is_loopback
is_loopback_iff none = (λ h. cc, λ h. absurd h)
is_loopback_iff (some (ipv4 address)) = ground arith
is_loopback_iff (some (ipv6 address)) = ground arith
is_loopback_iff (some (domain name)) = eq_ignore_ascii_case_iff name (codes "localhost")

module _ {Secret Url : Type 0} (api : Api Secret Url) where
  -- Scheme, host and port alone.
  pub record IsRelayOrigin (url : Url) : Type 0 where
    pub scheme : IsWebScheme (api.scheme url)
    pub host : api.host url ≢ none
    pub base : api.cannot_be_a_base url ≡ false
    pub path : IsRootPath (api.path url)
    pub query : api.query url ≡ none
    pub fragment : api.fragment url ≡ none
    pub username : api.username url ≡ []
    pub password : api.password url ≡ none

  pub is_relay_origin_iff : (url : Url) → (is_relay_origin api url ≡ true) ↔ IsRelayOrigin url
  unfolding is_relay_origin
  is_relay_origin_iff url = (sound, complete)
    where
      sound : is_relay_origin api url ≡ true → IsRelayOrigin url
      sound h = record {
        scheme = (is_web_scheme_iff (api.scheme url)).0 (ground (arith, h));
        host = (is_some_iff (api.host url)).0 (ground (arith, h));
        base = ground (arith, h);
        path = (is_root_path_iff (api.path url)).0 (ground (arith, h));
        query = (is_none_iff (api.query url)).0 (ground (arith, h));
        fragment = (is_none_iff (api.fragment url)).0 (ground (arith, h));
        username = (is_nil_iff (api.username url)).0 (ground (arith, h));
        password = (is_none_iff (api.password url)).0 (ground (arith, h));
      }

      complete : IsRelayOrigin url → is_relay_origin api url ≡ true
      complete o =
          let a = (is_web_scheme_iff (api.scheme url)).1 o.scheme in
          let b = (is_some_iff (api.host url)).1 o.host in
          let c = o.base in
          let d = (is_root_path_iff (api.path url)).1 o.path in
          let e = (is_none_iff (api.query url)).1 o.query in
          let f = (is_none_iff (api.fragment url)).1 o.fragment in
          let g = (is_nil_iff (api.username url)).1 o.username in
          let h = (is_none_iff (api.password url)).1 o.password in
          rw a (rw b (rw c (rw d (rw e (rw f (rw g (rw h refl)))))))

  -- A proxy's URL may carry credentials.
  pub record IsProxyOrigin (url : Url) : Type 0 where
    pub scheme : IsWebScheme (api.scheme url)
    pub host : api.host url ≢ none
    pub path : IsRootPath (api.path url)
    pub query : api.query url ≡ none
    pub fragment : api.fragment url ≡ none

  is_proxy_origin_iff : (url : Url) → (is_proxy_origin api url ≡ true) ↔ IsProxyOrigin url
  unfolding is_proxy_origin
  is_proxy_origin_iff url = (sound, complete)
    where
      sound : is_proxy_origin api url ≡ true → IsProxyOrigin url
      sound h = record {
        scheme = (is_web_scheme_iff (api.scheme url)).0 (ground (arith, h));
        host = (is_some_iff (api.host url)).0 (ground (arith, h));
        path = (is_root_path_iff (api.path url)).0 (ground (arith, h));
        query = (is_none_iff (api.query url)).0 (ground (arith, h));
        fragment = (is_none_iff (api.fragment url)).0 (ground (arith, h));
      }

      complete : IsProxyOrigin url → is_proxy_origin api url ≡ true
      complete o =
          let a = (is_web_scheme_iff (api.scheme url)).1 o.scheme in
          let b = (is_some_iff (api.host url)).1 o.host in
          let d = (is_root_path_iff (api.path url)).1 o.path in
          let e = (is_none_iff (api.query url)).1 o.query in
          let f = (is_none_iff (api.fragment url)).1 o.fragment in
          rw a (rw b (rw d (rw e (rw f refl))))

  abbrev pub IsProxy : Text → Type 0
  IsProxy raw = (url : Url) × (api.parse_url raw ≡ some url) × IsProxyOrigin url

  pub checked_proxy_iff : (raw : Text) → (is_some (checked_proxy api raw) ≡ true) ↔ IsProxy raw
  unfolding checked_proxy
  checked_proxy_iff raw = (
    λ h. elim (Option-cases (api.parse_url raw)) [
      | inl e ↦ absurd (ground (arith, h, e))
      | inr (url, e) ↦ (url, e, (is_proxy_origin_iff url).0 (ground (arith, h, e)))
    ],
    λ (url, e, o). let t = (is_proxy_origin_iff url).1 o in ground (arith, e, t),
  )
