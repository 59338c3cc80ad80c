-- ===== src/Control/Handle.antt =====
-- `RelayPublisherControl` and its operations, `PublisherLease` and `validate_expiry`.
-- The handle's clones share one state, so an operation takes the shared state and returns it; `now` is
-- what the clock answers during the call, in nanoseconds. `poisoned` says that a thread panicked while
-- it held the credential's lock.
use connectors.Base.{
  ℕ, ◌-◌, Bool, true, false, not, ◌&&◌, ◌||◌, text_eq, Result, ok, ◌>>◌, fail_if, ltb, leb, ◌==◌,
}
use connectors.Configuration.Types.{
  RelayRouteConfiguration, RelayPublicationTransport, web_rtc, web_socket,
}

-- 24 hours.
abbrev pub max_capability_lifetime : ℕ
max_capability_lifetime = 86_400_000_000_000

pub data RelayPublisherControlError : Type 0 where
  unsupported_transport invalid_expiry stale_replacement : RelayPublisherControlError
  revoked unavailable already_publishing : RelayPublisherControlError

abbrev pub Controlled : Type 0 → Type 0
Controlled A = Result RelayPublisherControlError A

pub record PublisherCredential (Secret : Type 0) : Type 0 where
  pub token : Secret
  pub valid_until : ℕ
  pub revision : ℕ

pub record SharedControl (Secret : Type 0) : Type 0 where
  pub configuration : RelayRouteConfiguration Secret
  pub credential : PublisherCredential Secret
  pub poisoned : Bool
  pub published_revision : ℕ
  pub is_revoked : Bool
  pub claimed : Bool

unfoldable pub is_web_socket : RelayPublicationTransport → Bool
is_web_socket web_rtc = false
is_web_socket web_socket = true

-- An `Instant` before `now` has no duration since it.
unfoldable pub validate_expiry : ℕ → ℕ → Controlled (Unit {0})
validate_expiry now valid_until =
    let duration = valid_until - now in
    fail_if (ltb valid_until now || duration == 0 || not (leb duration max_capability_lifetime))
      invalid_expiry

module _ {Secret : Type 0} where
  unfoldable pub new_with_revision :
      ℕ → RelayRouteConfiguration Secret → ℕ → ℕ → Controlled (SharedControl Secret)
  new_with_revision now configuration valid_until revision = do
    fail_if (revision == 0) stale_replacement
    fail_if (not (is_web_socket configuration.transport)) unsupported_transport
    validate_expiry now valid_until
    ok (record {
      configuration = configuration;
      credential = record {
        token = configuration.source_token;
        valid_until = valid_until;
        revision = revision;
      };
      poisoned = false;
      published_revision = revision;
      is_revoked = false;
      claimed = false;
    })

  unfoldable pub new : ℕ → RelayRouteConfiguration Secret → ℕ → Controlled (SharedControl Secret)
  new now configuration valid_until = new_with_revision now configuration valid_until 1

  unfoldable pub replace :
      ℕ → ℕ → Secret → ℕ → SharedControl Secret → Controlled (SharedControl Secret)
  replace now revision source_token valid_until c = do
    validate_expiry now valid_until
    fail_if c.poisoned unavailable
    fail_if c.is_revoked revoked
    fail_if (leb revision c.credential.revision || leb valid_until c.credential.valid_until)
        stale_replacement
    ok (record c {
      credential = record { token = source_token; valid_until = valid_until; revision = revision };
      published_revision = revision;
    })

  unfoldable pub revoke : SharedControl Secret → SharedControl Secret
  revoke c = record c { is_revoked = true }

  abbrev pub revision : SharedControl Secret → ℕ
  revision c = c.published_revision

  unfoldable pub snapshot : ℕ → SharedControl Secret → Controlled (PublisherCredential Secret)
  snapshot now c = do
    fail_if c.poisoned unavailable
    fail_if c.is_revoked revoked
    validate_expiry now c.credential.valid_until
    ok c.credential

  unfoldable pub matches : SharedControl Secret → RelayRouteConfiguration Secret → Bool
  matches c other =
      let bound = c.configuration in
      text_eq bound.relay_url other.relay_url
      && text_eq bound.relay_session_id other.relay_session_id
      && text_eq bound.publisher_group_id other.publisher_group_id
      && is_web_socket other.transport

  -- A claim that succeeds returns a lease, which `drop_lease` gives back.
  unfoldable pub claim : SharedControl Secret → Controlled (SharedControl Secret)
  claim c = do fail_if c.claimed already_publishing; ok (record c { claimed = true })

  unfoldable pub drop_lease : SharedControl Secret → SharedControl Secret
  drop_lease c = record c { claimed = false }
