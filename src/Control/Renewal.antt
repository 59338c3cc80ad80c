-- ===== src/Control/Renewal.antt =====
-- When a capability is made, renewed and handed out.
use connectors.Base.{ℕ, ◌+◌, ◌≤◌, ◌<◌, ◌≡◌, ◌≢◌, ◌↔◌, true, false, arith, ok}
use connectors.Configuration.Types.{RelayRouteConfiguration}
use connectors.Control.Handle.{
  SharedControl, PublisherCredential, max_capability_lifetime, validate_expiry, is_web_socket,
  new_with_revision, replace, snapshot,
}

-- A deadline in the next 24 hours.
abbrev pub IsCurrent : ℕ → ℕ → Type 0
IsCurrent now valid_until = (now < valid_until) × (valid_until ≤ now + max_capability_lifetime)

pub validate_expiry_iff :
    (now valid_until : ℕ) → (validate_expiry now valid_until ≡ ok tt) ↔ IsCurrent now valid_until
unfolding validate_expiry
validate_expiry_iff now valid_until = (λ h. ground arith, λ h. ground arith)

module _ {Secret : Type 0} where
  -- What a replacement has to bring.
  abbrev pub Renews : ℕ → ℕ → ℕ → SharedControl Secret → Type 0
  Renews now revision valid_until c =
      IsCurrent now valid_until
      × (c.poisoned ≡ false)
      × (c.is_revoked ≡ false)
      × (c.credential.revision < revision)
      × (c.credential.valid_until < valid_until)

  -- The shared state of a new handle.
  abbrev pub created : RelayRouteConfiguration Secret → ℕ → ℕ → SharedControl Secret
  created configuration valid_until revision = record {
    configuration = configuration;
    credential = record {
      token = configuration.source_token;
      valid_until = valid_until;
      revision = revision;
    };
    poisoned = false;
    published_revision = revision;
    is_revoked = false;
    claimed = false;
  }

  pub new_with_revision_iff :
      (now valid_until revision : ℕ) (configuration : RelayRouteConfiguration Secret)
      (after : SharedControl Secret)
      → (new_with_revision now configuration valid_until revision ≡ ok after) ↔ (
          (revision ≢ 0)
          × (is_web_socket configuration.transport ≡ true)
          × IsCurrent now valid_until
          × (after ≡ created configuration valid_until revision))
  unfolding new_with_revision validate_expiry
  new_with_revision_iff now valid_until revision configuration after =
      (λ h. ground arith, λ h. ground arith)

  -- `replace` succeeds exactly if the expiry lies in the next 24 hours, the lock is not poisoned, the
  -- handle is not revoked, and both the revision and the expiry advance; then the credential and the
  -- published revision are the new ones, and nothing else changed.
  pub replace_iff :
      (now revision valid_until : ℕ) (token : Secret) (c after : SharedControl Secret)
      → (replace now revision token valid_until c ≡ ok after) ↔ (
          Renews now revision valid_until c
          × (after ≡ record c {
            credential = record { token = token; valid_until = valid_until; revision = revision };
            published_revision = revision;
          }))
  unfolding replace validate_expiry
  replace_iff now revision valid_until token c after = (λ h. ground arith, λ h. ground arith)

  pub snapshot_iff :
      (now : ℕ) (c : SharedControl Secret) (k : PublisherCredential Secret)
      → (snapshot now c ≡ ok k) ↔ (
          (c.poisoned ≡ false)
          × (c.is_revoked ≡ false)
          × IsCurrent now c.credential.valid_until
          × (k ≡ c.credential))
  unfolding snapshot validate_expiry
  snapshot_iff now c k = (λ h. ground arith, λ h. ground arith)
