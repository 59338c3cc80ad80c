-- ===== src/Source/Configuration/Accepted.antt =====
-- Which configurations of a source are accepted (source.rs).
use connectors.Base.{
  ℕ, ◌≡◌, ◌≢◌, ◌≤◌, ◌↔◌, ◌⊎◌, inl, inr, refl, arith, Bool, true, false, not, ◌||◌, Text, text_eq,
  text_eq_iff, byte_len, is_empty, trim, ok, ltb, ◌==◌, fail_if, guard_iff, check_iff, ◌∷◌, codes,
  [],
}
use connectors.Source.Configuration.{
  RelayAudioBusSourceConfig, starts_with, validate_bounded_identity, validate,
  invalid_configuration, bounded_identity, Complaint, url_scheme, empty_token, zero_generation,
  zero_timeout,
}

-- Trimmed, not empty, and within a number of bytes.
abbrev pub IsIdentity : ℕ → Text → Type 0
IsIdentity maximum t = (t ≢ []) × (trim t ≡ t) × (byte_len t ≤ maximum)

is_empty_iff : (t : Text) → (is_empty t ≡ false) ↔ (t ≢ [])
is_empty_iff [] = (λ h. cc, λ h. absurd (h refl))
is_empty_iff (c ∷ t) = (λ h e. cc, λ h. refl)

validate_bounded_identity_iff :
    (t : Text) (maximum : ℕ) → (validate_bounded_identity t maximum ≡ ok tt) ↔ IsIdentity maximum t
unfolding validate_bounded_identity
validate_bounded_identity_iff t maximum =
    let guard =
      guard_iff (is_empty t || not (text_eq (trim t) t) || ltb maximum (byte_len t))
        (invalid_configuration bounded_identity) in
    let same = text_eq_iff (trim t) t in
    let full = is_empty_iff t in
    (
      λ h.
          let parts : (is_empty t ≡ false) × (text_eq (trim t) t ≡ true) × (byte_len t ≤ maximum) =
            ground (arith, guard.0 h) in
          (full.0 parts.0, same.0 parts.1, parts.2),
      λ h. guard.1 (ground (arith, full.1 h.0, same.1 h.1, h.2)),
    )

either_iff :
    (a b : Bool) (why : Complaint)
    → (fail_if (not (a || b)) (invalid_configuration why) ≡ ok tt) ↔ ((a ≡ true) ⊎ (b ≡ true))
either_iff true b why = (λ h. inl refl, λ h. refl)
either_iff false true why = (λ h. inr refl, λ h. refl)
either_iff false false why = (λ h. cc, λ h. ground (arith, h))

nonzero_iff :
    (n : ℕ) (why : Complaint) → (fail_if (n == 0) (invalid_configuration why) ≡ ok tt) ↔ (n ≢ 0)
nonzero_iff n why = (λ h z. ground (arith, h, z), λ h. ground (arith, h))

both_nonzero_iff :
    (m n : ℕ) (why : Complaint)
    → (fail_if (m == 0 || n == 0) (invalid_configuration why) ≡ ok tt) ↔ ((m ≢ 0) × (n ≢ 0))
both_nonzero_iff m n why =
    (λ h. ((λ z. ground (arith, h, z)), (λ z. ground (arith, h, z))), λ h. ground (arith, h))

abbrev pub IsAccepted : RelayAudioBusSourceConfig → Type 0
IsAccepted c =
    IsIdentity 2_048 c.relay_url
    × ((starts_with c.relay_url (codes "http://") ≡ true)
        ⊎ (starts_with c.relay_url (codes "https://") ≡ true))
    × IsIdentity 256 c.relay_session_id
    × IsIdentity 128 c.bus_id
    × (c.subscriber_token ≢ [])
    × (c.source_generation ≢ 0)
    × (c.startup_timeout ≢ 0)
    × (c.no_frame_timeout ≢ 0)

-- A configuration is accepted exactly if its URL, session and bus are trimmed, not empty and within
-- 2048, 256 and 128 bytes, the URL begins with one of the two schemes, and the token, the generation
-- and both timeouts are not empty or zero.
pub config_validate_iff : (c : RelayAudioBusSourceConfig) → (validate c ≡ ok tt) ↔ IsAccepted c
unfolding validate
config_validate_iff c =
    let url = validate_bounded_identity_iff c.relay_url 2_048 in
    let id = validate_bounded_identity_iff c.relay_session_id 256 in
    let bus = validate_bounded_identity_iff c.bus_id 128 in
    let scheme =
      either_iff (starts_with c.relay_url (codes "http://"))
        (starts_with c.relay_url (codes "https://")) url_scheme in
    let generation = nonzero_iff c.source_generation zero_generation in
    let timeouts = both_nonzero_iff c.startup_timeout c.no_frame_timeout zero_timeout in
    let token = is_empty_iff c.subscriber_token in
    (
      λ h.
          let a = (check_iff _ _).0 h in
          let b = (check_iff _ _).0 a.1 in
          let d = (check_iff _ _).0 b.1 in
          let e = (check_iff _ _).0 d.1 in
          let f = (check_iff _ _).0 e.1 in
          let g = (check_iff _ _).0 f.1 in
          (
            url.0 a.0,
            scheme.0 b.0,
            id.0 d.0,
            bus.0 e.0,
            token.0 (
                (guard_iff (is_empty c.subscriber_token) (invalid_configuration empty_token)).0
                  f.0),
            generation.0 g.0,
            (timeouts.0 g.1).0,
            (timeouts.0 g.1).1,
          ),
      λ h.
          let g = (check_iff _ _).1 (generation.1 h.5, timeouts.1 (h.6, h.7)) in
          let f = (check_iff _ _).1 (
            (guard_iff (is_empty c.subscriber_token) (invalid_configuration empty_token)).1
                (token.1 h.4),
            g,
          ) in
          let e = (check_iff _ _).1 (bus.1 h.3, f) in
          let d = (check_iff _ _).1 (id.1 h.2, e) in
          let b = (check_iff _ _).1 (scheme.1 h.1, d) in (check_iff _ _).1 (url.1 h.0, b),
    )
