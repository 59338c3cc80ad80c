-- ===== src/Control/Reachable.antt =====
-- The life of a handle: the states that calls lead to, in whatever order they come.
use connectors.Base.{
  ℕ, suc, ◌≤◌, ◌<◌, ◌≡◌, ◌⊎◌, inl, inr, refl, ◌∙◌, Bool, true, false, arith, ok, err, Result-cases,
}
use connectors.Configuration.Types.{RelayRouteConfiguration}
use connectors.Control.Handle.{
  SharedControl, RelayPublisherControlError, new_with_revision, replace, snapshot, revoke, claim,
  drop_lease,
}
use connectors.Control.Renewal.{replace_iff, snapshot_iff, new_with_revision_iff}

revoked_or_not :
    {P : Type 0} (is_revoked : Bool) → (is_revoked ≡ true → P) → (is_revoked ≡ false) ⊎ P
revoked_or_not true h = inr (h refl)
revoked_or_not false h = inl refl

module _ {Secret : Type 0} where
  -- One call on the shared state, which counts the leases that are held. Only a lease can be dropped.
  pub data Call : SharedControl Secret × ℕ → SharedControl Secret × ℕ → Type 0 where
    replacing :
        (now revision valid_until : ℕ) (token : Secret) {c after : SharedControl Secret} {held : ℕ}
        → replace now revision token valid_until c ≡ ok after
        → Call (c, held) (after, held)
    revoking : {c : SharedControl Secret} {held : ℕ} → Call (c, held) (revoke c, held)
    claiming :
        {c after : SharedControl Secret} {held : ℕ}
        → claim c ≡ ok after
        → Call (c, held) (after, suc held)
    releasing : {c : SharedControl Secret} {held : ℕ} → Call (c, suc held) (drop_lease c, held)
    poisoning :
        {c : SharedControl Secret} {held : ℕ} → Call (c, held) (record c { poisoned = true }, held)

  pub data Life : SharedControl Secret × ℕ → SharedControl Secret × ℕ → Type 0 where
    done : {s : SharedControl Secret × ℕ} → Life s s
    then : {s t u : SharedControl Secret × ℕ} → Call s t → Life t u → Life s u

  -- How a later state compares with an earlier one.
  pub record Advances (c after : SharedControl Secret) : Type 0 where
    pub bound : after.configuration ≡ c.configuration
    pub revision : c.credential.revision ≤ after.credential.revision
    pub expiry : c.credential.valid_until ≤ after.credential.valid_until
    pub unchanged_or_later :
        (after.credential ≡ c.credential) ⊎ (c.credential.revision < after.credential.revision)
    pub fenced :
        (c.is_revoked ≡ false) ⊎ ((after.is_revoked ≡ true) × (after.credential ≡ c.credential))

  step-Advances : {s t : SharedControl Secret × ℕ} → Call s t → Advances s.0 t.0
  unfolding revoke claim drop_lease
  step-Advances (replacing now revision valid_until token {c} {after} h) =
      let made = (replace_iff now revision valid_until token c after).0 h in
      record {
        bound = ground arith;
        revision = ground arith;
        expiry = ground arith;
        unchanged_or_later = ground arith;
        fenced = revoked_or_not c.is_revoked (λ e. ground arith);
      }
  step-Advances revoking = record {
    bound = refl;
    revision = ground arith;
    expiry = ground arith;
    unchanged_or_later = inl refl;
    fenced = inr (refl, refl);
  }
  step-Advances (claiming {c} {after} h) = record {
    bound = ground arith;
    revision = ground arith;
    expiry = ground arith;
    unchanged_or_later = ground arith;
    fenced = revoked_or_not c.is_revoked (λ e. ground arith);
  }
  step-Advances releasing = record {
    bound = refl;
    revision = ground arith;
    expiry = ground arith;
    unchanged_or_later = inl refl;
    fenced = revoked_or_not _ (λ e. (e, refl));
  }
  step-Advances poisoning = record {
    bound = refl;
    revision = ground arith;
    expiry = ground arith;
    unchanged_or_later = inl refl;
    fenced = revoked_or_not _ (λ e. (e, refl));
  }

  -- Over any run of calls the bound configuration stays, the revision and the expiry never go back, a
  -- new credential has a greater revision, and a revoked handle stays revoked with the credential that
  -- it had.
  pub Life-Advances : {s t : SharedControl Secret × ℕ} → Life s t → Advances s.0 t.0
  Life-Advances done = record {
    bound = refl;
    revision = omega arith;
    expiry = omega arith;
    unchanged_or_later = inl refl;
    fenced = revoked_or_not _ (λ e. (e, refl));
  }
  Life-Advances (then {s} {t} {u} call rest) =
      let first = step-Advances call in
      let later = Life-Advances rest in
      record {
        bound = later.bound ∙ first.bound;
        revision = let h = first.revision in let k = later.revision in omega arith;
        expiry = let h = first.expiry in let k = later.expiry in omega arith;
        unchanged_or_later = elim later.unchanged_or_later [
          | inl same ↦ elim first.unchanged_or_later [
            | inl same₁ ↦ inl (same ∙ same₁)
            | inr before ↦ inr (let k = later.revision in omega arith)
          ]
          | inr after ↦ inr (let k = first.revision in omega arith)
        ];
        fenced = elim first.fenced [
          | inl free ↦ inl free
          | inr (r₁, same₁) ↦ elim later.fenced [
            | inl free ↦ absurd cc
            | inr (r₂, same₂) ↦ inr (r₂, same₂ ∙ same₁)
          ]
        ];
      }

  -- After `revoke` and any run of calls, `snapshot` and `replace` return an error, at any time and for
  -- any credential.
  pub revoke-snapshot :
      (c : SharedControl Secret) (held : ℕ) {t : SharedControl Secret × ℕ}
      (now revision valid_until : ℕ) (token : Secret)
      → Life (revoke c, held) t
      → ((e : RelayPublisherControlError) × (snapshot now t.0 ≡ err e))
        × ((e : RelayPublisherControlError) × (replace now revision token valid_until t.0 ≡ err e))
  unfolding revoke
  revoke-snapshot c held {t} now revision valid_until token life =
      elim (Life-Advances life).fenced [
        | inl free ↦ absurd cc
        | inr (gone, same) ↦ (
          elim (Result-cases (snapshot now t.0)) [
            | inl (k, h) ↦ let (p, r, cur, eq) = (snapshot_iff now t.0 k).0 h in absurd cc
            | inr failed ↦ failed
          ],
          elim (Result-cases (replace now revision token valid_until t.0)) [
            | inl (after, h) ↦
                let ((cur, p, r, newer, later), made) =
                  (replace_iff now revision valid_until token t.0 after).0 h in
                absurd cc
            | inr failed ↦ failed
          ],
        )
      ]

  -- What holds of every handle that `new_with_revision` made.
  pub record IsConsistent (s : SharedControl Secret × ℕ) : Type 0 where
    pub published : s.0.published_revision ≡ s.0.credential.revision
    pub positive : 1 ≤ s.0.credential.revision
    pub leased : (s.0.claimed ≡ true) × (s.1 ≡ 1) ⊎ (s.0.claimed ≡ false) × (s.1 ≡ 0)

  step-IsConsistent : {s t : SharedControl Secret × ℕ} → Call s t → IsConsistent s → IsConsistent t
  unfolding revoke claim drop_lease
  step-IsConsistent (replacing now revision valid_until token {c} {after} h) v =
      let made = (replace_iff now revision valid_until token c after).0 h in
      let leased = v.leased in
      record { published = ground arith; positive = ground arith; leased = ground arith }
  step-IsConsistent revoking v = record {
    published = v.published;
    positive = v.positive;
    leased = v.leased;
  }
  step-IsConsistent (claiming {c} {after} h) v =
      let leased = v.leased in
      let published = v.published in
      let positive = v.positive in
      record { published = ground arith; positive = ground arith; leased = ground arith }
  step-IsConsistent releasing v =
      let leased = v.leased in
      record { published = v.published; positive = v.positive; leased = ground arith }
  step-IsConsistent poisoning v = record {
    published = v.published;
    positive = v.positive;
    leased = v.leased;
  }

  Life-IsConsistent : {s t : SharedControl Secret × ℕ} → Life s t → IsConsistent s → IsConsistent t
  Life-IsConsistent done v = v
  Life-IsConsistent (then call rest) v = Life-IsConsistent rest (step-IsConsistent call v)

  -- A handle that `new_with_revision` made has, after any run of calls, at most one lease, which
  -- `claimed` tells of, and the revision that it publishes is its credential's, at least 1.
  pub new_with_revision-IsConsistent :
      (now valid_until revision : ℕ) (configuration : RelayRouteConfiguration Secret)
      (c : SharedControl Secret) {t : SharedControl Secret × ℕ}
      → new_with_revision now configuration valid_until revision ≡ ok c
      → Life (c, 0) t
      → IsConsistent t
  new_with_revision-IsConsistent now valid_until revision configuration c made life =
      let parts = (new_with_revision_iff now valid_until revision configuration c).0 made in
      Life-IsConsistent life
        (record { published = ground arith; positive = ground arith; leased = ground arith })
