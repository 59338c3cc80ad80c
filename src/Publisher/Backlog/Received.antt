-- ===== src/Publisher/Backlog/Received.antt =====
-- What the loop over stale frames (rtc/publisher.rs) takes from the channel.
use connectors.Base.{
  on_cases, ℕ, zero, suc, ◌+◌, ◌%◌, ◌<◌, ◌≡◌, refl, sym, ap, subst, ◌∙◌, arith, Option, some, List,
  [], ◌∷◌, ◌++◌, length, append_assoc, append-nil, ok, err, u64_mod, wrapping_add,
}
use connectors.Publisher.Backlog.{
  TryRecvError, Channel, Senders, try_recv, receive, receive_freshest,
}
use mathlib.Core.Option.{some-injective}

mod_again : (d n : ℕ) → ((d + 1) % u64_mod + n) % u64_mod ≡ (d + suc n) % u64_mod
mod_again d n = omega arith

pub zero_add : (n : ℕ) → 0 + n ≡ n
zero_add n = omega arith

below : (d : ℕ) → wrapping_add d 1 < u64_mod
below d = omega arith

pub small : (d : ℕ) → d < u64_mod → d ≡ (d + 0) % u64_mod
small d h = omega arith

module _ {Frame : Type 0} (senders : Senders Frame) where
  -- What is sent in `k` moments from `t` on.
  abbrev pub sent : ℕ → ℕ → List Frame
  sent t zero = []
  sent t (suc k) = senders.sends t ++ sent (suc t) k

  pub receive-ok :
      (t : ℕ) (frames : List Frame) {x : Frame}
      → (receive senders t frames).1 ≡ ok x
      → frames ≡ x ∷ (receive senders t frames).0.queue
  receive-ok t [] h = cc
  receive-ok t (frame ∷ rest) h = cc

  receive-err :
      (t : ℕ) (frames : List Frame) {e : TryRecvError}
      → (receive senders t frames).1 ≡ err e
      → (frames ≡ []) × ((receive senders t frames).0.queue ≡ [])
  receive-err t [] h = (refl, refl)
  receive-err t (frame ∷ rest) h = cc

  pub receive-moment : (t : ℕ) (frames : List Frame) → (receive senders t frames).0.moment ≡ suc t
  receive-moment t [] = refl
  receive-moment t (frame ∷ rest) = refl

  -- The loop took `taken`, then `freshest`, the last of all, and found the channel empty.
  abbrev pub Freshest : Frame → ℕ → Channel Frame → Channel Frame × (Frame × ℕ) → Type 0
  Freshest first drops before (after, (freshest, stale_drops)) =
      (k : ℕ) × (taken : List Frame) × (after.moment ≡ before.moment + k)
      × (first ∷ (before.queue ++ sent before.moment k) ≡ taken ++ freshest ∷ [])
      × (after.queue ≡ [])
      × (stale_drops ≡ (drops + length taken) % u64_mod)

  Freshest-stop :
      (first : Frame) (drops : ℕ) (channel : Channel Frame) {problem : TryRecvError}
      → drops < u64_mod
      → (try_recv senders channel).1 ≡ err problem
      → Freshest first drops channel ((try_recv senders channel).0, (first, drops))
  unfolding try_recv
  Freshest-stop first drops channel h failed =
      let now = channel.moment in
      let none_left = receive-err now (channel.queue ++ senders.sends now) failed in
      (
        1,
        [],
        receive-moment now (channel.queue ++ senders.sends now) ∙ omega arith,
        ap (λ sends. first ∷ (channel.queue ++ sends)) (append-nil (senders.sends now))
            ∙ ap (◌∷◌ first) none_left.0,
        none_left.1,
        small drops h,
      )

  Freshest-step :
      (first next : Frame) (drops : ℕ) (channel : Channel Frame) {out : Channel Frame × (Frame × ℕ)}
      → (try_recv senders channel).1 ≡ ok next
      → Freshest next (wrapping_add drops 1) (try_recv senders channel).0 out
      → Freshest first drops channel out
  unfolding try_recv
  Freshest-step first next drops channel got (k, taken, later, split, emptied, count) =
      let now = channel.moment in
      let sends = senders.sends now in
      let frames = channel.queue ++ sends in
      (
        suc k,
        first ∷ taken,
        later ∙ ap (λ t. t + k) (receive-moment now frames) ∙ omega arith,
        ap (◌∷◌ first) (
            sym (append_assoc channel.queue sends (sent (suc now) k))
            ∙ ap (λ all. all ++ sent (suc now) k) (receive-ok now frames got)
            ∙ ap (λ t. next ∷ ((receive senders now frames).0.queue ++ sent t k))
                (sym (receive-moment now frames))
            ∙ split),
        emptied,
        count ∙ mod_again drops (length taken),
      )

  pub receive_freshest-Freshest :
      (fuel : ℕ) (first : Frame) (drops : ℕ) (channel : Channel Frame)
      {out : Channel Frame × (Frame × ℕ)}
      → drops < u64_mod
      → receive_freshest senders fuel first drops channel ≡ some out
      → Freshest first drops channel out
  unfolding receive_freshest
  receive_freshest-Freshest zero first drops channel h e = cc
  receive_freshest-Freshest (suc fuel) first drops channel {out} h e =
      on_cases
        (λ (o : Option (Channel Frame × (Frame × ℕ))).
          o ≡ some out → Freshest first drops channel out)
        (try_recv senders channel).1
        (λ next got going. Freshest-step first next drops channel got (
          receive_freshest-Freshest fuel next (wrapping_add drops 1) (try_recv senders channel).0
            (below drops) going))
        (λ problem failed stopped.
          subst (Freshest first drops channel) (some-injective _ _ stopped)
            (Freshest-stop first drops channel h failed))
        e
