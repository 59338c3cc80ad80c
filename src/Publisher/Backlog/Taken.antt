-- ===== src/Publisher/Backlog/Taken.antt =====
-- Which frame `try_recv_frame` (rtc/publisher.rs) returns, and which it passes over.
use connectors.Base.{
  ok_inj, on_cases, ℕ, suc, ◌+◌, ◌%◌, ◌≡◌, refl, sym, ap, subst, ◌∙◌, arith, Option, some, List, [],
  ◌∷◌, ◌++◌, length, append_assoc, append-nil, Result, ok, u64_mod,
}
use connectors.Publisher.Backlog.{
  PublisherBacklogPolicy, preserve, drop_stale, TryRecvError, Channel, Senders, try_recv, receive,
  try_recv_frame, select,
}
use connectors.Publisher.Backlog.Received.{
  zero_add, small, sent, receive-ok, receive-moment, Freshest, receive_freshest-Freshest,
}
use mathlib.Core.Option.{some-injective}

module _ {Frame : Type 0} (senders : Senders Frame) where
  -- What a policy leaves behind: `Preserve` has passed over nothing, `DropStale` has left nothing.
  abbrev pub Leaves : PublisherBacklogPolicy → List Frame → Channel Frame → Type 0
  Leaves preserve taken after = taken ≡ []
  Leaves drop_stale taken after = after.queue ≡ []

  -- The frame is one of those that waited or were sent, those before it are passed over and counted.
  abbrev pub Taken : PublisherBacklogPolicy → Channel Frame → Channel Frame × (Frame × ℕ) → Type 0
  Taken policy before (after, (frame, stale_drops)) =
      (k : ℕ) × (taken : List Frame) × (after.moment ≡ before.moment + k)
      × (before.queue ++ sent senders before.moment k ≡ taken ++ frame ∷ after.queue)
      × (stale_drops ≡ length taken % u64_mod)
      × Leaves policy taken after

  Taken-first :
      (channel : Channel Frame) {frame : Frame}
      → (try_recv senders channel).1 ≡ ok frame
      → Taken preserve channel ((try_recv senders channel).0, (frame, 0))
  unfolding try_recv
  Taken-first channel got =
      let now = channel.moment in
      (
        1,
        [],
        receive-moment senders now (channel.queue ++ senders.sends now) ∙ omega arith,
        ap (◌++◌ channel.queue) (append-nil (senders.sends now))
            ∙ receive-ok senders now (channel.queue ++ senders.sends now) got,
        small 0 (omega arith),
        refl,
      )

  Taken-Freshest :
      (channel : Channel Frame) {frame : Frame} {out : Channel Frame × (Frame × ℕ)}
      → (try_recv senders channel).1 ≡ ok frame
      → Freshest senders frame 0 (try_recv senders channel).0 out
      → Taken drop_stale channel out
  unfolding try_recv
  Taken-Freshest channel {frame} {out} got (k, taken, later, split, emptied, count) =
      let now = channel.moment in
      let sends = senders.sends now in
      let frames = channel.queue ++ sends in
      (
        suc k,
        taken,
        later ∙ ap (λ t. t + k) (receive-moment senders now frames) ∙ omega arith,
        sym (append_assoc channel.queue sends (sent senders (suc now) k))
            ∙ ap (λ all. all ++ sent senders (suc now) k) (receive-ok senders now frames got)
            ∙ ap (λ t. frame ∷ ((receive senders now frames).0.queue ++ sent senders t k))
                (sym (receive-moment senders now frames))
            ∙ split
            ∙ ap (λ rest. taken ++ out.1.0 ∷ rest) (sym emptied),
        count ∙ ap (λ n. n % u64_mod) (zero_add (length taken)),
        emptied,
      )

  Taken-select :
      (policy : PublisherBacklogPolicy) (fuel : ℕ) (channel : Channel Frame) {frame : Frame}
      {out : Channel Frame × (Frame × ℕ)}
      → (try_recv senders channel).1 ≡ ok frame
      → select senders policy fuel frame (try_recv senders channel).0 ≡ some out
      → Taken policy channel out
  Taken-select preserve fuel channel got e =
      subst (Taken preserve channel) (some-injective _ _ e) (Taken-first channel got)
  Taken-select drop_stale fuel channel {frame} got e =
      Taken-Freshest channel got (
        receive_freshest-Freshest senders fuel frame 0 (try_recv senders channel).0 (omega arith) e)

  -- When `try_recv_frame` returns a frame, the frames that waited and those sent meanwhile are, in
  -- their order, some that were passed over, the frame, and what waits now. It returns the number of
  -- those passed over, modulo 2 ^ 64. `Preserve` passes over none, `DropStale` leaves none waiting.
  pub try_recv_frame-Taken :
      (policy : PublisherBacklogPolicy) (fuel : ℕ) (channel : Channel Frame)
      {out : Channel Frame × (Frame × ℕ)}
      → try_recv_frame senders policy fuel channel ≡ ok (some out)
      → Taken policy channel out
  unfolding try_recv_frame
  try_recv_frame-Taken policy fuel channel {out} e =
      on_cases
        (λ (o : Result TryRecvError (Option (Channel Frame × (Frame × ℕ)))).
          o ≡ ok (some out) → Taken policy channel out)
        (try_recv senders channel).1
        (λ frame got returned. Taken-select policy fuel channel got (ok_inj returned))
        (λ problem failed returned. cc) e
