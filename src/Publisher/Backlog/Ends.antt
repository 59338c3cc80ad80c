-- ===== src/Publisher/Backlog/Ends.antt =====
-- The loop of `try_recv_frame` (rtc/publisher.rs) ends.
use connectors.Base.{
  on_cases, ℕ, zero, suc, ◌+◌, ◌<◌, ◌≡◌, ◌≢◌, ap, arith, Option, none, ◌++◌, length, length-append,
  Result, ok, wrapping_add, ok_inj,
}
use connectors.Publisher.Backlog.{
  PublisherBacklogPolicy, preserve, drop_stale, TryRecvError, Channel, Senders, try_recv,
  receive_freshest, try_recv_frame, select,
}
use connectors.Publisher.Backlog.Received.{sent, receive-ok, receive-moment}

module _ {Frame : Type 0} (senders : Senders Frame) where
  -- The frames that wait, and those that will be sent in the next `k` moments.
  abbrev pub to_come : Channel Frame → ℕ → ℕ
  to_come channel k = length channel.queue + length (sent senders channel.moment k)

  to_come-step :
      (channel : Channel Frame) (k : ℕ) {frame : Frame}
      → (try_recv senders channel).1 ≡ ok frame
      → to_come channel (suc k) ≡ suc (to_come (try_recv senders channel).0 k)
  unfolding try_recv
  to_come-step channel k got =
      let now = channel.moment in
      let sends = senders.sends now in
      let later =
        ap (λ t. length (sent senders t k)) (receive-moment senders now (channel.queue ++ sends)) in
      omega (
        arith,
        later,
        length-append sends (sent senders (suc now) k),
        length-append channel.queue sends,
        ap length (receive-ok senders now (channel.queue ++ sends) got),
      )

  receive_freshest-ends :
      (fuel : ℕ) (first : Frame) (drops : ℕ) (channel : Channel Frame)
      → to_come channel fuel < fuel
      → receive_freshest senders fuel first drops channel ≢ none
  unfolding receive_freshest
  receive_freshest-ends zero first drops channel h = absurd (omega arith)
  receive_freshest-ends (suc fuel) first drops channel h =
      on_cases (λ (o : Option (Channel Frame × (Frame × ℕ))). o ≢ none) (try_recv senders channel).1
        (λ next got.
          receive_freshest-ends fuel next (wrapping_add drops 1) (try_recv senders channel).0
            (omega (arith, h, to_come-step channel fuel got)))
        (λ problem failed ended. cc)

  select-ends :
      (policy : PublisherBacklogPolicy) (fuel : ℕ) (frame : Frame) (channel : Channel Frame)
      → to_come channel fuel < fuel
      → select senders policy fuel frame channel ≢ none
  select-ends preserve fuel frame channel h = λ ended. cc
  select-ends drop_stale fuel frame channel h = receive_freshest-ends fuel frame 0 channel h

  -- `try_recv_frame` returns at the latest when it has tried more often to receive than frames waited
  -- or came in that time: with such fuel it does not run out.
  pub try_recv_frame-ends :
      (policy : PublisherBacklogPolicy) (fuel : ℕ) (channel : Channel Frame)
      → to_come channel (suc fuel) < suc fuel
      → try_recv_frame senders policy fuel channel ≢ ok none
  unfolding try_recv_frame
  try_recv_frame-ends policy fuel channel h =
      on_cases (λ (o : Result TryRecvError (Option (Channel Frame × (Frame × ℕ)))). o ≢ ok none)
        (try_recv senders channel).1
        (λ frame got ended.
          select-ends policy fuel frame (try_recv senders channel).0
            (omega (arith, h, to_come-step channel fuel got)) (ok_inj ended))
        (λ problem failed ended. cc)
