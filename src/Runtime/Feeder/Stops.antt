-- ===== src/Runtime/Feeder/Stops.antt =====
-- A feeder ends once the transport has stopped (runtime.rs).
use connectors.Base.{
  on_option, le_or_lt, ℕ, zero, suc, ◌≤◌, ◌<◌, ◌-◌, ◌≡◌, ◌≢◌, sym, ap, ◌∙◌, arith, true, none, some,
  inl, inr,
}
use connectors.Runtime.Feeder.{
  Surroundings, Feeding, FeederEnd, returned, out_of_fuel, offer, handle, turn, feed,
}

module _ (around : Surroundings) where
  turn-advances : (f : Feeding) → f.moment < (turn around f).0.moment
  unfolding turn handle offer
  turn-advances f = ground arith

  turn-stops : (f : Feeding) → around.is_stopped f.moment ≡ true → (turn around f).1 ≡ some returned
  unfolding turn
  turn-stops f h = ground (arith, h)

  turn-ends : (f : Feeding) → (turn around f).1 ≢ some out_of_fuel
  unfolding turn handle offer
  turn-ends f h = ground arith

  clash : some returned ≢ none
  clash e = cc

  -- Once `is_stopped` stays true, a feeder with more fuel than there are moments until then ends: it
  -- returns its receiver, or it has panicked.
  pub feed-terminates :
      (stop_at fuel : ℕ) (f : Feeding)
      → ((t : ℕ) → stop_at ≤ t → around.is_stopped t ≡ true)
      → stop_at - f.moment < fuel
      → (feed around fuel f).1 ≢ out_of_fuel
  unfolding feed
  feed-terminates stop_at zero f h small = absurd (omega arith)
  feed-terminates stop_at (suc fuel) f h small =
      on_option (λ (r : Feeding × FeederEnd). r.1 ≢ out_of_fuel) (turn around f).1
        (λ going. elim (le_or_lt stop_at f.moment) [
          | inl late ↦
              let ends = turn-stops f (h f.moment late) in absurd (clash (sym ends ∙ going))
          | inr early ↦
              feed-terminates stop_at fuel (turn around f).0 h
                (omega (arith, turn-advances f, early, small))
        ])
        (λ end e same. turn-ends f (e ∙ ap some same))
