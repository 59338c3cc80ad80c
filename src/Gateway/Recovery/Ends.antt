-- ===== src/Gateway/Recovery/Ends.antt =====
-- The waiting loop of `reattach` ends, if the clock goes on.
use connectors.Base.{ℕ, zero, suc, ◌-◌, ◌≤◌, ◌<◌, ◌≡◌, ◌≢◌, false, arith, leb, Bool-cases, inl, inr}
use connectors.Gateway.Ingress.{World, Group, out_of_fuel, ask, return, throw, diverge, ◌>>=◌}
use connectors.Gateway.Recovery.{wait, is_revoked}

module _ {Secret Generation : Type 0} (world : World Secret Generation)
    (tick : (t : ℕ) → t ≤ world.now t) where
  -- On a clock that shows a nanosecond at least for each question asked so far, the wait for a moment
  -- never runs out of fuel that exceeds the time to be waited for, counted from the number of questions
  -- asked.
  pub wait-terminates :
      (fuel wait_until : ℕ) (g : Group Secret)
      → suc wait_until - g.moment < fuel
      → (wait world fuel wait_until g).1 ≢ out_of_fuel
  unfolding wait ask return throw diverge ◌>>=◌
  wait-terminates zero wait_until g enough = absurd (omega arith)
  wait-terminates (suc fuel) wait_until g enough =
      elim (Bool-cases (leb wait_until (world.now g.moment))) [
        | inl reached ↦ rw reached (λ e. cc)
        | inr before ↦
            let clock = tick g.moment in
            let early = not_leb→lt wait_until (world.now g.moment) before in
            let later =
              wait-terminates fuel wait_until (record g { moment = suc (suc (suc g.moment)) })
                (omega arith) in
            rw before (elim (Bool-cases (world.is_stop_requested (suc g.moment))) [
              | inl stopping ↦ rw stopping (λ e. cc)
              | inr going ↦ rw going (elim (Bool-cases (is_revoked world (suc (suc g.moment)))) [
                | inl gone ↦ rw gone (λ e. cc)
                | inr kept ↦ rw kept later
              ])
            ])
      ]
    where
      not_leb→lt : (a b : ℕ) → leb a b ≡ false → b < a
      not_leb→lt a b h = ground arith
