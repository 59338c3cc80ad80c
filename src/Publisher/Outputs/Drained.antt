-- ===== src/Publisher/Outputs/Drained.antt =====
-- `drain_all_outputs` (rtc/types.rs) leaves str0m only at a deadline, and it ends.
use connectors.Base.{
  on_option, le_or_lt, ok_inj, subst, ℕ, zero, suc, ◌-◌, ◌≤◌, ◌<◌, inl, inr, ◌≡◌, ◌≢◌, refl, sym,
  ap, ◌∙◌, arith, Option, none, some, List, [], ◌∷◌, ◌++◌, append-nil, append_assoc, Text, Result,
  ok, err,
}
use mathlib.Core.Option.{some-injective}
use connectors.Publisher.Outputs.{
  World, Drain, Output, Transmit, SendError, timeout, transmit, event, would_block, other,
  on_output, drain_all_outputs, polled, send_failure,
}

-- The datagrams among the outputs.
abbrev pub datagrams : List Output → List Transmit
datagrams [] = []
datagrams (timeout t ∷ outputs) = datagrams outputs
datagrams (transmit t ∷ outputs) = t ∷ datagrams outputs
datagrams (event ∷ outputs) = datagrams outputs

send_failure-not_ok :
    (sent : Result SendError (Unit {0})) {deadline : ℕ} → send_failure sent ≢ some (ok deadline)
send_failure-not_ok (ok done) h = cc
send_failure-not_ok (err would_block) h = cc
send_failure-not_ok (err (other problem)) h = cc

module _ (world : World) where
  -- From the moment `t` on str0m is polled for the outputs, none a deadline, and then for `deadline`
  -- at the moment `last`; between two polls is at most the write of a datagram.
  abbrev pub Polls : ℕ → List Output → ℕ → ℕ → Type 0
  Polls t [] deadline last = (t ≡ last) × (world.poll_output last ≡ ok (timeout deadline))
  Polls t (timeout early ∷ outputs) deadline last = ⊥
  Polls t (transmit datagram ∷ outputs) deadline last =
      (world.poll_output t ≡ ok (transmit datagram)) × Polls (suc (suc t)) outputs deadline last
  Polls t (event ∷ outputs) deadline last =
      (world.poll_output t ≡ ok event) × Polls (suc t) outputs deadline last

  abbrev pub Drained : Drain → Drain → ℕ → Type 0
  Drained before after deadline =
      (outputs : List Output) × (last : ℕ) × Polls before.moment outputs deadline last
      × (after.moment ≡ suc last)
      × (after.handed ≡ before.handed ++ datagrams outputs)

  -- A turn that ends with a deadline.
  Drained-stop :
      (d : Drain) (result : Result Text Output) {deadline : ℕ}
      → world.poll_output d.moment ≡ result
      → (on_output world (polled d) result).1 ≡ some (ok deadline)
      → Drained d (on_output world (polled d) result).0 deadline
  unfolding on_output
  Drained-stop d (err problem) e h = cc
  Drained-stop d (ok (timeout t)) e h = (
    [],
    d.moment,
    (refl, e ∙ ap (λ at. ok (timeout at)) (ok_inj (some-injective _ _ h))),
    refl,
    sym (append-nil d.handed),
  )
  Drained-stop d (ok (transmit t)) e h =
      absurd (send_failure-not_ok (world.send_to (suc d.moment) t) h)
  Drained-stop d (ok event) e h = cc

  Drained-step :
      (d after : Drain) (result : Result Text Output) (deadline : ℕ)
      → world.poll_output d.moment ≡ result
      → (on_output world (polled d) result).1 ≡ none
      → Drained (on_output world (polled d) result).0 after deadline
      → Drained d after deadline
  unfolding on_output
  Drained-step d after (err problem) deadline e h rest = cc
  Drained-step d after (ok (timeout t)) deadline e h rest = cc
  Drained-step d after (ok (transmit t)) deadline e h (outputs, last, polls, now, all) = (
    transmit t ∷ outputs,
    last,
    (e, polls),
    now,
    all ∙ append_assoc d.handed (t ∷ []) (datagrams outputs),
  )
  Drained-step d after (ok event) deadline e h (outputs, last, polls, now, all) =
      (event ∷ outputs, last, (e, polls), now, all)

  -- When `drain_all_outputs` returns a deadline, str0m has been polled until it answered with that
  -- deadline and no further, none of the answers before was a deadline or an error, and the socket was
  -- given exactly the datagrams among them, in their order.
  pub drain_all_outputs-Drained :
      (fuel : ℕ) (d after : Drain) (deadline : ℕ)
      → drain_all_outputs world fuel d ≡ (after, some (ok deadline))
      → Drained d after deadline
  unfolding drain_all_outputs
  drain_all_outputs-Drained zero d after deadline e = cc
  drain_all_outputs-Drained (suc fuel) d after deadline e =
      let result = world.poll_output d.moment in
      let turn = on_output world (polled d) result in
      on_option
        (λ (r : Drain × Option (Result Text ℕ)).
          r ≡ (after, some (ok deadline)) → Drained d after deadline)
        turn.1
        (λ going rest.
          Drained-step d after result deadline refl going
            (drain_all_outputs-Drained fuel turn.0 after deadline rest))
        (λ answer stopped same.
          subst (λ last. Drained d last deadline) (ap (λ r. r.0) same)
            (Drained-stop d result refl (stopped ∙ ap (λ r. r.1) same)))
        e

  on_output-advances :
      (d : Drain) (result : Result Text Output) → d.moment ≤ (on_output world d result).0.moment
  unfolding on_output
  on_output-advances d (err problem) = omega arith
  on_output-advances d (ok (timeout t)) = omega arith
  on_output-advances d (ok (transmit t)) = omega arith
  on_output-advances d (ok event) = omega arith

  -- str0m has nothing to do at a moment but wait.
  abbrev pub IsIdle : ℕ → Type 0
  IsIdle t = (deadline : ℕ) × (world.poll_output t ≡ ok (timeout deadline))

  idle-stops :
      (d : Drain)
      → IsIdle d.moment
      → (on_output world (polled d) (world.poll_output d.moment)).1 ≢ none
  unfolding on_output
  idle-stops d (deadline, waits) going =
      let stops = ap (λ r. (on_output world (polled d) r).1) waits in cc

  -- Once str0m only waits, `drain_all_outputs` with more fuel than there are moments until then
  -- returns a deadline or an error.
  pub drain_all_outputs-ends :
      (idle_at fuel : ℕ) (d : Drain)
      → ((t : ℕ) → idle_at ≤ t → IsIdle t)
      → idle_at - d.moment < fuel
      → (drain_all_outputs world fuel d).1 ≢ none
  unfolding drain_all_outputs
  drain_all_outputs-ends idle_at zero d idle small = absurd (omega arith)
  drain_all_outputs-ends idle_at (suc fuel) d idle small =
      let result = world.poll_output d.moment in
      let turn = on_output world (polled d) result in
      on_option (λ (r : Drain × Option (Result Text ℕ)). r.1 ≢ none) turn.1
        (λ going. elim (le_or_lt idle_at d.moment) [
          | inl late ↦ absurd (idle-stops d (idle d.moment late) going)
          | inr early ↦
              drain_all_outputs-ends idle_at fuel turn.0 idle
                (omega (arith, on_output-advances (polled d) result, early, small))
        ])
        (λ answer stopped none_left. cc)
