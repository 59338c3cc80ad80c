-- ===== src/Publisher/Outputs.antt =====
-- `drain_all_outputs` of rtc/types.rs. Each poll of str0m and each write to the socket is a moment;
-- `handed` are the datagrams that the socket was given, in their order. An event's content is not
-- looked at.
pub mod Drained
use connectors.Base.{
  ℕ, zero, suc, Bool, ◌||◌, Option, none, some, List, [], ◌∷◌, ◌++◌, is_some, Text, codes,
  strip_prefix, Result, ok, err, if◌then◌else◌,
}

pub record Transmit : Type 0 where
  pub contents : List ℕ
  pub destination : Text

pub data Output : Type 0 where
  timeout : ℕ → Output
  transmit : Transmit → Output
  event : Output

pub data SendError : Type 0 where
  would_block : SendError
  other : Text → SendError

-- An error of `poll_output` is its debug text.
pub record World : Type 0 where
  pub poll_output : ℕ → Result Text Output
  pub send_to : ℕ → Transmit → Result SendError (Unit {0})

pub record Drain : Type 0 where
  pub handed : List Transmit
  pub moment : ℕ

unfoldable pub contains_text : Text → Text → Bool
contains_text part [] = is_some (strip_prefix part [])
contains_text part (c ∷ text) = is_some (strip_prefix part (c ∷ text)) || contains_text part text

unfoldable pub poll_failure : Text → Text
poll_failure problem =
    if contains_text (codes "CloseNotify") problem
    then codes "relay closed DTLS connection"
    else codes "poll_output: " ++ problem

abbrev pub polled : Drain → Drain
polled d = record { handed = d.handed; moment = suc d.moment }

abbrev pub hand : Transmit → Drain → Drain
hand t d = record { handed = d.handed ++ t ∷ []; moment = suc d.moment }

-- What a write that failed makes of the loop.
abbrev pub send_failure : Result SendError (Unit {0}) → Option (Result Text ℕ)
send_failure (ok done) = none
send_failure (err would_block) = none
send_failure (err (other problem)) = some (err problem)

module _ (world : World) where
  -- One turn of the loop after a poll, without an answer if the loop goes on.
  unfoldable pub on_output : Drain → Result Text Output → Drain × Option (Result Text ℕ)
  on_output d (err problem) = (d, some (err (poll_failure problem)))
  on_output d (ok (timeout t)) = (d, some (ok t))
  on_output d (ok (transmit t)) = (hand t d, send_failure (world.send_to d.moment t))
  on_output d (ok event) = (d, none)

  -- Without fuel there is no answer.
  unfoldable pub drain_all_outputs : ℕ → Drain → Drain × Option (Result Text ℕ)
  drain_all_outputs zero d = (d, none)
  drain_all_outputs (suc fuel) d =
      let turn = on_output (polled d) (world.poll_output d.moment) in
      elim turn.1 [ some answer ↦ (turn.0, some answer) | none ↦ drain_all_outputs fuel turn.0 ]
