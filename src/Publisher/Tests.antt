-- ===== src/Publisher/Tests.antt =====
-- Runs of the publisher's channel and of its polls (rtc/publisher.rs, rtc/types.rs).
use connectors.Base.{
  ℕ, zero, suc, ◌≤◌, ◌≡◌, ◌≢◌, refl, arith, true, none, some, List, [], ◌∷◌, codes, Result, ok, err,
}
use connectors.Publisher.Backlog.{
  preserve, drop_stale, Channel, Senders, try_recv, receive_freshest, try_recv_frame,
}
use connectors.Publisher.Backlog.Taken.{Taken, try_recv_frame-Taken}
use connectors.Publisher.Backlog.Ends.{try_recv_frame-ends}
use connectors.Publisher.Outputs.{
  World, Drain, Output, Transmit, timeout, transmit, event, would_block, drain_all_outputs,
  on_output,
}
use connectors.Publisher.Outputs.Drained.{
  Drained, IsIdle, drain_all_outputs-Drained, drain_all_outputs-ends,
}

-- Two frames wait, and one is sent while the loop looks.
abbrev sends : ℕ → List ℕ
sends zero = []
sends (suc zero) = 30 ∷ []
sends (suc (suc t)) = []

abbrev senders : Senders ℕ
senders = record { sends = sends; is_connected = λ t. true }

abbrev waiting : Channel ℕ
waiting = record { queue = 10 ∷ 20 ∷ []; moment = 0 }

abbrev emptied : Channel ℕ
emptied = record { queue = []; moment = 4 }

newest : try_recv_frame senders drop_stale 5 waiting ≡ ok (some (emptied, (30, 2)))
unfolding try_recv_frame try_recv receive_freshest
newest = refl

oldest :
    try_recv_frame senders preserve 5 waiting
    ≡ ok (some (record { queue = 20 ∷ []; moment = 1 }, (10, 0)))
unfolding try_recv_frame try_recv
oldest = refl

try_recv_frame-Taken_example : Taken senders drop_stale waiting (emptied, (30, 2))
try_recv_frame-Taken_example = try_recv_frame-Taken senders drop_stale 5 waiting newest

try_recv_frame-ends_example : try_recv_frame senders drop_stale 5 waiting ≢ ok none
try_recv_frame-ends_example = try_recv_frame-ends senders drop_stale 5 waiting (omega arith)

abbrev datagram : Transmit
datagram = record { contents = 1 ∷ 2 ∷ []; destination = codes "relay" }

-- An event, a datagram that would block, then the deadline 99 for ever.
abbrev outputs : ℕ → Result (List ℕ) Output
outputs zero = ok event
outputs (suc zero) = ok (transmit datagram)
outputs (suc (suc t)) = ok (timeout 99)

abbrev world : World
world = record { poll_output = outputs; send_to = λ t d. err would_block }

abbrev before : Drain
before = record { handed = []; moment = 0 }

abbrev after : Drain
after = record { handed = datagram ∷ []; moment = 4 }

drained : drain_all_outputs world 5 before ≡ (after, some (ok 99))
unfolding drain_all_outputs on_output
drained = refl

drain_all_outputs-Drained_example : Drained world before after 99
drain_all_outputs-Drained_example = drain_all_outputs-Drained world 5 before after 99 drained

outputs-IsIdle : (t : ℕ) → 2 ≤ t → IsIdle world t
outputs-IsIdle zero h = absurd (omega arith)
outputs-IsIdle (suc zero) h = absurd (omega arith)
outputs-IsIdle (suc (suc t)) h = (99, refl)

drain_all_outputs-ends_example : (drain_all_outputs world 3 before).1 ≢ none
drain_all_outputs-ends_example =
    drain_all_outputs-ends world 2 3 before outputs-IsIdle (omega arith)
