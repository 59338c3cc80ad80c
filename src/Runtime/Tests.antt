-- ===== src/Runtime/Tests.antt =====
-- Runs of the publication runtime at concrete inputs (relay/src/runtime.rs).
use connectors.Base.{
  Text, truncate, prefix_within, is_char_boundary, byte_len, utf8_width, ℕ, get, remove, ◌≡◌, ◌≢◌,
  ◌⊎◌, ◌<◌, ◌↔◌, refl, arith, true, false, none, some, List, [], ◌∷◌, Result, ok, Text, ltb, leb,
  ◌≤◌, ◌+◌, if◌then◌else◌, All, u64_max, length,
}
use native.Mathlib.Decide.{ℕ_discrete}
use connectors.Configuration.Tests.{api, route, node}
use connectors.Runtime.Errors.{
  ConnectorError, ConnectorErrorStage, ConnectorRetryability, invalid_configuration, relay_error,
  bounded, last_boundary,
}
use connectors.Runtime.Errors.Bounded.{IsCut, relay_error-IsCut}
use connectors.Runtime.Statistics.{Observations, RelayTransportOutcome, default_statistics}
use connectors.Runtime.Receipts.{
  RelayPublishReceiptKey, RelayPublishResult, Store, key_dec, new_state, allocate_all,
  reserve_receipts, remove_receipts, set_result, take_result,
}
use connectors.Runtime.Receipts.Ledger.{
  view, IsSound, Calls, Entries, Operation, reserve, publish, hand_out, call_then, none_left,
  reserving, publishing, taking,
}
use connectors.Runtime.Receipts.Refinement.{Calls-Entries}
use connectors.Runtime.Receipts.Rollback.{
  take_result_once, remove_receipts-reserve_receipts, Removes, Call-keeps,
}
use connectors.Audio.OpusWorker.World.{accepted, full, default_counters}
use connectors.Configuration.Builders.{same_publisher}
use connectors.Runtime.Receipts.{result_at}
use connectors.Runtime.Grouping.{RelayTransportPreparation, validate_grouped_routes}
use connectors.Runtime.Grouping.Accepted.{AreNew, buses, validate_grouped_routes_iff}
use connectors.Runtime.Factory.{EndpointPortInput, Messages, RelayConnectorFactory, prepare}
use connectors.Runtime.Factory.Atomic.{IsWhole, prepare-IsWhole}
use connectors.Runtime.Feeder.{AudioFrame, Surroundings, Feeding, out_of_fuel, feed}
use connectors.Runtime.Feeder.Stops.{feed-terminates}
use connectors.Runtime.Delivery.{Bus, Receivers, FramePublisherExecution}

abbrev observed : Observations ℕ
observed = record {
  default_edge = 0;
  frames_dropped_total = λ e. e;
  discontinuities_total = λ e. 0;
}

-- "é" has two bytes: a limit of five keeps two of the three.
abbrev accents : Text
accents = 0xe9 ∷ 0xe9 ∷ 0xe9 ∷ []

cut_accents :
    relay_error 5 invalid_configuration ConnectorErrorStage.prepare ConnectorRetryability.never
      accents
    ≡ some (record {
      code = invalid_configuration;
      stage = ConnectorErrorStage.prepare;
      retryability = ConnectorRetryability.never;
      message = 0xe9 ∷ 0xe9 ∷ [];
    })
unfolding relay_error bounded last_boundary truncate prefix_within is_char_boundary byte_len
    utf8_width
cut_accents = refl

relay_error-IsCut_example :
    (message : Text) × (relay_error 5 invalid_configuration ConnectorErrorStage.prepare
        ConnectorRetryability.never accents
      ≡ some (record {
        code = invalid_configuration;
        stage = ConnectorErrorStage.prepare;
        retryability = ConnectorRetryability.never;
        message = message;
      }))
    × IsCut 5 accents message
relay_error-IsCut_example =
    relay_error-IsCut 5 invalid_configuration ConnectorErrorStage.prepare
      ConnectorRetryability.never accents (omega arith) (λ e. cc)

abbrev key : RelayPublishReceiptKey
key = record { endpoint_id = 1; route_id = 2 }

abbrev start : Store ℕ
start = record { states = []; receipts = []; poisoned = false }

abbrev reserved : Store ℕ
reserved = record { states = new_state ∷ []; receipts = (key, 0) ∷ []; poisoned = false }

abbrev result : RelayPublishResult ℕ
result = record { key = key; statistics = default_statistics; edge_observations = 0; error = none }

abbrev published : Store ℕ
published = record reserved {
  states = record { ingress_queue_drops_total = 0; result = some result } ∷ [];
}

start-IsSound : IsSound 8 start
start-IsSound = (tt, omega arith)

published-IsSound : IsSound 8 published
published-IsSound = ((omega arith, tt), omega arith)

eight : 8 < u64_max
eight = omega arith

granted :
    reserve_receipts 64 8 (allocate_all (key ∷ []) start).1 (allocate_all (key ∷ []) start).0
    ≡ ok (reserved, key ∷ [])
unfolding reserve_receipts get remove
granted = refl

-- The operations of a route that is reserved, published and taken.
abbrev operations : List (Operation ℕ)
operations =
    reserve ((key, 0) ∷ [])
    ∷ publish 0 result
    ∷ hand_out key (take_result key (set_result 0 result reserved)).1
    ∷ []

abbrev done : Store ℕ
done = (take_result key (set_result 0 result reserved)).0

calls : Calls 64 8 operations start done
calls =
    call_then (reserving (key ∷ []) (key ∷ []) granted)
      (call_then (publishing 0 result) (call_then (taking key) none_left))

Calls-Entries_example :
    Entries true operations 0 (view start) (length done.states) (view done) × IsSound 8 done
Calls-Entries_example = Calls-Entries 8 eight calls start-IsSound

remove_receipts-reserve_receipts_example : view (remove_receipts (key ∷ []) reserved) ≡ view start
remove_receipts-reserve_receipts_example =
    remove_receipts-reserve_receipts 64 8 (key ∷ []) (key ∷ []) start reserved eight start-IsSound
      granted

shown : view published key ≡ some (0, some result)
unfolding get key_dec ℕ_discrete
shown = refl

Call-keeps_example :
    (view (take_result key published).0 key ≡ some (0, some result))
    ⊎ (Removes key result (hand_out key (take_result key published).1)
        × (view (take_result key published).0 key ≡ none))
Call-keeps_example =
    Call-keeps {max_bytes = 64} key 0 result eight (taking key) published-IsSound shown

abbrev input : EndpointPortInput ℕ
input = record {
  key = key;
  node_configuration = node;
  audio = some (7, record { sample_rate_hz = 48_000; channels = 2; is_f32_interleaved = true });
}

abbrev messages : Messages
messages = record { max_bytes = 64; of_configuration = λ e. []; of_control = λ e. [] }

abbrev factory : RelayConnectorFactory Text
factory = record { receipt_capacity = 8; control = none }

-- A transport that prepares nothing but the number of its routes.
abbrev transport : List (RelayTransportPreparation Text) → Result ConnectorError ℕ
transport routes = ok (length routes)

prepare-IsWhole_example :
    IsWhole api messages factory transport start
      (prepare api messages factory transport (input ∷ []) start)
prepare-IsWhole_example =
    prepare-IsWhole api messages factory transport (input ∷ []) start eight start-IsSound

abbrev preparation : RelayTransportPreparation Text
preparation = record {
  configuration = route;
  sample_spec = record { sample_rate_hz = 48_000; channels = 2; is_f32_interleaved = true };
  has_control = false;
}

validate_grouped_routes_iff_example :
    (validate_grouped_routes api 64 preparation (preparation ∷ []) ≡ ok tt) ↔ (
      All (λ r. same_publisher api route r.configuration ≡ true) (preparation ∷ preparation ∷ [])
      × AreNew [] (buses (preparation ∷ preparation ∷ [])))
validate_grouped_routes_iff_example =
    validate_grouped_routes_iff api 64 preparation (preparation ∷ [])

abbrev outcome : RelayTransportOutcome ℕ
outcome = record { statistics = default_statistics; edge_observations = 3; error = none }

abbrev frame : AudioFrame
frame = record { samples = 1_920; channels = 2; timestamp_ns = 5; sequence = 1 }

-- A frame at each moment up to the tenth, a full channel from the seventh on, and a stop from the
-- twelfth on.
abbrev around : Surroundings
around = record {
  is_stopped = λ t. leb 12 t;
  is_abort_requested = λ t. false;
  is_shutting_down = λ t. false;
  try_recv = λ t. if ltb t 10 then some frame else none;
  try_send = λ t. if ltb t 7 then accepted else full;
  is_paused = λ t. false;
}

abbrev idle : Feeding
idle = record {
  has_delivery = true;
  received = 0;
  forwarded = [];
  capture_end_ns = 0;
  input_drops = 0;
  ingress_queue_drops_total = 0;
  moment = 0;
}

stays : (t : ℕ) → 12 ≤ t → leb 12 t ≡ true
stays t h = ground (arith, h)

feed-terminates_example : (feed around 20 idle).1 ≢ out_of_fuel
feed-terminates_example = feed-terminates around 12 20 idle stays (omega arith)

abbrev bus : Bus
bus = record { counters = default_counters; queue_drops = 0 }

abbrev endpoint : Receivers ℕ ℕ
endpoint = record { mark_worker_failure = λ r. r + 100; observations = λ r. r }

-- The publisher ended well, and the second bus has an encode error.
abbrev execution : Result Text FramePublisherExecution
execution = ok (record {
  result = ok (record { drains = 1; writes = 2; elapsed = 3; streams = [] });
  ingress_error = none;
  encoder_panics = false ∷ false ∷ [];
})

abbrev bus_failed : Bus
bus_failed = record {
  counters = record default_counters { opus_encode_errors = 1 };
  queue_drops = 0;
}

handed : (take_result key published).1 ≡ some result
unfolding take_result result_at get key_dec
handed = refl

take_result_once_example :
    ((place : ℕ) × (view published key ≡ some (place, some result)))
    × (view (take_result key published).0 key ≡ none)
    × ((take_result key (take_result key published).0).1 ≡ none)
take_result_once_example = take_result_once key published result handed
