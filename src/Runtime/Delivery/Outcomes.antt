-- ===== src/Runtime/Delivery/Outcomes.antt =====
-- What the outcomes of a group say (runtime.rs).
use connectors.Base.{
  ℕ, suc, ◌≡◌, ◌↔◌, ◌⊎◌, refl, ap, true, false, not, Option, none, some, List, [], ◌∷◌, any, All,
  length, Text, Result, ok, err, is_some, is_some_and, ltb,
}
use connectors.Audio.OpusWorker.World.{EncoderCounters}
use connectors.Gateway.Ingress.{PublishStreamStats}
use connectors.Runtime.Errors.{ConnectorError}
use connectors.Runtime.Statistics.{Observations, PublishStats, RelayTransportOutcome}
use connectors.Runtime.Delivery.{
  FramePublisherExecution, Receivers, Bus, shared_error, bus_outcomes, stream_of,
}

-- The publisher ended without an error, and no thread panicked.
abbrev pub IsFine :
    {Receiver : Type 0} → Result Text FramePublisherExecution → List (Option Receiver) → Type 0
IsFine (err e) receivers = ⊥
IsFine (ok execution) receivers =
    ((stats : PublishStats) × (execution.result ≡ ok stats))
    × (execution.ingress_error ≡ none)
    × (any (λ panicked. panicked) execution.encoder_panics ≡ false)
    × (any (λ receiver. not (is_some receiver)) receivers ≡ false)

-- No packet of the bus failed to be encoded, and no samples were discarded but for a recovery.
abbrev pub IsIntact : EncoderCounters → Option PublishStreamStats → Type 0
IsIntact counters stream =
    (counters.opus_encode_errors ≡ 0)
    × ((counters.normalization_partial_samples_discarded ≡ 0)
        ⊎ (is_some_and stream (λ s. ltb 0 s.ingress_discontinuities) ≡ true))

module _ (max_bytes : ℕ) (display : ℕ → Text) where
  module _ {Receiver Edge : Type 0} (observed : Observations Edge)
      (endpoint : Receivers Receiver Edge) where
    -- Each bus fails exactly for what its own counters say, or all of them with one error.
    pub AreOwn : Option PublishStats → ℕ → List Bus → List (RelayTransportOutcome Edge) → Type 0
    AreOwn stats index [] [] = Unit
    AreOwn stats index [] (outcome ∷ outcomes) = ⊥
    AreOwn stats index (bus ∷ buses) [] = ⊥
    AreOwn stats index (bus ∷ buses) (outcome ∷ outcomes) =
        ((outcome.error ≡ none) ↔ IsIntact bus.counters (stream_of stats index))
        × AreOwn stats (suc index) buses outcomes

    pub length-bus_outcomes :
        (stats : Option PublishStats) (error : Option ConnectorError)
        (receivers : List (Option Receiver)) (index : ℕ) (buses : List Bus)
        → length
            (bus_outcomes max_bytes observed endpoint display stats error receivers index buses)
          ≡ length buses
    unfolding bus_outcomes
    length-bus_outcomes stats error receivers index [] = refl
    length-bus_outcomes stats error receivers index (bus ∷ buses) =
        ap suc (length-bus_outcomes stats error receivers (suc index) buses)

    pub Tells :
        Option (List ℕ)
        → Result Text FramePublisherExecution
        → List (Option Receiver)
        → List Bus
        → List (RelayTransportOutcome Edge)
        → Type 0
    Tells drops execution receivers buses outcomes =
        (length outcomes ≡ length buses)
        × ((IsFine execution receivers
              × AreOwn (shared_error max_bytes drops execution).0 0 buses outcomes)
            ⊎ (¬ IsFine execution receivers
                × ((error : ConnectorError) × All (λ o. o.error ≡ some error) outcomes)))
