-- ===== src/Runtime/Factory/Atomic.antt =====
-- A preparation takes place as a whole or not at all (`prepare` of runtime.rs).
use connectors.Base.{
  All-of-map, on_cases, ℕ, ◌≡◌, ◌<◌, refl, ap, subst, Option, none, some, List, [], ◌∷◌, map,
  length, All, Result, ok, err, u64_max, on_if, is_empty, ltb, ◌||◌,
}
use connectors.Configuration.Types.{Api, RelayRouteConfiguration, RelayConfigurationError}
use connectors.Configuration.Wire.{from_node_config}
use connectors.Runtime.Errors.{ConnectorError}
use connectors.Runtime.Receipts.{
  RelayPublishReceiptKey, Store, allocate, allocate_all, reserve_receipts,
}
use connectors.Runtime.Receipts.Ledger.{begin, view, IsSound}
use connectors.Runtime.Receipts.Refinement.{
  allocated_view, reserved, reserve-IsEntered, refuse-IsEntered, remove-IsEntered,
}
use connectors.Runtime.Receipts.Rollback.{remove_receipts-reserve_receipts}
use connectors.Runtime.Grouping.{SampleSpec, RelayTransportPreparation}
use connectors.Runtime.Factory.{
  Messages, EndpointPortInput, PreparedRelayRoute, RelayConnectorFactory, Inputs, Preparation,
  identity, read_input, read_inputs, check_group, prepare_transport, prepare_group, prepare,
  max_grouped_buses,
}

undone :
    {Edge : Type 0} (capacity : ℕ) (s after : Store Edge) (keys : List RelayPublishReceiptKey)
    → after ≡ (allocate_all keys s).0
    → IsSound capacity s
    → (view after ≡ view s) × IsSound capacity after
undone capacity s after keys h sound =
    rw h ((allocated_view keys s sound.0).0, (refuse-IsEntered capacity keys s sound).1)

module _ {Secret Url Receiver Edge : Type 0} (api : Api Secret Url) (messages : Messages) where
  -- The states that the loop has allocated are those of some keys, and of its routes if it succeeds.
  Allocates :
      Store Edge
      → Store Edge × Result ConnectorError (Inputs Secret Receiver)
      → List RelayPublishReceiptKey
      → Type 0
  Allocates s (after, err e) keys = after ≡ (allocate_all keys s).0
  Allocates s (after, ok inputs) keys =
      (after ≡ (allocate_all keys s).0) × (map identity inputs.1 ≡ (allocate_all keys s).1)

  read_input-Allocates :
      (input : EndpointPortInput Receiver) (s : Store Edge)
      (configuration : Result RelayConfigurationError (RelayRouteConfiguration Secret))
      (audio : Option (Receiver × SampleSpec))
      (rest : Store Edge × Result ConnectorError (Inputs Secret Receiver))
      → (keys : List RelayPublishReceiptKey) × Allocates (allocate s).0 rest keys
      → (keys : List RelayPublishReceiptKey) × Allocates s
          (read_input api messages input s configuration audio rest)
          keys
  unfolding Allocates
  read_input-Allocates input s (err e) audio rest h = ([], refl)
  read_input-Allocates input s (ok configuration) none rest h = ([], refl)
  read_input-Allocates input s (ok configuration) (some audio) (after, err e) h =
      (input.key ∷ h.0, h.1)
  read_input-Allocates input s (ok configuration) (some audio) (after, ok inputs) h =
      (input.key ∷ h.0, (h.1.0, ap (◌∷◌ (input.key, length s.states)) h.1.1))

  read_inputs-Allocates :
      (inputs : List (EndpointPortInput Receiver)) (s : Store Edge)
      → (keys : List RelayPublishReceiptKey) × Allocates s (read_inputs api messages inputs s) keys
  unfolding Allocates read_inputs
  read_inputs-Allocates [] s = ([], (refl, refl))
  read_inputs-Allocates (input ∷ inputs) s =
      read_input-Allocates input s (from_node_config api input.node_configuration) input.audio
        (read_inputs api messages inputs (allocate s).0)
        (read_inputs-Allocates inputs (allocate s).0)

  module _ {Prepared : Type 0} (factory : RelayConnectorFactory Secret)
      (transport : List (RelayTransportPreparation Secret) → Result ConnectorError Prepared) where
    -- What a preparation leaves of a store: on an error the same ledger, otherwise one in which the
    -- worker's routes have begun, none of which was known; and a sound store in any case.
    pub IsWhole : Store Edge → Preparation Edge Receiver Prepared → Type 0
    IsWhole s (after, err e) = (view after ≡ view s) × IsSound factory.receipt_capacity after
    IsWhole s (after, ok worker) =
        ((routes : List (PreparedRelayRoute Receiver)) × (worker.routes ≡ some routes)
          × (view after ≡ begin (map identity routes) (view s))
          × All (λ route. view s route.key ≡ none) routes)
        × IsSound factory.receipt_capacity after

    prepare_transport-IsWhole :
        (s : Store Edge) (routes : List (PreparedRelayRoute Receiver))
        (keys granted : List RelayPublishReceiptKey) (after : Store Edge)
        (answer : Result ConnectorError Prepared)
        → factory.receipt_capacity < u64_max
        → map identity routes ≡ (allocate_all keys s).1
        → reserve_receipts messages.max_bytes factory.receipt_capacity
            (allocate_all keys s).1
            (allocate_all keys s).0
          ≡ ok (after, granted)
        → IsSound factory.receipt_capacity s
        → IsWhole s (prepare_transport routes granted answer after)
    unfolding IsWhole prepare_transport
    prepare_transport-IsWhole s routes keys granted after (err e) small same h sound =
        let whole =
          reserve-IsEntered factory.receipt_capacity messages.max_bytes keys granted s after small h
            sound in
        (
          remove_receipts-reserve_receipts messages.max_bytes factory.receipt_capacity keys granted
              s after small sound h,
          (remove-IsEntered factory.receipt_capacity granted after whole.1).1,
        )
    prepare_transport-IsWhole s routes keys granted after (ok prepared) small same h sound =
        let whole =
          reserve-IsEntered factory.receipt_capacity messages.max_bytes keys granted s after small h
            sound in
        let known =
          reserved messages.max_bytes factory.receipt_capacity keys granted s after small h
            sound.0 in
        (
          (
            routes,
            refl,
            rw same known.0,
            All-of-map (λ route. view s route.0 ≡ none) identity routes (rw same known.1),
          ),
          whole.1,
        )

    prepare_group-IsWhole :
        (s : Store Edge) (read : Store Edge × Result ConnectorError (Inputs Secret Receiver))
        (keys : List RelayPublishReceiptKey)
        → factory.receipt_capacity < u64_max
        → Allocates s read keys
        → IsSound factory.receipt_capacity s
        → IsWhole s (prepare_group api messages factory transport read)
    unfolding Allocates IsWhole prepare_group
    prepare_group-IsWhole s (after, err e) keys small h sound =
        undone factory.receipt_capacity s after keys h sound
    prepare_group-IsWhole s (after, ok (preparations, routes)) keys small h sound =
        on_cases (IsWhole s) (check_group api messages factory.control preparations)
          (λ bound checked.
            on_cases (IsWhole s)
              (reserve_receipts messages.max_bytes factory.receipt_capacity (map identity routes)
                after)
              (λ granted e.
                prepare_transport-IsWhole s routes keys granted.1 granted.0 (transport bound) small
                  h.1
                  (subst
                    (λ rs.
                      reserve_receipts messages.max_bytes factory.receipt_capacity rs
                        (allocate_all keys s).0
                      ≡ ok granted)
                    h.1
                    (subst
                      (λ t.
                        reserve_receipts messages.max_bytes factory.receipt_capacity
                          (map identity routes) t
                        ≡ ok granted)
                      h.0 e))
                  sound)
              (λ e refused. undone factory.receipt_capacity s after keys h.0 sound))
          (λ e refused. undone factory.receipt_capacity s after keys h.0 sound)

    -- A preparation that fails, wherever it fails, leaves the ledger of receipts as it was; one that
    -- succeeds has begun each of its worker's routes, none of which was known before. The registry is
    -- sound after either, if it was before and its capacity is less than the largest `usize`.
    pub prepare-IsWhole :
        (inputs : List (EndpointPortInput Receiver)) (s : Store Edge)
        → factory.receipt_capacity < u64_max
        → IsSound factory.receipt_capacity s
        → IsWhole s (prepare api messages factory transport inputs s)
    unfolding prepare IsWhole
    prepare-IsWhole inputs s small sound =
        let read = read_inputs-Allocates inputs s in
        on_if (IsWhole s) (is_empty inputs || ltb max_grouped_buses (length inputs)) (refl, sound)
          (prepare_group-IsWhole s (read_inputs api messages inputs s) read.0 small read.1 sound)
