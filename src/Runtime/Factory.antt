-- ===== src/Runtime/Factory.antt =====
-- `RelayConnectorFactory` as a `ConnectorFactory` (runtime.rs): the preparation of a group of routes and
-- its rollback. The transport is an argument: `transport` answers `RelayPublishTransport::prepare`.
-- A receiver is a value of a type of pocketstation's; an input that is not audio has none.
pub mod Atomic
use connectors.Base.{
  ℕ, Bool, true, false, ◌||◌, Option, none, some, List, [], ◌∷◌, length, ltb, is_empty, Text, codes,
  Result, ok, err, if◌then◌else◌, map, ◌≡◌, ◌==◌, map_err, ◌>>=◌, ◌>>◌,
}
use connectors.Configuration.Types.{Api, RelayRouteConfiguration, RelayConfigurationError}
use connectors.Configuration.Wire.{NodeConfig, from_node_config}
use connectors.Control.Handle.{SharedControl, snapshot, RelayPublisherControlError}
use connectors.Runtime.Errors.{
  ConnectorError, ConnectorErrorStage, ConnectorRetryability, RelayErrorCode, expected_error,
  control_error, invalid_receipt_capacity, invalid_configuration, invalid_bus_count,
  audio_input_required,
}
use connectors.Runtime.Receipts.{
  RelayPublishReceiptKey, Store, Route, allocate, reserve_receipts, remove_receipts,
}
use connectors.Runtime.Grouping.{
  RelayTransportPreparation, SampleSpec, validate_grouped_routes, bind_control,
}

abbrev pub max_grouped_buses : ℕ
max_grouped_buses = 16

pub record EndpointPortInput (Receiver : Type 0) : Type 0 where
  pub key : RelayPublishReceiptKey
  pub node_configuration : NodeConfig
  pub audio : Option (Receiver × SampleSpec)

-- `state` is the place of the receipt's state in the heap.
pub record PreparedRelayRoute (Receiver : Type 0) : Type 0 where
  pub key : RelayPublishReceiptKey
  pub receiver : Receiver
  pub state : ℕ

abbrev pub identity : {Receiver : Type 0} → PreparedRelayRoute Receiver → Route
identity route = (route.key, route.state)

-- A field is `none` once `take` has emptied it; the receipts are the factory's store.
pub record RelayPublishWorker (Receiver Prepared : Type 0) : Type 0 where
  pub routes : Option (List (PreparedRelayRoute Receiver))
  pub prepared : Option Prepared

pub record RelayConnectorFactory (Secret : Type 0) : Type 0 where
  pub receipt_capacity : ℕ
  pub control : Option (SharedControl Secret)

-- What `to_string` writes of the two kinds of errors, and the limit of a message.
pub record Messages : Type 0 where
  pub max_bytes : ℕ
  pub of_configuration : RelayConfigurationError → Text
  pub of_control : RelayPublisherControlError → Text

module _ (messages : Messages) where
  unfoldable pub invalid : RelayConfigurationError → ConnectorError
  invalid error =
      expected_error messages.max_bytes invalid_configuration ConnectorErrorStage.configuration
        ConnectorRetryability.retry_after_reconfiguration (messages.of_configuration error)

  -- A new factory, and its registry.
  unfoldable pub with_transport :
      {Secret Edge : Type 0} → ℕ → Result ConnectorError (RelayConnectorFactory Secret × Store Edge)
  with_transport receipt_capacity =
      if receipt_capacity == 0
      then err (
          expected_error messages.max_bytes invalid_receipt_capacity
            ConnectorErrorStage.configuration ConnectorRetryability.retry_after_reconfiguration
            (codes "relay receipt capacity must be finite and non-zero"))
      else ok (
        record { receipt_capacity = receipt_capacity; control = none },
        record { states = []; receipts = []; poisoned = false },
      )

  unfoldable pub with_publisher_control :
      {Secret Edge : Type 0}
      → ℕ
      → ℕ
      → SharedControl Secret
      → Result ConnectorError (RelayConnectorFactory Secret × Store Edge)
  with_publisher_control now receipt_capacity control = do
    credential ←
        map_err (snapshot now control)
          (λ e. control_error messages.max_bytes (messages.of_control e))
    (factory, store) ← with_transport receipt_capacity
    ok (record factory { control = some control }, store)

module _ {Secret Url : Type 0} (api : Api Secret Url) (messages : Messages) where
  -- The name of the shared `EndpointPreparationGroup`.
  unfoldable pub preparation_group : NodeConfig → Result ConnectorError Text
  preparation_group node = do
    configuration ← map_err (from_node_config api node) (invalid messages)
    ok configuration.publisher_group_id

  -- The checks before the reservation; an empty group has been refused.
  unfoldable pub check_group :
      Option (SharedControl Secret)
      → List (RelayTransportPreparation Secret)
      → Result ConnectorError (List (RelayTransportPreparation Secret))
  check_group control [] = ok []
  check_group control (first ∷ routes) = do
    validate_grouped_routes api messages.max_bytes first routes
    bind_control messages.max_bytes control (first ∷ routes)

-- What the loop over the inputs collects.
abbrev pub Inputs : Type 0 → Type 0 → Type 0
Inputs Secret Receiver =
    List (RelayTransportPreparation Secret) × List (PreparedRelayRoute Receiver)

abbrev pub Preparation : Type 0 → Type 0 → Type 0 → Type 0
Preparation Edge Receiver Prepared =
    Store Edge × Result ConnectorError (RelayPublishWorker Receiver Prepared)

module _ {Secret Receiver Edge : Type 0} where
  abbrev pub with_input :
      RelayTransportPreparation Secret
      → PreparedRelayRoute Receiver
      → Store Edge × Result ConnectorError (Inputs Secret Receiver)
      → Store Edge × Result ConnectorError (Inputs Secret Receiver)
  with_input preparation route (s, err e) = (s, err e)
  with_input preparation route (s, ok (preparations, routes)) =
      (s, ok (preparation ∷ preparations, route ∷ routes))

module _ {Receiver Prepared Edge : Type 0} where
  -- The transport is prepared last, and its failure removes the receipts again.
  unfoldable pub prepare_transport :
      List (PreparedRelayRoute Receiver)
      → List RelayPublishReceiptKey
      → Result ConnectorError Prepared
      → Store Edge
      → Preparation Edge Receiver Prepared
  prepare_transport routes route_keys (err e) s = (remove_receipts route_keys s, err e)
  prepare_transport routes route_keys (ok prepared) s =
      (s, ok (record { routes = some routes; prepared = some prepared }))

module _ {Secret Url Receiver Edge : Type 0} (api : Api Secret Url) (messages : Messages) where
  -- One input, whose configuration has been read; `rest` is what the later inputs give.
  abbrev pub read_input :
      EndpointPortInput Receiver
      → Store Edge
      → Result RelayConfigurationError (RelayRouteConfiguration Secret)
      → Option (Receiver × SampleSpec)
      → Store Edge × Result ConnectorError (Inputs Secret Receiver)
      → Store Edge × Result ConnectorError (Inputs Secret Receiver)
  read_input input s (err e) audio rest = (s, err (invalid messages e))
  read_input input s (ok configuration) none rest = (
    s,
    err (
        expected_error messages.max_bytes audio_input_required ConnectorErrorStage.prepare
          ConnectorRetryability.retry_after_reconfiguration
          (codes "relay publisher requires audio inputs")),
  )
  read_input input s (ok configuration) (some (receiver, sample_spec)) rest =
      with_input
        (record { configuration = configuration; sample_spec = sample_spec; has_control = false })
        (record { key = input.key; receiver = receiver; state = (allocate s).1 }) rest

  -- The loop over the inputs, in which each gets its receipt's state.
  unfoldable pub read_inputs :
      List (EndpointPortInput Receiver)
      → Store Edge
      → Store Edge × Result ConnectorError (Inputs Secret Receiver)
  read_inputs [] s = (s, ok ([], []))
  read_inputs (input ∷ inputs) s =
      let rest = read_inputs inputs (allocate s).0 in
      read_input input s (from_node_config api input.node_configuration) input.audio rest

  module _ {Prepared : Type 0} (factory : RelayConnectorFactory Secret)
      (transport : List (RelayTransportPreparation Secret) → Result ConnectorError Prepared) where
    unfoldable pub prepare_group :
        Store Edge × Result ConnectorError (Inputs Secret Receiver)
        → Preparation Edge Receiver Prepared
    prepare_group (s, err e) = (s, err e)
    prepare_group (s, ok (preparations, routes)) =
        elim (check_group api messages factory.control preparations) [
          | err e ↦ (s, err e)
          | ok bound ↦
              elim (reserve_receipts messages.max_bytes factory.receipt_capacity
                (map identity routes) s) [
                  | err e ↦ (s, err e)
                  | ok granted ↦ prepare_transport routes granted.1 (transport bound) granted.0
                ]
        ]

    unfoldable pub prepare :
        List (EndpointPortInput Receiver) → Store Edge → Preparation Edge Receiver Prepared
    unfolding prepare_group read_inputs
    prepare inputs s =
        if is_empty inputs || ltb max_grouped_buses (length inputs)
        then (
          s,
          err (
              expected_error messages.max_bytes invalid_bus_count ConnectorErrorStage.prepare
                ConnectorRetryability.retry_after_reconfiguration
                (codes "relay publisher requires between 1 and 16 grouped AudioBus inputs")),
        )
        else prepare_group (read_inputs inputs s)
