-- ===== src/Runtime/Worker.antt =====
-- `RelayPublishWorker` as a `ConnectorWorker` (runtime.rs): `run`, `cancel_preparation` and
-- `failed_outcomes`.
-- `transport_run` stands for `PreparedRelayPublishTransport::run`, which also changes the store (its
-- feeders count drops), and `transport_cancel` for its `cancel`.
pub mod Reports
use connectors.Base.{
  ℕ, Bool, not, Option, none, some, List, [], ◌∷◌, ◌++◌, map, length, ◌==◌, codes, Result, ok, err,
  if◌then◌else◌,
}
use connectors.Runtime.Errors.{
  ConnectorError, ConnectorErrorStage, ConnectorRetryability, RelayErrorCode, expected_error,
  routes_unavailable, preparation_unavailable, invalid_outcome_count, publisher_exited,
}
use connectors.Runtime.Statistics.{
  Observations, RelayTransportOutcome, ContextCall, readiness_success, record_outcome,
  default_statistics,
}
use connectors.Runtime.Receipts.{
  RelayPublishResult, RelayPublishReceiptKey, Store, Route, set_result, remove_receipts,
}
use connectors.Runtime.Factory.{PreparedRelayRoute, RelayPublishWorker, identity}

pub data ConnectorRunOutcome : Type 0 where
  success : ConnectorRunOutcome
  failure : ConnectorError → ConnectorRunOutcome

-- The end of a run: the store, what the context was told, and the outcome.
pub record Run (Edge : Type 0) : Type 0 where
  pub store : Store Edge
  pub calls : List ContextCall
  pub outcome : ConnectorRunOutcome

-- The state of the loop over the outcomes.
pub record Recording (Edge : Type 0) : Type 0 where
  pub store : Store Edge
  pub calls : List ContextCall
  pub first_error : Option ConnectorError

abbrev pub or_first : Option ConnectorError → Option ConnectorError → Option ConnectorError
or_first none error = error
or_first (some first) error = some first

module _ {Receiver Edge : Type 0} (observations : Receiver → Edge) where
  unfoldable pub failed_outcomes :
      List (PreparedRelayRoute Receiver) → ConnectorError → List (RelayTransportOutcome Edge)
  failed_outcomes [] error = []
  failed_outcomes (route ∷ routes) error =
      record {
        statistics = default_statistics;
        edge_observations = observations route.receiver;
        error = some error;
      }
      ∷ failed_outcomes routes error

module _ {Edge : Type 0} (observed : Observations Edge) where
  abbrev pub result_for :
      RelayPublishReceiptKey → RelayTransportOutcome Edge → RelayPublishResult Edge
  result_for key outcome = record {
    key = key;
    statistics = outcome.statistics;
    edge_observations = outcome.edge_observations;
    error = outcome.error;
  }

  -- One outcome.
  abbrev pub record_one : Route → RelayTransportOutcome Edge → Recording Edge → Recording Edge
  record_one (key, place) outcome r = record {
    store = set_result place (result_for key outcome) r.store;
    calls = r.calls ++ record_outcome observed outcome;
    first_error = or_first r.first_error outcome.error;
  }

  unfoldable pub record_all :
      List Route → List (RelayTransportOutcome Edge) → Recording Edge → Recording Edge
  record_all [] outcomes r = r
  record_all (route ∷ routes) [] r = r
  record_all (route ∷ routes) (outcome ∷ outcomes) r =
      record_all routes outcomes (record_one route outcome r)

-- The outcome of a run whose results are recorded.
unfoldable pub conclude : ℕ → Bool → Option ConnectorError → ConnectorRunOutcome
conclude max_bytes is_stop_requested (some error) = failure error
conclude max_bytes is_stop_requested none =
    if is_stop_requested
    then success
    else failure (
        expected_error max_bytes publisher_exited ConnectorErrorStage.delivery
          ConnectorRetryability.retryable
          (codes "relay publisher exited before stop was requested"))

module _ {Edge : Type 0} (observed : Observations Edge) (max_bytes : ℕ) where
  unfoldable pub finish_run :
      Bool → List Route → Store Edge × List (RelayTransportOutcome Edge) → Run Edge
  unfolding conclude
  finish_run is_stop_requested identities (s, outcomes) =
      if not (length outcomes == length identities)
      then record {
        store = s;
        calls = readiness_success ∷ [];
        outcome = failure (
            expected_error max_bytes invalid_outcome_count ConnectorErrorStage.join
              ConnectorRetryability.never
              (codes "relay transport returned an invalid grouped outcome count"));
      }
      else let recorded =
          record_all observed identities outcomes
            (record { store = s; calls = readiness_success ∷ []; first_error = none }) in
        record {
          store = recorded.store;
          calls = recorded.calls;
          outcome = conclude max_bytes is_stop_requested recorded.first_error;
        }

  unfoldable pub run :
      {Receiver Prepared : Type 0}
      → (Prepared
          → List (PreparedRelayRoute Receiver)
          → Store Edge
          → Store Edge × List (RelayTransportOutcome Edge))
      → Bool
      → RelayPublishWorker Receiver Prepared
      → Store Edge
      → Run Edge
  unfolding finish_run
  run transport_run is_stop_requested worker s = elim worker.routes [
    | none ↦ record {
      store = s;
      calls = [];
      outcome = failure (
          expected_error max_bytes routes_unavailable ConnectorErrorStage.startup
            ConnectorRetryability.never (codes "relay grouped routes were already consumed"));
    }
    | some routes ↦ elim worker.prepared [
      | none ↦ record {
        store = s;
        calls = [];
        outcome = failure (
            expected_error max_bytes preparation_unavailable ConnectorErrorStage.startup
              ConnectorRetryability.never
              (codes "relay transport preparation was already consumed"));
      }
      | some prepared ↦
          finish_run is_stop_requested (map identity routes) (transport_run prepared routes s)
    ]
  ]

abbrev pub route_keys :
    {Receiver : Type 0} → Option (List (PreparedRelayRoute Receiver)) → List RelayPublishReceiptKey
route_keys none = []
route_keys (some routes) = map (λ route. route.key) routes

module _ {Receiver Prepared Edge : Type 0} where
  unfoldable pub cancel_preparation :
      (Prepared → Result ConnectorError (Unit {0}))
      → RelayPublishWorker Receiver Prepared
      → Store Edge
      → Store Edge × Result ConnectorError (Unit {0})
  cancel_preparation transport_cancel worker s = (
    remove_receipts (route_keys worker.routes) s,
    elim worker.prepared [ none ↦ ok tt | some prepared ↦ transport_cancel prepared ],
  )
