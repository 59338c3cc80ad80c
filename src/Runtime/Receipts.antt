-- ===== src/Runtime/Receipts.antt =====
-- The receipts of runtime.rs: `RelayPublishReceiptState`, shared by a route, its worker and the
-- registry, stands in a heap, and an `Arc` is its place there; the registry is the mutex's map.
-- `poisoned` says that a thread panicked while it held the registry's lock.
pub mod Ledger
pub mod Refinement
pub mod Rollback
use connectors.Base.{
  ℕ, ◌+◌, ◌-◌, ◌≡◌, ap, if◌then◌else◌, Bool, true, false, ◌&&◌, Option, none, some, List, [], ◌∷◌,
  ◌++◌, map, length, any, get_elem?, update, is_some, ltb, ◌==◌, saturating_add, wrapping_add,
  Result, ok, err, ◌>>◌, fail_if, Table, get, remove, insert, contains_key, codes, arith,
}
use native.Mathlib.Decide.{ℕ_discrete}
use connectors.Runtime.Errors.{
  ConnectorError, ConnectorErrorStage, ConnectorRetryability, RelayErrorCode,
  receipt_registry_unavailable, receipt_capacity_exhausted, duplicate_receipt, expected_error,
}
use connectors.Runtime.Statistics.{RelayPublishStatistics}

pub record RelayPublishReceiptKey : Type 0 where
  pub endpoint_id : ℕ
  pub route_id : ℕ

-- The derived equality.
unfoldable pub key_dec : Discrete RelayPublishReceiptKey
unfolding ℕ_discrete
key_dec a b = elim (ℕ_discrete a.endpoint_id b.endpoint_id) [
  | yes p ↦ elim (ℕ_discrete a.route_id b.route_id) [
    | yes q ↦ yes (λ i. record { endpoint_id = p i; route_id = q i })
    | no q ↦ no (λ e. q (ap (λ k. k.route_id) e))
  ]
  | no p ↦ no (λ e. p (ap (λ k. k.endpoint_id) e))
]

pub record RelayPublishResult (Edge : Type 0) : Type 0 where
  pub key : RelayPublishReceiptKey
  pub statistics : RelayPublishStatistics
  pub edge_observations : Edge
  pub error : Option ConnectorError

pub record RelayPublishReceiptState (Edge : Type 0) : Type 0 where
  pub ingress_queue_drops_total : ℕ
  pub result : Option (RelayPublishResult Edge)

abbrev pub Registry : Type 0
Registry = Table RelayPublishReceiptKey ℕ

pub record Store (Edge : Type 0) : Type 0 where
  pub states : List (RelayPublishReceiptState Edge)
  pub receipts : Registry
  pub poisoned : Bool

-- A route's key, and its receipt's state.
abbrev pub Route : Type 0
Route = RelayPublishReceiptKey × ℕ

abbrev pub insert_all : List Route → Registry → Registry
insert_all [] m = m
insert_all ((key, place) ∷ routes) m = insert_all routes (insert key_dec m key place)

abbrev pub remove_all : List RelayPublishReceiptKey → Registry → Registry
remove_all [] m = m
remove_all (key ∷ keys) m = remove_all keys (remove key_dec m key)

module _ {Edge : Type 0} where
  abbrev pub new_state : RelayPublishReceiptState Edge
  new_state = record { ingress_queue_drops_total = 0; result = none }

  -- `RelayPublishReceiptState::new`.
  abbrev pub allocate : Store Edge → Store Edge × ℕ
  allocate s = (record s { states = s.states ++ new_state ∷ [] }, length s.states)

  -- A new state for each route that `prepare` reads.
  abbrev pub allocate_all : List RelayPublishReceiptKey → Store Edge → Store Edge × List Route
  allocate_all [] s = (s, [])
  allocate_all (key ∷ keys) s =
      let first = allocate s in
      let rest = allocate_all keys first.0 in (rest.0, (key, first.1) ∷ rest.1)

  abbrev pub result_of : Option (RelayPublishReceiptState Edge) → Option (RelayPublishResult Edge)
  result_of none = none
  result_of (some state) = state.result

  -- `RelayPublishReceipt::result`.
  unfoldable pub result_at : ℕ → Store Edge → Option (RelayPublishResult Edge)
  result_at place s = result_of (get_elem? s.states place)

  -- `OnceLock::set`, whose refusal the worker ignores.
  abbrev pub set_once :
      RelayPublishResult Edge → RelayPublishReceiptState Edge → RelayPublishReceiptState Edge
  set_once r state = elim state.result [
    | none ↦ record state { result = some r }
    | some old ↦ state
  ]

  unfoldable pub set_result : ℕ → RelayPublishResult Edge → Store Edge → Store Edge
  set_result place r s = record s { states = update (set_once r) place s.states }

  -- A feeder's `ingress_queue_drops_total.fetch_add(1)`.
  unfoldable pub count_queue_drop : ℕ → Store Edge → Store Edge
  count_queue_drop place s = record s {
    states =
        update
          (λ state. record state {
            ingress_queue_drops_total = wrapping_add state.ingress_queue_drops_total 1;
          })
          place s.states;
  }

  unfoldable pub receipt : RelayPublishReceiptKey → Store Edge → Option ℕ
  receipt key s = if s.poisoned then none else get key_dec s.receipts key

  abbrev pub taken :
      RelayPublishReceiptKey
      → Store Edge
      → Option (RelayPublishResult Edge)
      → Store Edge × Option (RelayPublishResult Edge)
  taken key s none = (s, none)
  taken key s (some r) = (record s { receipts = remove key_dec s.receipts key }, some r)

  unfoldable pub take_result :
      RelayPublishReceiptKey → Store Edge → Store Edge × Option (RelayPublishResult Edge)
  take_result key s = if s.poisoned then (s, none) else elim (get key_dec s.receipts key) [
    | none ↦ (s, none)
    | some place ↦ taken key s (result_at place s)
  ]

  unfoldable pub remove_receipts : List RelayPublishReceiptKey → Store Edge → Store Edge
  remove_receipts keys s =
      if s.poisoned then s else record s { receipts = remove_all keys s.receipts }

  unfoldable pub reserve_receipts :
      ℕ
      → ℕ
      → List Route
      → Store Edge
      → Result ConnectorError (Store Edge × List RelayPublishReceiptKey)
  reserve_receipts max_bytes capacity routes s =
      let route_keys = map (λ route. route.0) routes in
      do
        fail_if s.poisoned (
            expected_error max_bytes receipt_registry_unavailable ConnectorErrorStage.prepare
              ConnectorRetryability.never (codes "relay receipt registry is unavailable"))
        fail_if (ltb capacity (saturating_add (length s.receipts) (length routes))) (
            expected_error max_bytes receipt_capacity_exhausted ConnectorErrorStage.prepare
              ConnectorRetryability.retryable (codes "relay receipt capacity is exhausted"))
        fail_if (any (contains_key key_dec s.receipts) route_keys) (
            expected_error max_bytes duplicate_receipt ConnectorErrorStage.prepare
              ConnectorRetryability.never
              (codes "relay receipt already exists for a grouped endpoint route"))
        ok (record s { receipts = insert_all routes s.receipts }, route_keys)
