-- ===== src/Runtime/Worker/Reports.antt =====
-- What a worker's run reports of its routes (runtime.rs).
use connectors.Base.{
  ℕ, ◌≡◌, ◌≢◌, ◌<◌, ◌↔◌, Bool, true, Option, none, some, List, [], ◌∷◌, ◌++◌, length, All,
}
use connectors.Runtime.Errors.{ConnectorError}
use connectors.Runtime.Statistics.{
  Observations, RelayTransportOutcome, ContextCall, readiness_success, record_outcome,
}
use connectors.Runtime.Receipts.{Store, Route, result_at}
use connectors.Runtime.Worker.{success, Run, or_first, result_for, conclude}

-- No two routes share a state.
abbrev pub AreSeparate : List Route → Type 0
AreSeparate [] = Unit
AreSeparate (route ∷ routes) = All (λ e. e.1 ≢ route.1) routes × AreSeparate routes

abbrev pub all_calls :
    {Edge : Type 0} → Observations Edge → List (RelayTransportOutcome Edge) → List ContextCall
all_calls observed [] = []
all_calls observed (outcome ∷ outcomes) =
    record_outcome observed outcome ++ all_calls observed outcomes

abbrev pub first_of : {Edge : Type 0} → List (RelayTransportOutcome Edge) → Option ConnectorError
first_of [] = none
first_of (outcome ∷ outcomes) = or_first outcome.error (first_of outcomes)

module _ {Edge : Type 0} (observed : Observations Edge) where
  -- Each route's state shows the route's outcome.
  abbrev pub AreReported : Store Edge → List Route → List (RelayTransportOutcome Edge) → Type 0
  AreReported s [] outcomes = Unit
  AreReported s (route ∷ routes) [] = Unit
  AreReported s (route ∷ routes) (outcome ∷ outcomes) =
      (result_at route.1 s ≡ some (result_for observed route.0 outcome))
      × AreReported s routes outcomes

  abbrev pub IsPending : Store Edge → Route → Type 0
  IsPending s route = (result_at route.1 s ≡ none) × (route.1 < length s.states)

  -- What a run says of its outcomes.
  pub IsReport : ℕ → Bool → List Route → List (RelayTransportOutcome Edge) → Run Edge → Type 0
  IsReport max_bytes stop routes outcomes r =
      AreReported r.store routes outcomes
      × (r.calls ≡ readiness_success ∷ all_calls observed outcomes)
      × (r.outcome ≡ conclude max_bytes stop (first_of outcomes))
      × ((r.outcome ≡ success) ↔ ((first_of outcomes ≡ none) × (stop ≡ true)))
