-- ===== src/Source/Driver/Closed.antt =====
-- A source is closed once (source.rs).
use connectors.Base.{
  ◌≡◌, ◌⊎◌, inl, inr, refl, ap, arith, ◌∙◌, Bool, true, Option, none, some, map_option, Text, ok,
  Bool-cases,
}
use connectors.Source.Reservations.{ObservationState}
use connectors.Source.Driver.{
  Driver, World, close_connection, close, fail_startup, observe_closed, close_once, observe, count,
}

close_once-close_once : (o : ObservationState) → close_once (close_once o) ≡ close_once o
close_once-close_once o = elim (Bool-cases o.closed) [
  | inl closed_before ↦ rw closed_before refl
  | inr open_before ↦ rw open_before refl
]

told_once :
    (o : Option ObservationState)
    → map_option close_once (map_option close_once o) ≡ map_option close_once o
told_once none = refl
told_once (some o) = ap some (close_once-close_once o)

IsShut : Option Bool → Type 0
IsShut connection = (connection ≡ none) ⊎ (connection ≡ some true)

module _ {Sample : Type 0} (world : World Sample) where
  close_connection-IsShut : (d : Driver Sample) → IsShut (close_connection world d).0.connection
  unfolding close_connection IsShut
  close_connection-IsShut d = ground arith

  close_connection-same :
      (d : Driver Sample) → (close_connection world d).0.observations ≡ d.observations
  unfolding close_connection
  close_connection-same d = ground arith

  shut_connection :
      (d : Driver Sample) → IsShut d.connection → close_connection world d ≡ (d, ok tt)
  unfolding close_connection IsShut
  shut_connection d shut = ground (arith, shut)

  settled :
      (d : Driver Sample)
      → IsShut d.connection
      → map_option close_once d.observations ≡ d.observations
      → close world d ≡ (d, ok tt)
  unfolding close observe_closed
  settled d shut told =
      ap (λ r. (observe_closed r.0, r.1)) (shut_connection d shut)
      ∙ (λ i. (record d { observations = told i }, ok tt))

  -- After a source has been closed, or its startup has failed, closing it does nothing and succeeds: the
  -- connection is not closed again, and the end is not counted again.
  pub close-close :
      (d : Driver Sample) (message : Text)
      → (close world (close world d).0 ≡ ((close world d).0, ok tt))
        × (close world (fail_startup world message d).0 ≡ ((fail_startup world message d).0, ok tt))
  unfolding close fail_startup observe_closed
  close-close d message =
      let counted : Driver Sample =
        observe (λ o. record o { startup_failures_total = count o.startup_failures_total }) d in
      (
        settled (close world d).0 (close_connection-IsShut d)
            (told_once (close_connection world d).0.observations),
        settled (fail_startup world message d).0 (close_connection-IsShut counted)
            (told_once (close_connection world counted).0.observations),
      )
