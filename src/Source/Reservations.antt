-- ===== src/Source/Reservations.antt =====
-- The observations and the private reservations of the sources (source.rs): `ObservationState` stands in
-- a heap, since a handle and a driver share it, and an `Arc` is its place; the reservations are the
-- mutex's map, keyed by Core's source id.
pub mod Declared
use connectors.Base.{
  ℕ, Bool, true, false, not, Option, none, some, List, [], ◌∷◌, ◌++◌, length, ◌==◌, is_some, Text,
  Result, ok, err, map_err, ◌>>=◌, fail_if, ◌>>◌, if◌then◌else◌, Table, get, remove, insert,
  is_empty,
}
use native.Mathlib.Decide.{ℕ_discrete}
use connectors.Source.Configuration.{
  RelayAudioBusSourceConfig, RelayAudioBusSourceError, Sourced, validate, session, wrong_session,
  reservation_state_unavailable, reservation_conflict,
}

pub record ObservationState : Type 0 where
  pub source_generation : ℕ
  pub prepared_total : ℕ
  pub startup_failures_total : ℕ
  pub connected_total : ℕ
  pub first_frame_total : ℕ
  pub received_frames_total : ℕ
  pub emitted_frames_total : ℕ
  pub noncontiguous_frames_total : ℕ
  pub pool_dropped_frames_total : ℕ
  pub decode_failures_total : ℕ
  pub runtime_failures_total : ℕ
  pub closed_total : ℕ
  pub latest_frame_at_ns : ℕ
  pub closed : Bool

-- `ObservationState::new`.
abbrev pub new_observations : ℕ → ObservationState
new_observations generation = record {
  source_generation = generation;
  prepared_total = 0;
  startup_failures_total = 0;
  connected_total = 0;
  first_frame_total = 0;
  received_frames_total = 0;
  emitted_frames_total = 0;
  noncontiguous_frames_total = 0;
  pool_dropped_frames_total = 0;
  decode_failures_total = 0;
  runtime_failures_total = 0;
  closed_total = 0;
  latest_frame_at_ns = 0;
  closed = false;
}

pub record PendingSource : Type 0 where
  pub config : RelayAudioBusSourceConfig
  pub observations : ℕ

-- The state of an installation; `poisoned` says that a thread panicked under the lock.
pub record Sources : Type 0 where
  pub core_session_id : ℕ
  pub pending : Table ℕ PendingSource
  pub poisoned : Bool
  pub observed : List ObservationState

pub record SourceHandle : Type 0 where
  pub source : ℕ
  pub observations : ℕ

-- The map has the new reservation also when there was one before.
unfoldable pub bind : ℕ → PendingSource → Sources → Sources × Sourced (Unit {0})
bind source_id pending s = if s.poisoned then (s, err reservation_state_unavailable) else (
  record s { pending = insert ℕ_discrete s.pending source_id pending },
  fail_if (is_some (get ℕ_discrete s.pending source_id)) reservation_conflict,
)

unfoldable pub cancel : ℕ → Sources → Sources
cancel source_id s =
    if s.poisoned then s else record s { pending = remove ℕ_discrete s.pending source_id }

-- The end of `declare`, after `bind`; `output` answers `source.output(OUTPUT_PORT)`.
unfoldable pub finish_declare :
    ℕ → ℕ → Result Text (Unit {0}) → Sources × Sourced (Unit {0}) → Sources × Sourced SourceHandle
unfolding cancel
finish_declare source_id place output (s, err e) = (s, err e)
finish_declare source_id place (err message) (s, ok bound) =
    (cancel source_id s, err (session message))
finish_declare source_id place (ok port) (s, ok bound) =
    (s, ok (record { source = source_id; observations = place }))

-- `source` answers `session.source(..)`, with Core's new source id.
unfoldable pub declare :
    ℕ
    → RelayAudioBusSourceConfig
    → Result Text ℕ
    → Result Text (Unit {0})
    → Sources
    → Sources × Sourced SourceHandle
unfolding bind finish_declare
declare session_id config source output s =
    elim (do
      fail_if (not (session_id == s.core_session_id)) wrong_session
      validate config
      map_err source session) [
        | err e ↦ (s, err e)
        | ok source_id ↦
            let place = length s.observed in
            finish_declare source_id place output (
              bind source_id (record { config = config; observations = place })
                (record s {
                  observed = s.observed ++ new_observations config.source_generation ∷ [];
                }))
      ]
