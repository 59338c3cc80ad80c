-- ===== src/Gateway/Publishing.antt =====
-- `reattach`, `publish_group` and `run_with_recovery`. The three attempts of `reattach` are counted
-- down; the publishing loop, which runs for as long as the streams do, takes fuel.
pub mod Fenced
use connectors.Base.{
  ℕ, zero, suc, ◌+◌, ◌-◌, ◌*◌, ◌^◌, min, Bool, true, false, not, ◌&&◌, ◌||◌, Option, none, some,
  List, [], ◌∷◌, if◌then◌else◌, all, ltb, leb, ◌==◌, Result, ok, err, length, map_or,
}
use connectors.Configuration.Types.{RelayRouteConfiguration}
use connectors.Control.Handle.{SharedControl, PublisherCredential, snapshot, Controlled}
use connectors.Gateway.Failures.{
  IngressError, ingress, control, credential, recovery_budget, recoverable, credential_changed,
}
use connectors.Gateway.Ingress.{
  World, Group, Run, Outcome, value, failed, panicked, out_of_fuel, ActiveIngress,
  IngressConnection, ◌>>=◌, ◌>>◌, return, throw, diverge, ask, modify, get, throw_if, attempt,
  found,
}
use connectors.Audio.OpusWorker.World.{EncoderCounters}
use connectors.Gateway.Sending.{max_frame_age, poll_stream}
use connectors.Gateway.Recovery.{
  Reattachment, renewal, tunnel, is_renewal, recovery_attempts, recovery_budget_ns,
  attachment_timeout, first_wait, is_revoked, revision_at, close_active, admit_group, wait,
  attempted, install, give_up,
}

abbrev pub first_of : {A : Type 0} → List A → Option A
first_of [] = none
first_of (a ∷ rest) = some a

-- How one round over the streams ends: after all of them, with the streams reattached, or with a stop.
pub data Round : Type 0 where
  polled : (progress : Bool) → Round
  reattached stopped : Round

module _ {Secret Generation : Type 0} (world : World Secret Generation) where
  -- `recovery.control.snapshot()?`.
  abbrev pub take_snapshot : Run Secret (PublisherCredential Secret)
  take_snapshot = do
    answer ← ask (λ t. snapshot (world.now t) (world.control t))
    elim answer [ ok k ↦ return k | err e ↦ throw (control e) ]

  -- The end of an attempt: `none` asks for another one.
  unfoldable pub conclude :
      ℕ
      → ℕ
      → PublisherCredential Secret
      → PublisherCredential Secret
      → Reattachment
      → Result IngressError (Unit {0})
      → Run Secret (Option Bool)
  unfolding install give_up
  conclude fuel recovery_deadline k old reason (ok admitted) = do
    install world k (not (k.revision == old.revision) || is_renewal reason)
    return (some true)
  conclude fuel recovery_deadline k old reason (err error) = do
    ends ← give_up world k error recovery_deadline fuel
    return (if ends then some false else none)

  -- The body of the loop over the attempts, after the wait.
  unfoldable pub attempt_once :
      ℕ → ℕ → PublisherCredential Secret → Reattachment → Run Secret (Option Bool)
  unfolding conclude admit_group snapshot
  attempt_once fuel recovery_deadline old reason = do
    stopping ← ask world.is_stop_requested
    if stopping then return (some false) else do
      k ← take_snapshot
      first ← found (first_of world.configurations)
      now ← ask world.now
      later ← ask world.now
      latest ← ask world.now
      let deadline =
          min (min (min (now + attachment_timeout) recovery_deadline) k.valid_until)
            (later + first.startup_timeout)
      throw_if (leb deadline latest) (ingress recovery_budget)
      modify (λ g. record g { active = attempted world g.active; connections = [] })
      admission ← attempt (admit_group world fuel k deadline 0 world.configurations)
      conclude fuel recovery_deadline k old reason admission

  unfoldable pub attempt_all :
      ℕ → ℕ → ℕ → ℕ → PublisherCredential Secret → Reattachment → Run Secret Bool
  unfolding attempt_once wait
  attempt_all fuel zero number recovery_deadline old reason = throw (ingress recovery_budget)
  attempt_all fuel (suc left) number recovery_deadline old reason = do
    now ← ask world.now
    waited ← wait world fuel (min (now + first_wait * 2 ^ number) recovery_deadline)
    if not waited then return false else do
      ended ← attempt_once fuel recovery_deadline old reason
      elim ended [
        | some result ↦ return result
        | none ↦ attempt_all fuel left (suc number) recovery_deadline old reason
      ]

  unfoldable pub reattach : ℕ → PublisherCredential Secret → Reattachment → Run Secret Bool
  unfolding attempt_all close_active
  reattach fuel old reason = do
    now ← ask world.now
    modify (λ g. record g { paused = true })
    close_active world fuel
    attempt_all fuel recovery_attempts 0 (now + recovery_budget_ns) old reason

  -- The checks of `publish_group` before it polls: `false` breaks the loop.
  unfoldable pub check_recovery : ℕ → Run Secret Bool
  unfolding reattach
  check_recovery fuel = do
    recovery ← get (λ g. g.credential)
    elim recovery [
      | none ↦ return true
      | some k ↦ do
        gone ← ask (is_revoked world)
        throw_if gone (ingress credential)
        revision ← ask (revision_at world)
        renewed ← elim (revision == k.revision) [
          | true ↦ return true
          | false ↦ reattach fuel k renewal
        ]
        if not renewed then return false else do
          current ← get (λ g. g.credential)
          now ← ask world.now
          throw_if (elim current [ none ↦ false | some c ↦ leb c.valid_until now ])
              (ingress credential)
          return true
    ]

  unfoldable pub recover : ℕ → IngressError → Run Secret Round
  unfolding reattach recoverable credential_changed
  recover fuel error = do
    recovery ← get (λ g. g.credential)
    elim recovery [
      | none ↦ throw error
      | some k ↦ do
        revision ← ask (revision_at world)
        let changed = not (revision == k.revision)
        throw_if (not (recoverable error || (changed && credential_changed error))) error
        again ← reattach fuel k (if changed then renewal else tunnel)
        return (if again then reattached else stopped)
    ]

  unfoldable pub poll_all : ℕ → ℕ → ℕ → Bool → Run Secret Round
  unfolding poll_stream recover
  poll_all fuel zero index progress = return (polled progress)
  poll_all fuel (suc left) index progress = do
    result ← attempt (poll_stream world fuel index)
    elim result [
      | ok step ↦ poll_all fuel left (suc index) (progress || step)
      | err error ↦ recover fuel error
    ]

  unfoldable pub publish_group : ℕ → ℕ → Run Secret (Unit {0})
  unfolding check_recovery poll_all
  publish_group fuel zero = diverge
  publish_group fuel (suc rounds) = do
    aborted ← ask world.is_abort_requested
    if aborted then return tt else do
      goes_on ← check_recovery fuel
      if not goes_on then return tt else do
        active ← get (λ g. g.active)
        round ← poll_all fuel (length active) 0 false
        elim round [
          | stopped ↦ return tt
          | reattached ↦ publish_group fuel rounds
          | polled progress ↦ do
            after ← get (λ g. g.active)
            if all (λ s. s.disconnected) after then return tt else publish_group fuel rounds
        ]

-- `IngressStream`, with what its `Arc`s hold.
pub record IngressStream : Type 0 where
  pub connection : IngressConnection
  pub counters : EncoderCounters

unfoldable pub started : ℕ → IngressStream → ActiveIngress
started revision stream = record {
  connection = some stream.connection;
  counters = stream.counters;
  statistics = record {
    ingress_frames_sent = 0;
    ingress_payload_bytes_sent = 0;
    ingress_source_generation = stream.connection.source_generation;
    ingress_attachments = 1;
    ingress_renewals = 0;
    ingress_reconnects = 0;
    ingress_reconnect_attempts = 0;
    ingress_recovery_input_drops = 0;
    ingress_recovery_opus_drops = 0;
    ingress_discontinuities = 0;
    ingress_credential_revision = revision;
    rtp_sent = 0;
    bytes_sent = 0;
  };
  disconnected = false;
  channels = stream.connection.channels;
  highest_generation = stream.connection.source_generation;
  not_before_capture_ns = none;
}

abbrev pub all_started : ℕ → List IngressStream → List ActiveIngress
all_started revision [] = []
all_started revision (stream ∷ rest) = started revision stream ∷ all_started revision rest

module _ {Secret Generation : Type 0} (world : World Secret Generation) where
  abbrev pub with_input_drops : ℕ → ℕ → List ActiveIngress → List ActiveIngress
  with_input_drops t index [] = []
  with_input_drops t index (s ∷ rest) =
      record s {
        statistics = record s.statistics {
          ingress_recovery_input_drops = world.input_drops index t;
        };
      }
      ∷ with_input_drops t (suc index) rest

  abbrev pub initial : List IngressStream → Option (PublisherCredential Secret) → ℕ → Group Secret
  initial streams recovery moment = record {
    active = all_started (map_or recovery 0 (λ k. k.revision)) streams;
    credential = recovery;
    paused = false;
    connections = [];
    written = [];
    moment = moment;
  }

  -- The part of `run_with_recovery` after the publishing loop.
  unfoldable pub settle : ℕ → Run Secret (Unit {0})
  unfolding close_active
  settle fuel = do
    recovery ← get (λ g. g.credential)
    t ← ask (λ t. t)
    modify (λ g. elim recovery [
      | none ↦ g
      | some k ↦ record g { paused = true; active = with_input_drops t 0 g.active }
    ])
    close_active world fuel

  -- The statistics are those of the last state, the value is the error.
  unfoldable pub run_with_recovery :
      ℕ
      → ℕ
      → List IngressStream
      → Option (PublisherCredential Secret)
      → ℕ
      → Group Secret × Outcome (Result IngressError (Unit {0}))
  unfolding publish_group settle
  run_with_recovery fuel rounds streams recovery moment =
      (attempt (publish_group world fuel rounds) >>= λ result. settle fuel >> return result)
        (initial streams recovery moment)
