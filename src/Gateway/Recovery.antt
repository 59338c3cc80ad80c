-- ===== src/Gateway/Recovery.antt =====
-- The parts of `reattach`: `prepare`, `admit_group`, the waiting, and what becomes of an admission.
-- Loops that wait take fuel.
pub mod Keeps
pub mod Ends
use connectors.Base.{
  ℕ, zero, suc, ◌+◌, ◌-◌, ◌*◌, ◌^◌, min, ◌≡◌, Bool, true, false, not, ◌&&◌, ◌||◌, Option, none,
  some, List, [], ◌∷◌, ◌++◌, if◌then◌else◌, all, ltb, leb, ◌==◌, saturating_add, Result, ok, err,
  Text, text_eq, codes,
}
use connectors.Configuration.Types.{RelayRouteConfiguration}
use connectors.Control.Handle.{SharedControl, PublisherCredential, snapshot}
use connectors.Gateway.Failures.{
  IngressError, ingress, control, other, credential, protocol, identity, generation,
  recovery_budget, classify_socket_error, recoverable, credential_changed,
}
use connectors.Gateway.Ingress.{
  World, Group, Run, Outcome, value, failed, panicked, out_of_fuel, IngressConnection,
  ActiveIngress, PublishStreamStats, Read, closed, ping_or_pong, other_message, text, failed_read,
  Ready, ◌>>=◌, ◌>>◌, return, throw, diverge, ask, modify, get, throw_if, stream_at, modify_stream,
  attempt, lift,
}
use connectors.Gateway.Sending.{max_frame_age, send_until, poll_stream}

abbrev pub recovery_attempts : ℕ
recovery_attempts = 3

-- 5 s, 1 s and 100 ms.
abbrev pub recovery_budget_ns : ℕ
recovery_budget_ns = 5_000_000_000

abbrev pub attachment_timeout : ℕ
attachment_timeout = 1_000_000_000

abbrev pub first_wait : ℕ
first_wait = 100_000_000

pub data Reattachment : Type 0 where
  renewal tunnel : Reattachment

abbrev pub is_renewal : Reattachment → Bool
is_renewal renewal = true
is_renewal tunnel = false

module _ {Secret Generation : Type 0} (world : World Secret Generation) where
  abbrev pub is_revoked : ℕ → Bool
  is_revoked t = (world.control t).is_revoked

  abbrev pub revision_at : ℕ → ℕ
  revision_at t = (world.control t).published_revision

  abbrev pub is_unexpected : RelayRouteConfiguration Secret → Ready → Bool
  is_unexpected configuration ready =
      not (text_eq ready.kind (codes "READY"))
      || not (text_eq ready.bus_id configuration.bus_id)
      || ready.source_generation == 0

  -- The loop of `prepare` that waits for READY; `before_deadline` runs it under a watchdog that shuts
  -- the socket down, which the next `read` reports.
  unfoldable pub await_ready : ℕ → RelayRouteConfiguration Secret → ℕ → Run Secret Ready
  await_ready zero configuration deadline = diverge
  await_ready (suc fuel) configuration deadline = do
    now ← ask world.now
    throw_if (ltb deadline now) other
    message ← ask world.read
    elim message [
      | closed code ↦ throw (ingress protocol)
      | ping_or_pong ↦ await_ready fuel configuration deadline
      | other_message ↦ throw (ingress protocol)
      | failed_read error ↦ throw (ingress (classify_socket_error error))
      | text received ↦ elim (world.parse_ready received) [
        | none ↦ throw (ingress protocol)
        | some ready ↦
            throw_if (is_unexpected configuration ready) (ingress identity) >> return ready
      ]
    ]

  unfoldable pub prepare : ℕ → RelayRouteConfiguration Secret → ℕ → ℕ → Run Secret IngressConnection
  unfolding await_ready
  prepare fuel configuration channels deadline = do
    connected ← ask (λ t. world.connect t configuration deadline)
    lift connected
    now ← ask world.now
    throw_if (ltb deadline now) other
    ready ← await_ready fuel configuration deadline
    return (record { channels = channels; source_generation = ready.source_generation })

  -- Every connection gets its close frame, whatever happened to those before it; each failure is
  -- forgotten, as the callers here do with the result.
  unfoldable pub cancel_until : ℕ → List IngressConnection → ℕ → Run Secret (Unit {0})
  unfolding send_until
  cancel_until fuel [] deadline = return tt
  cancel_until fuel (connection ∷ rest) deadline = do
    sent ← attempt (send_until world fuel [] deadline none)
    cancel_until fuel rest deadline

  abbrev pub taken : List ActiveIngress → List IngressConnection
  taken [] = []
  taken (stream ∷ rest) = elim stream.connection [
    | none ↦ taken rest
    | some connection ↦ connection ∷ taken rest
  ]

  abbrev pub detached : List ActiveIngress → List ActiveIngress
  detached [] = []
  detached (stream ∷ rest) = record stream { connection = none } ∷ detached rest

  unfoldable pub close_active : ℕ → Run Secret (Unit {0})
  unfolding cancel_until
  close_active fuel = do
    connections ← get (λ g. taken g.active)
    modify (λ g. record g { active = detached g.active })
    now ← ask world.now
    cancel_until fuel connections (now + max_frame_age)

  -- One configuration of `admit_group`.
  unfoldable pub admit_one :
      ℕ
      → PublisherCredential Secret
      → ℕ
      → ℕ
      → RelayRouteConfiguration Secret
      → Run Secret (Unit {0})
  unfolding prepare
  admit_one fuel k deadline index configuration = do
    gone ← ask is_revoked
    throw_if gone (ingress credential)
    before ← ask revision_at
    throw_if (not (before == k.revision)) (ingress credential)
    stopping ← ask world.is_stop_requested
    throw_if stopping (ingress credential)
    stream ← stream_at index
    connection ←
        prepare fuel (record configuration { source_token = k.token }) stream.channels deadline
    modify (λ g. record g { connections = g.connections ++ connection ∷ [] })
    throw_if (leb connection.source_generation stream.highest_generation) (ingress generation)
    modify_stream index (λ s. record s { highest_generation = connection.source_generation })
    gone_since ← ask is_revoked
    throw_if gone_since (ingress credential)
    after ← ask revision_at
    throw_if (not (after == k.revision)) (ingress credential)
    now ← ask world.now
    throw_if (leb deadline now) (ingress credential)

  unfoldable pub admit_group :
      ℕ
      → PublisherCredential Secret
      → ℕ
      → ℕ
      → List (RelayRouteConfiguration Secret)
      → Run Secret (Unit {0})
  unfolding admit_one
  admit_group fuel k deadline index [] = return tt
  admit_group fuel k deadline index (configuration ∷ rest) = do
    admit_one fuel k deadline index configuration
    admit_group fuel k deadline (suc index) rest

  -- `while Instant::now() < wait_until`: `false` once a stop is requested.
  unfoldable pub wait : ℕ → ℕ → Run Secret Bool
  wait zero wait_until = diverge
  wait (suc fuel) wait_until = do
    now ← ask world.now
    if leb wait_until now then return true else do
      stopping ← ask world.is_stop_requested
      if stopping
          then return false
          else do gone ← ask is_revoked; throw_if gone (ingress credential); wait fuel wait_until

  abbrev pub with_attempt : ActiveIngress → ActiveIngress
  with_attempt s = record s {
    statistics = record s.statistics {
      ingress_reconnect_attempts = saturating_add s.statistics.ingress_reconnect_attempts 1;
    };
  }

  abbrev pub attempted : List ActiveIngress → List ActiveIngress
  attempted [] = []
  attempted (s ∷ rest) = with_attempt s ∷ attempted rest

  -- What a stream becomes with its new connection.
  unfoldable pub attached : Bool → ℕ → Option ℕ → IngressConnection → ActiveIngress → ActiveIngress
  attached renewed revision cutoff connection s = record s {
    statistics = record s.statistics {
      ingress_source_generation = connection.source_generation;
      ingress_attachments = saturating_add s.statistics.ingress_attachments 1;
      ingress_discontinuities = saturating_add s.statistics.ingress_discontinuities 1;
      ingress_renewals =
          if renewed
          then saturating_add s.statistics.ingress_renewals 1
          else s.statistics.ingress_renewals;
      ingress_reconnects =
          if renewed
          then s.statistics.ingress_reconnects
          else saturating_add s.statistics.ingress_reconnects 1;
      ingress_credential_revision = revision;
    };
    not_before_capture_ns = cutoff;
    connection = some connection;
  }

  -- `active.iter_mut().zip(connections).enumerate()`.
  unfoldable pub attach_all :
      Bool → ℕ → ℕ → ℕ → List IngressConnection → List ActiveIngress → List ActiveIngress
  unfolding attached
  attach_all renewed revision t index connections [] = []
  attach_all renewed revision t index [] (s ∷ rest) = s ∷ rest
  attach_all renewed revision t index (c ∷ connections) (s ∷ rest) =
      attached renewed revision (some (world.capture_end_ns index t)) c s
      ∷ attach_all renewed revision t (suc index) connections rest

  unfoldable pub install : PublisherCredential Secret → Bool → Run Secret (Unit {0})
  unfolding attach_all
  install k renewed = do
    t ← ask (λ t. t)
    modify (λ g. record g {
      active = attach_all renewed k.revision t 0 g.connections g.active;
      connections = [];
      credential = some k;
      paused = false;
    })

  -- Whether another attempt follows an admission that failed.
  unfoldable pub give_up : PublisherCredential Secret → IngressError → ℕ → ℕ → Run Secret Bool
  unfolding recoverable credential_changed cancel_until
  give_up k error recovery_deadline fuel = do
    connections ← get (λ g. g.connections)
    modify (λ g. record g { connections = [] })
    now ← ask world.now
    cancel_until fuel connections (min (now + max_frame_age) recovery_deadline)
    stopping ← ask world.is_stop_requested
    if stopping then return true else do
      gone ← ask is_revoked
      throw_if gone (ingress credential)
      throw_if (not (recoverable error) && not (credential_changed error)) error
      revision ← ask revision_at
      if not (revision == k.revision)
          then return false
          else do throw_if (not (recoverable error)) error; return false
