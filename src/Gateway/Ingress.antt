-- ===== src/Gateway/Ingress.antt =====
-- The state of a publishing group, what it asks of its surroundings, and the small monad in which the
-- functions of gateway.rs are written: the state is passed on, an error ends the block, a panic or the
-- end of the fuel ends everything.
-- Each question is asked at a moment of its own, so that other threads may act between any two.
use connectors.Base.{
  ℕ, suc, Bool, true, false, Option, none, some, List, get_elem?, update, Text, Result, ok, err,
}
use connectors.Configuration.Types.{RelayRouteConfiguration}
use connectors.Control.Handle.{SharedControl, PublisherCredential}
use connectors.Audio.OpusWorker.World.{EncoderCounters, EncodedAudioFrame}
use connectors.Gateway.Failures.{IngressError, SocketError, CloseCode}

pub record IngressConnection : Type 0 where
  pub channels : ℕ
  pub source_generation : ℕ

pub record PublishStreamStats : Type 0 where
  pub ingress_frames_sent : ℕ
  pub ingress_payload_bytes_sent : ℕ
  pub ingress_source_generation : ℕ
  pub ingress_attachments : ℕ
  pub ingress_renewals : ℕ
  pub ingress_reconnects : ℕ
  pub ingress_reconnect_attempts : ℕ
  pub ingress_recovery_input_drops : ℕ
  pub ingress_recovery_opus_drops : ℕ
  pub ingress_discontinuities : ℕ
  pub ingress_credential_revision : ℕ
  pub rtp_sent : ℕ
  pub bytes_sent : ℕ

-- `counters` is shared with the encoder thread; what this thread adds to it is counted here.
pub record ActiveIngress : Type 0 where
  pub connection : Option IngressConnection
  pub counters : EncoderCounters
  pub statistics : PublishStreamStats
  pub disconnected : Bool
  pub channels : ℕ
  pub highest_generation : ℕ
  pub not_before_capture_ns : Option ℕ

-- What a `read` of the socket answers.
pub data Read : Type 0 where
  closed : Option CloseCode → Read
  ping_or_pong other_message : Read
  text : Text → Read
  failed_read : SocketError → Read

pub data Received (Generation : Type 0) : Type 0 where
  arrived : EncodedAudioFrame Generation → Received Generation
  empty disconnected_channel : Received Generation

-- `Ready`, as serde_json reads it.
pub record Ready : Type 0 where
  pub kind : Text
  pub bus_id : Text
  pub source_generation : ℕ

pub record World (Secret Generation : Type 0) : Type 0 where
  pub now : ℕ → ℕ
  -- The shared control as other threads leave it at each moment.
  pub control : ℕ → SharedControl Secret
  pub is_stop_requested : ℕ → Bool
  pub is_abort_requested : ℕ → Bool
  -- The URL, `proxy::connect` and the socket's timeouts, at a deadline.
  pub connect : ℕ → RelayRouteConfiguration Secret → ℕ → Result IngressError (Unit {0})
  pub parse_ready : Text → Option Ready
  pub read : ℕ → Read
  pub write : ℕ → Result SocketError (Unit {0})
  pub flush : ℕ → Result SocketError (Unit {0})
  pub try_recv : ℕ → Received Generation
  pub is_active : ℕ → Generation → Bool
  pub generation_id : Generation → ℕ
  -- `delivery.capture_end_ns[index]` and `input_drops[index]`, which the feeder threads write.
  pub capture_end_ns : ℕ → ℕ → ℕ
  pub input_drops : ℕ → ℕ → ℕ
  -- `recovery.configurations`.
  pub configurations : List (RelayRouteConfiguration Secret)

-- `credential` is that of the recovery, if there is one; `connections` are those under admission;
-- `written` are the packets that were offered to a socket, newest first, with their source generation.
pub record Group (Secret : Type 0) : Type 0 where
  pub active : List ActiveIngress
  pub credential : Option (PublisherCredential Secret)
  pub paused : Bool
  pub connections : List IngressConnection
  pub written : List (ℕ × List ℕ)
  pub moment : ℕ

pub data Outcome (A : Type 0) : Type 0 where
  value : A → Outcome A
  failed : IngressError → Outcome A
  panicked out_of_fuel : Outcome A

abbrev pub Run : Type 0 → Type 0 → Type 0
Run Secret A = Group Secret → Group Secret × Outcome A

module _ {Secret : Type 0} where
  abbrev pub continue :
      {A B : Type 0} → (A → Run Secret B) → Group Secret × Outcome A → Group Secret × Outcome B
  continue f (g, value a) = f a g
  continue f (g, failed e) = (g, failed e)
  continue f (g, panicked) = (g, panicked)
  continue f (g, out_of_fuel) = (g, out_of_fuel)

  infixl 5 ◌>>=◌ ◌>>◌
  unfoldable pub ◌>>=◌ : {A B : Type 0} → Run Secret A → (A → Run Secret B) → Run Secret B
  (m >>= f) g = continue f (m g)

  abbrev pub ◌>>◌ : {B : Type 0} → Run Secret (Unit {0}) → Run Secret B → Run Secret B
  m >> k = m >>= λ _. k

  unfoldable pub return : {A : Type 0} → A → Run Secret A
  return a g = (g, value a)

  unfoldable pub throw : {A : Type 0} → IngressError → Run Secret A
  throw e g = (g, failed e)

  unfoldable pub diverge : {A : Type 0} → Run Secret A
  diverge g = (g, out_of_fuel)

  abbrev pub lift : {A : Type 0} → Result IngressError A → Run Secret A
  lift (ok a) = return a
  lift (err e) = throw e

  -- `match m { Ok(a) => .., Err(e) => .. }`.
  abbrev pub caught :
      {A : Type 0} → Group Secret × Outcome A → Group Secret × Outcome (Result IngressError A)
  caught (g, value a) = (g, value (ok a))
  caught (g, failed e) = (g, value (err e))
  caught (g, panicked) = (g, panicked)
  caught (g, out_of_fuel) = (g, out_of_fuel)

  unfoldable pub attempt : {A : Type 0} → Run Secret A → Run Secret (Result IngressError A)
  attempt m g = caught (m g)

  -- A question, asked now.
  unfoldable pub ask : {A : Type 0} → (ℕ → A) → Run Secret A
  ask f g = (record g { moment = suc g.moment }, value (f g.moment))

  unfoldable pub modify : (Group Secret → Group Secret) → Run Secret (Unit {0})
  modify f g = (f g, value tt)

  unfoldable pub get : {A : Type 0} → (Group Secret → A) → Run Secret A
  get f g = (g, value (f g))

  -- `if condition { return Err(e) }`.
  abbrev pub throw_if : Bool → IngressError → Run Secret (Unit {0})
  throw_if true e = throw e
  throw_if false e = return tt

  abbrev pub found : {A : Type 0} → Option A → Run Secret A
  found none = λ g. (g, panicked)
  found (some a) = return a

  -- `active[index]`, which panics out of range.
  unfoldable pub stream_at : ℕ → Run Secret ActiveIngress
  stream_at index g = found (get_elem? g.active index) g

  abbrev pub modify_stream : ℕ → (ActiveIngress → ActiveIngress) → Run Secret (Unit {0})
  modify_stream index f = modify (λ g. record g { active = update f index g.active })
