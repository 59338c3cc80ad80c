-- ===== src/Gateway/Sending/Keeps.antt =====
-- What the publishing of one frame leaves alone.
use connectors.Base.{
  update, ℕ, zero, suc, ◌≡◌, refl, Bool, true, false, Option, none, some, List, [], ◌∷◌, ◌++◌,
  length, if◌then◌else◌,
}
use connectors.Control.Handle.{PublisherCredential}
use connectors.Audio.OpusWorker.World.{EncodedAudioFrame}
use connectors.Gateway.Failures.{IngressError, ingress, protocol}
use connectors.Gateway.Ingress.{
  ask, return, get, throw, modify, diverge, modify_stream, World, Group, Run, ActiveIngress, Read,
  Received, arrived, empty, disconnected_channel, closed, ping_or_pong, other_message, text,
  failed_read,
}
use connectors.Gateway.Triple.{
  on_result, on_option, Keeps, Timeless, chained, attempted_block, checked, streamed,
}
use connectors.Gateway.Packet.{encode_packet}
use connectors.Gateway.Sending.{
  is_still_valid, flush_until, send_until, transmit, send_if_fresh, send_frame, poll_stream, heard,
  with_cancelled, with_opus_drop, with_sent, with_stale,
}

-- The stream but for its totals.
pub record IsCount (s t : ActiveIngress) : Type 0 where
  pub connection : t.connection ≡ s.connection
  pub highest : t.highest_generation ≡ s.highest_generation
  pub attachments : t.statistics.ingress_attachments ≡ s.statistics.ingress_attachments
  pub renewals : t.statistics.ingress_renewals ≡ s.statistics.ingress_renewals
  pub reconnects : t.statistics.ingress_reconnects ≡ s.statistics.ingress_reconnects
  pub discontinuities : t.statistics.ingress_discontinuities ≡ s.statistics.ingress_discontinuities
  pub source_generation :
      t.statistics.ingress_source_generation ≡ s.statistics.ingress_source_generation

count_opus_drop : (s : ActiveIngress) → IsCount s (with_opus_drop s)
count_opus_drop s = record {
  connection = refl;
  highest = refl;
  attachments = refl;
  renewals = refl;
  reconnects = refl;
  discontinuities = refl;
  source_generation = refl;
}

count_cancelled : (s : ActiveIngress) → IsCount s (with_cancelled s)
count_cancelled s = record {
  connection = refl;
  highest = refl;
  attachments = refl;
  renewals = refl;
  reconnects = refl;
  discontinuities = refl;
  source_generation = refl;
}

count_stale : (s : ActiveIngress) → IsCount s (with_stale s)
count_stale s = record {
  connection = refl;
  highest = refl;
  attachments = refl;
  renewals = refl;
  reconnects = refl;
  discontinuities = refl;
  source_generation = refl;
}

count_disconnected : (s : ActiveIngress) → IsCount s (record s { disconnected = true })
count_disconnected s = record {
  connection = refl;
  highest = refl;
  attachments = refl;
  renewals = refl;
  reconnects = refl;
  discontinuities = refl;
  source_generation = refl;
}

count_sent : (bytes : ℕ) (s : ActiveIngress) → IsCount s (with_sent bytes s)
count_sent bytes s = record {
  connection = refl;
  highest = refl;
  attachments = refl;
  renewals = refl;
  reconnects = refl;
  discontinuities = refl;
  source_generation = refl;
}

-- A predicate on groups that neither the clock nor the socket changes, and that a stream keeps when
-- only its totals change.
pub record IsLocal {Secret : Type 0} (P : Group Secret → Type 0) : Type 0 where
  pub moment : Timeless P
  pub written :
      (g : Group Secret) (written : List (ℕ × List ℕ)) → P g → P (record g { written = written })
  pub counted :
      (g : Group Secret) (index : ℕ) (f : ActiveIngress → ActiveIngress)
      → ((s : ActiveIngress) → IsCount s (f s))
      → P g
      → P (record g { active = update f index g.active })

module _ {Secret Generation : Type 0} (world : World Secret Generation) {P : Group Secret → Type 0}
    (local : IsLocal P) where
  pub asked : {A : Type 0} (f : ℕ → A) → Keeps P (ask f)
  unfolding ask
  asked f = record { at = λ g p. local.moment g (suc g.moment) p }

  pub returned : {A : Type 0} (a : A) → Keeps P (return {Secret = Secret} a)
  unfolding return
  returned a = record { at = λ g p. p }

  pub thrown : {A : Type 0} (e : IngressError) → Keeps P (throw {Secret = Secret} {A = A} e)
  unfolding throw
  thrown e = record { at = λ g p. p }

  pub looked : {A : Type 0} (f : Group Secret → A) → Keeps P (get f)
  unfolding get
  looked f = record { at = λ g p. p }

  counting :
      (index : ℕ) (f : ActiveIngress → ActiveIngress)
      → ((s : ActiveIngress) → IsCount s (f s))
      → Keeps P (modify_stream index f)
  unfolding modify
  counting index f h = record { at = λ g p. local.counted g index f h p }

  pub branching :
      {A : Type 0} {m k : Run Secret A} (b : Bool)
      → Keeps P m
      → Keeps P k
      → Keeps P (if b then m else k)
  branching true h k = h
  branching false h k = k

  pub is_still_valid-Keeps :
      (recovery : Option (PublisherCredential Secret)) → Keeps P (is_still_valid world recovery)
  unfolding is_still_valid
  is_still_valid-Keeps none = returned true
  is_still_valid-Keeps (some k) = chained (asked _) (λ gone. branching gone (returned _) (
      chained (asked _)
        (λ revision. branching _ (returned _) (chained (asked _) (λ now. returned _)))))

  flush_until-Keeps :
      (fuel deadline : ℕ) (recovery : Option (PublisherCredential Secret))
      → Keeps P (flush_until world fuel deadline recovery)
  unfolding flush_until diverge
  flush_until-Keeps zero deadline recovery = record { at = λ g p. p }
  flush_until-Keeps (suc fuel) deadline recovery =
      chained (chained (is_still_valid-Keeps recovery) (λ valid. checked _ _)) (λ u.
        chained (asked world.flush) (λ flushed.
          on_result flushed (λ done. returned tt)
            (λ error. branching _ (thrown _) (
              chained (asked world.now)
                (λ now. chained (checked _ _) (λ v. flush_until-Keeps fuel deadline recovery))))))

  offered :
      (message : List (ℕ × List ℕ))
      → Keeps P (modify {Secret = Secret} (λ g. record g { written = message ++ g.written }))
  unfolding modify
  offered message = record { at = λ g p. local.written g _ p }

  pub send_until-Keeps :
      (fuel : ℕ) (message : List (ℕ × List ℕ)) (deadline : ℕ)
      (recovery : Option (PublisherCredential Secret))
      → Keeps P (send_until world fuel message deadline recovery)
  unfolding send_until
  send_until-Keeps fuel message deadline recovery =
      chained (chained (is_still_valid-Keeps recovery) (λ valid. checked _ _)) (λ u.
        chained (asked world.now) (λ now. chained (checked _ _) (λ v.
          chained (offered message) (λ w. chained (asked world.write) (λ queued.
            on_result queued (λ done. flush_until-Keeps fuel deadline recovery)
              (λ error. branching _ (flush_until-Keeps fuel deadline recovery) (thrown _)))))))

  transmit-Keeps :
      (fuel index : ℕ) (frame : EncodedAudioFrame Generation)
      (recovery : Option (PublisherCredential Secret))
      → Keeps P (transmit world fuel index frame recovery)
  unfolding transmit
  transmit-Keeps fuel index frame recovery = chained (streamed index) (λ stream.
      on_option stream.connection (thrown _) (λ connection.
        on_result (encode_packet world.generation_id frame connection.channels)
          (λ packet. chained (asked _) (λ now. chained (asked _) (λ latest.
            chained
              (attempted_block (λ r. P) (λ a g p. p) (λ e g p. p)
                (send_until-Keeps fuel ((connection.source_generation, packet) ∷ []) _ recovery))
              (λ sent.
                on_result sent (λ done. counting index _ (λ s. count_sent (length frame.payload) s))
                  (λ e. chained (counting index _ count_opus_drop) (λ u. thrown e))))))
          (λ refused. thrown (ingress protocol))))

  send_frame-Keeps :
      (fuel index : ℕ) (frame : EncodedAudioFrame Generation)
      (recovery : Option (PublisherCredential Secret))
      → Keeps P (send_frame world fuel index frame recovery)
  unfolding send_frame send_if_fresh
  send_frame-Keeps fuel index frame recovery = chained (streamed index) (λ stream.
      chained (asked _) (λ cancelled. branching _ (counting index _ count_cancelled) (
        branching _ (counting index _ count_opus_drop) (
          chained (asked _) (λ now.
            branching _ (counting index _ count_stale)
              (transmit-Keeps fuel index frame recovery))))))

  on_received :
      {B : Type 0} {f : EncodedAudioFrame Generation → Run Secret B} {m k : Run Secret B}
      (received : Received Generation)
      → ((frame : EncodedAudioFrame Generation) → Keeps P (f frame))
      → Keeps P m
      → Keeps P k
      → Keeps P (elim received [ arrived frame ↦ f frame | disconnected_channel ↦ m | empty ↦ k ])
  on_received (arrived frame) a b c = a frame
  on_received disconnected_channel a b c = b
  on_received empty a b c = c

  heard-Keeps : (message : Read) → Keeps P (heard world message)
  heard-Keeps (closed code) = thrown _
  heard-Keeps ping_or_pong = returned tt
  heard-Keeps other_message = thrown _
  heard-Keeps (text message) = thrown _
  heard-Keeps (failed_read error) = branching _ (returned tt) (thrown _)

  pub poll_stream-Keeps : (fuel index : ℕ) → Keeps P (poll_stream world fuel index)
  unfolding poll_stream
  poll_stream-Keeps fuel index = chained (streamed index) (λ stream. branching _ (returned false) (
      on_option stream.connection (thrown _) (λ connection. chained (asked _) (λ message.
        chained (heard-Keeps message) (λ u. chained (asked _) (λ received.
          chained (looked _) (λ recovery.
            on_received received
              (λ frame. chained (send_frame-Keeps fuel index frame recovery) (λ v. returned true))
              (chained (counting index _ count_disconnected) (λ v. returned true))
              (returned false))))))))
