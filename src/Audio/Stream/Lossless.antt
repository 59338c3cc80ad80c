-- ===== src/Audio/Stream/Lossless.antt =====
-- The loop over one frame ends and loses nothing, whatever the sink does with the packets.
use connectors.Base.{
  ℕ, zero, suc, ◌+◌, ◌-◌, ◌<◌, ◌≡◌, refl, ◌∙◌, ap, sym, subst, Bool, true, false, inl, inr, List,
  [], ◌∷◌, ◌++◌, arith, length, take, drop, All, ltb, ◌==◌, if◌then◌else◌, Bool-cases, append-nil,
  append_assoc, drop_all, take-drop-step, length-drop, ltb→lt,
}
use connectors.Audio.Packetizer.{PcmPacketizer, push, finish_packet}
use connectors.Audio.Packetizer.Bounds.{IsValid, push-IsValid, finish_packet-IsValid}
use connectors.Audio.Packetizer.Pending.{
  pending, copied-push, pending-push, length-pending, complete_packet-pending, complete_packet-none,
}
use connectors.Audio.Stream.{Fed, done, stopped, out_of_fuel, feed, flush}

-- Packets with their timestamps, and the samples in them.
abbrev pub Packets : Type 0 → Type 0
Packets A = List (List A × ℕ)

abbrev pub packet_samples_of : {A : Type 0} → Packets A → List A
packet_samples_of [] = []
packet_samples_of ((packet, timestamp) ∷ rest) = packet ++ packet_samples_of rest

module _ {A S : Type 0} (sink : S → List A → ℕ → S × Bool) where
  -- Packets go to the sink in order, until it stops.
  unfoldable pub deliver_all : S → Packets A → S × Bool
  deliver_all s [] = (s, true)
  deliver_all s ((packet, timestamp) ∷ rest) =
      let (s', alive) = sink s packet timestamp in
      let later = deliver_all s' rest in if alive then later else (s', false)

abbrev pub ending : {A S : Type 0} → PcmPacketizer A → S × Bool → Fed A S
ending left (s, true) = done left s
ending left (s, false) = stopped s

-- A push keeps the size of a packet.
same_size :
    {A : Type 0} (input : List A) (timestamp offset : ℕ) (p : PcmPacketizer A)
    → (push p input timestamp offset).0.packet_samples ≡ p.packet_samples
unfolding push
same_size input timestamp offset p = refl

-- How a run of the loop from `p` and `s` over `input` ends.
pub record Delivers {A S : Type 0} (sink : S → List A → ℕ → S × Bool) (n : ℕ) (p : PcmPacketizer A)
    (s : S) (input : List A) (result : Fed A S) : Type 0 where
  pub packets : Packets A
  pub left : PcmPacketizer A
  pub outcome : result ≡ ending left (deliver_all sink s packets)
  pub lossless : packet_samples_of packets ++ pending left ≡ pending p ++ input
  pub exact : All (λ packet. length packet.0 ≡ p.packet_samples) packets
  pub valid : IsValid n left
  pub room : left.written < left.packet_samples
  pub same : left.packet_samples ≡ p.packet_samples

module _ {A S : Type 0} (sink : S → List A → ℕ → S × Bool) (n : ℕ) where
  -- What the rest of the loop must satisfy.
  abbrev Continues : List A → (PcmPacketizer A → S → Fed A S) → ℕ → Type 0
  Continues rest next size =
      (r : PcmPacketizer A) (t : S)
      → IsValid n r
      → r.written < r.packet_samples
      → r.packet_samples ≡ size
      → Delivers sink n r t rest (next r t)

  module _ (p q : PcmPacketizer A) (s : S) (input rest : List A)
      (next : PcmPacketizer A → S → Fed A S) (v : IsValid n q)
      (same : q.packet_samples ≡ p.packet_samples) (kept : pending q ++ rest ≡ pending p ++ input)
      (later : Continues rest next p.packet_samples) where
    flush_partial : q.written < q.packet_samples → Delivers sink n p s input (flush sink q s next)
    flush_partial room =
        rw (complete_packet-none n q room, flush)
          (record {
            packets = ih.packets;
            left = ih.left;
            outcome = ih.outcome;
            lossless = ih.lossless ∙ kept;
            exact = subst (λ k. All (λ packet. length packet.0 ≡ k) ih.packets) same ih.exact;
            valid = ih.valid;
            room = ih.room;
            same = ih.same ∙ same;
          })
      where
        ih : Delivers sink n q s rest (next q s)
        ih = later q s v room same

    flush_complete :
        q.written ≡ q.packet_samples
        → 0 < q.packet_samples
        → Delivers sink n p s input (flush sink q s next)
    unfolding deliver_all finish_packet
    flush_complete full pos =
        rw (complete_packet-pending n q full, flush)
          (record {
            packets = (pending q, q.packet_timestamp_ns) ∷ ih.packets;
            left = ih.left;
            outcome = answer (sink s (pending q) q.packet_timestamp_ns).1;
            lossless =
                append_assoc (pending q) (packet_samples_of ih.packets) (pending ih.left)
                ∙ ap (◌++◌ (pending q)) ih.lossless
                ∙ kept;
            exact = (
              omega (arith, length-pending n v, full, same),
              subst (λ k. All (λ packet. length packet.0 ≡ k) ih.packets) same ih.exact,
            );
            valid = ih.valid;
            room = ih.room;
            same = ih.same ∙ same;
          })
      where
        t : S
        t = (sink s (pending q) q.packet_timestamp_ns).0

        ih : Delivers sink n (finish_packet q) t rest (next (finish_packet q) t)
        ih = later (finish_packet q) t (finish_packet-IsValid n v) pos same

        answer :
            (alive : Bool)
            → (if alive then next (finish_packet q) t else stopped t)
              ≡ ending ih.left (if alive then deliver_all sink t ih.packets else (t, false))
        answer true = ih.outcome
        answer false = refl

    flush-Delivers : 0 < q.packet_samples → Delivers sink n p s input (flush sink q s next)
    flush-Delivers pos = elim (Bool-cases (q.written == q.packet_samples)) [
      | inl e ↦ flush_complete (ground arith) pos
      | inr e ↦ flush_partial (ground (arith, v.within))
    ]

  -- On a valid packetizer with room, with more rounds than samples left, the loop ends: the packets
  -- that it makes go to the sink in order, until it stops; each has the full size; together with what
  -- then stays in the packetizer, which is valid and has room, they are what was pending and the
  -- samples left.
  pub feed-Delivers :
      (fuel : ℕ) (samples : List A) (timestamp offset : ℕ) (p : PcmPacketizer A) (s : S)
      → IsValid n p
      → p.written < p.packet_samples
      → length samples - offset < fuel
      → Delivers sink n p s (drop offset samples) (feed sink fuel samples timestamp offset p s)
  unfolding feed deliver_all
  feed-Delivers zero samples timestamp offset p s v room enough = absurd (omega arith)
  feed-Delivers (suc fuel) samples timestamp offset p s v room enough =
      elim (Bool-cases (ltb offset (length samples))) [
        | inl more ↦ rw more (
            flush-Delivers p q s (drop offset samples) (drop (offset + copied) samples) next
              (push-IsValid n (drop offset samples) timestamp offset v)
              (same_size (drop offset samples) timestamp offset p) kept
              (λ r t w h e.
                feed-Delivers fuel samples timestamp (offset + copied) r t w h
                  (omega (arith, ltb→lt offset (length samples) more, progress more)))
              (omega (arith, same_size (drop offset samples) timestamp offset p)))
        | inr over ↦
            rw (over, drop_all offset samples (ground arith))
              (record {
                packets = [];
                left = p;
                outcome = refl;
                lossless = sym (append-nil (pending p));
                exact = tt;
                valid = v;
                room = room;
                same = refl;
              })
      ]
    where
      q : PcmPacketizer A
      q = (push p (drop offset samples) timestamp offset).0

      copied : ℕ
      copied = (push p (drop offset samples) timestamp offset).1

      next : PcmPacketizer A → S → Fed A S
      next r t = feed sink fuel samples timestamp (offset + copied) r t

      progress : ltb offset (length samples) ≡ true → 0 < copied
      progress more = omega (
        arith,
        ltb→lt offset (length samples) more,
        copied-push n (drop offset samples) timestamp offset p,
        length-drop offset samples,
      )

      kept : pending q ++ drop (offset + copied) samples ≡ pending p ++ drop offset samples
      kept =
          ap (λ held. held ++ drop (offset + copied) samples)
            (pending-push n (drop offset samples) timestamp offset v)
          ∙ append_assoc (pending p) (take copied (drop offset samples))
              (drop (offset + copied) samples)
          ∙ ap (◌++◌ (pending p)) (take-drop-step offset copied (offset + copied) samples refl)

-- A property of the sink's state at the end of the loop, which the loop reaches.
abbrev pub Preserved :
    {A S : Type 0} → (PcmPacketizer A → S → Type 0) → (S → Type 0) → Fed A S → Type 0
Preserved Left P (done left s) = Left left s
Preserved Left P (stopped s) = P s
Preserved Left P out_of_fuel = ⊥

module _ {A S : Type 0} (sink : S → List A → ℕ → S × Bool) (P : S → Type 0)
    (keep : (s : S) (packet : List A) (timestamp : ℕ) → P s → P (sink s packet timestamp).0) where
  deliver_all-keeps : (s : S) (packets : Packets A) → P s → P (deliver_all sink s packets).0
  unfolding deliver_all
  deliver_all-keeps s [] h = h
  deliver_all-keeps s ((packet, timestamp) ∷ rest) h =
      let t = (sink s packet timestamp).0 in
      let kept = keep s packet timestamp h in
      elim (Bool-cases (sink s packet timestamp).1) [
        | inl alive ↦ rw alive (deliver_all-keeps t rest kept)
        | inr over ↦ rw over kept
      ]

  -- What the sink keeps, the loop keeps, and it ends.
  pub feed-Preserved :
      (n : ℕ) (samples : List A) (timestamp : ℕ) (p : PcmPacketizer A) (s : S)
      → IsValid n p
      → p.written < p.packet_samples
      → P s
      → Preserved
          (λ left t. IsValid n left × (left.written < left.packet_samples) × P t)
          P
          (feed sink (suc (length samples)) samples timestamp 0 p s)
  feed-Preserved n samples timestamp p s v room h =
      let d =
        feed-Delivers sink n (suc (length samples)) samples timestamp 0 p s v room (omega arith) in
      rw d.outcome (
        at_end d.left (deliver_all sink s d.packets) d.valid d.room
          (deliver_all-keeps s d.packets h))
    where
      at_end :
          (left : PcmPacketizer A) (r : S × Bool)
          → IsValid n left
          → left.written < left.packet_samples
          → P r.0
          → Preserved (λ q t. IsValid n q × (q.written < q.packet_samples) × P t) P (ending left r)
      at_end left (t, true) v r h = (v, r, h)
      at_end left (t, false) v r h = h
