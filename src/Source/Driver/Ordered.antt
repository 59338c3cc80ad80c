-- ===== src/Source/Driver/Ordered.antt =====
-- The time line of the decoded frames (source.rs).
use connectors.Base.{
  ℕ, zero, suc, ◌+◌, ◌-◌, ◌*◌, ◌/◌, min, ◌≡◌, ◌≤◌, ◌<◌, ◌⊎◌, inl, inr, refl, sym, ap, ap₂, ◌∙◌,
  arith, true, false, not, ◌&&◌, List, Option, some, Text, Result, ok, err, is_some, is_some_and,
  ltb, on_if, on_option, on_test, on_cases, u64_max, saturating_add, ◌==◌, ok_inj,
}
use native.Mathlib.Nat.{div-zero, le-div_iff_mul-le, div-mul-le_self}
use connectors.Source.Reservations.{ObservationState}
use connectors.Source.Driver.{
  Driver, World, ReceivedOpusFrame, DecodedFrame, get_or, observe, count, note_gap, note_return,
  arrive, delta_ns, stamp, decode_arrived, decode, emission, wrapped, emission_or_drop,
  max_packet_samples,
}

div_mono : (a b k : ℕ) → a ≤ b → a / k ≤ b / k
div_mono a b zero h = rw (div-zero a, div-zero b) (omega arith)
div_mono a b (suc k) h =
    (le-div_iff_mul-le {k = suc k} {x = a / suc k} {y = b} (omega arith)).1
      (omega (arith, div-mul-le_self a (suc k), h))

once : (x g m : ℕ) → x ≤ m → g ≡ min (x + 1) m → (x < g) ⊎ (m ≤ x)
once x g m small e = ground (arith, small, e)

twice : (x g m : ℕ) → x ≤ m → x ≤ g → (x < min (g + 1) m) ⊎ (m ≤ x)
twice x g m small e = ground (arith, small, e)

forwards : (r p : ℕ) {o : Option ℕ} → o ≡ some p → is_some_and o (λ q. ltb r q) ≡ false → p ≤ r
forwards r p e h = ground (arith, e, h)

highest : (x y z m : ℕ) → x ≤ y → y ≤ z → m ≤ y → (x < z) ⊎ (m ≤ x)
highest x y z m low high top = ground (arith, low, high, top)

later_stamp :
    (local anchor r q hz kz : ℕ)
    → r ≤ q
    → hz ≡ kz
    → saturating_add local (delta_ns (r - anchor) hz)
      ≤ saturating_add local (delta_ns (q - anchor) kz)
unfolding delta_ns
later_stamp local anchor r q hz kz h same = rw same (
    omega (
      arith,
      div_mono ((r - anchor) * 1_000_000_000) ((q - anchor) * 1_000_000_000) kz (omega (arith, h)),
    ))

two : {A B C : Type 0} → A ⊎ B → A ⊎ B ⊎ C
two (inl a) = inl a
two (inr b) = inr (inl b)

module _ {Sample : Type 0} (world : World Sample) where
  -- What a frame's decoding leaves for the next one: the anchor of its time stamp, the time stamp, the
  -- next sequence number and an epoch that has not gone back.
  pub record Follows (encoded : ReceivedOpusFrame) (f : DecodedFrame Sample) (d : Driver Sample)
      : Type 0 where
    pub first_rtp : ℕ
    pub first_local : ℕ
    pub anchored : d.first_rtp_timestamp ≡ some first_rtp
    pub located : d.first_local_timestamp_ns ≡ some first_local
    pub previous : d.previous_rtp_timestamp ≡ some encoded.rtp_timestamp
    pub seen : d.seen_frame ≡ true
    pub next : d.next_sequence ≡ saturating_add f.sequence_number 1
    pub epoch : f.discontinuity_epoch ≤ d.discontinuity_epoch
    pub small : d.discontinuity_epoch ≤ u64_max
    pub stamped :
        f.timestamp_ns
        ≡ saturating_add first_local
            (delta_ns (encoded.rtp_timestamp - first_rtp) encoded.rtp_clock_hz)

  -- What a decoding that succeeds has done: it stamped the frame that had arrived.
  decode-stamp :
      (encoded : ReceivedOpusFrame) (d after : Driver Sample) (f : DecodedFrame Sample)
      → decode world encoded d ≡ (after, ok f)
      → (n : ℕ) × (samples : List Sample) × (stamp world encoded n samples
            (record (arrive encoded d) { moment = suc (arrive encoded d).moment })
          ≡ (after, ok f))
  unfolding decode decode_arrived
  decode-stamp encoded d after f =
      on_if IsStamp (is_some d.observations)
        (on_if IsStamp (arrive encoded d).has_decoder
          (on_cases IsStamp (world.decode_into (arrive encoded d).moment encoded.payload)
            (λ decoded got.
              on_if IsStamp (decoded.0 == max_packet_samples) (λ e. (decoded.0, decoded.1, e))
                (λ e. cc))
            (λ problem got e. cc))
          (λ e. cc))
        (λ e. cc)
    where
      IsStamp : Driver Sample × Result Text (DecodedFrame Sample) → Type 0
      IsStamp r =
          r ≡ (after, ok f)
          → (n : ℕ) × (samples : List Sample) × (stamp world encoded n samples
                (record (arrive encoded d) { moment = suc (arrive encoded d).moment })
              ≡ (after, ok f))

  stamp-Follows :
      (encoded : ReceivedOpusFrame) (n : ℕ) (samples : List Sample) (d after : Driver Sample)
      (f : DecodedFrame Sample)
      → d.previous_rtp_timestamp ≡ some encoded.rtp_timestamp
      → d.seen_frame ≡ true
      → d.discontinuity_epoch ≤ u64_max
      → stamp world encoded n samples d ≡ (after, ok f)
      → Follows encoded f after
        × (f.sequence_number ≡ d.next_sequence)
        × (f.discontinuity_epoch ≡ d.discontinuity_epoch)
        × (f.timestamp_ns
            ≡ saturating_add
                (get_or d.first_local_timestamp_ns (world.monotonic_timestamp_ns d.moment))
                (delta_ns
                  (encoded.rtp_timestamp - get_or d.first_rtp_timestamp encoded.rtp_timestamp)
                  encoded.rtp_clock_hz))
  unfolding stamp
  stamp-Follows encoded n samples d after f previous seen small e =
      let p = ap (λ r. r.0) e in
      let q = ok_inj (ap (λ r. r.1) e) in
      let local = get_or d.first_local_timestamp_ns (world.monotonic_timestamp_ns d.moment) in
      let anchor = get_or d.first_rtp_timestamp encoded.rtp_timestamp in
      (
        record {
          first_rtp = anchor;
          first_local = local;
          anchored = sym (ap (λ t. t.first_rtp_timestamp) p);
          located = sym (ap (λ t. t.first_local_timestamp_ns) p);
          previous = sym (ap (λ t. t.previous_rtp_timestamp) p) ∙ previous;
          seen = sym (ap (λ t. t.seen_frame) p) ∙ seen;
          next = sym (ap (λ t. t.next_sequence) p) ∙ ap (λ g. saturating_add g.sequence_number 1) q;
          epoch =
              omega (arith, ap (λ t. t.discontinuity_epoch) p, ap (λ g. g.discontinuity_epoch) q);
          small = omega (arith, ap (λ t. t.discontinuity_epoch) p, small);
          stamped = sym (ap (λ g. g.timestamp_ns) q);
        },
        sym (ap (λ g. g.sequence_number) q),
        sym (ap (λ g. g.discontinuity_epoch) q),
        sym (ap (λ g. g.timestamp_ns) q),
      )

  -- What the arrival of a frame does to the epoch and the anchor, after one with the time stamp
  -- `previous`.
  Arrival : ℕ → ReceivedOpusFrame → Driver Sample → Driver Sample → Type 0
  Arrival previous encoded d a =
      (a.next_sequence ≡ d.next_sequence)
      × (d.discontinuity_epoch ≤ a.discontinuity_epoch)
      × (a.discontinuity_epoch ≤ u64_max)
      × ((d.discontinuity_epoch < a.discontinuity_epoch)
          ⊎ (u64_max ≤ d.discontinuity_epoch)
          ⊎ ((encoded.contiguous ≡ true)
              × (previous ≤ encoded.rtp_timestamp)
              × (a.first_rtp_timestamp ≡ d.first_rtp_timestamp)
              × (a.first_local_timestamp_ns ≡ d.first_local_timestamp_ns)))

  -- What `note_gap` does: the epoch stays for a contiguous frame, and nothing else changes.
  IsGap : ReceivedOpusFrame → Driver Sample → Driver Sample → Type 0
  IsGap encoded d g =
      (g.previous_rtp_timestamp ≡ d.previous_rtp_timestamp)
      × (g.next_sequence ≡ d.next_sequence)
      × (g.first_rtp_timestamp ≡ d.first_rtp_timestamp)
      × (g.first_local_timestamp_ns ≡ d.first_local_timestamp_ns)
      × (((g.discontinuity_epoch ≡ d.discontinuity_epoch) × (encoded.contiguous ≡ true))
          ⊎ (g.discontinuity_epoch ≡ saturating_add d.discontinuity_epoch 1))

  note_gap-IsGap :
      (encoded : ReceivedOpusFrame) (d : Driver Sample)
      → d.seen_frame ≡ true
      → IsGap encoded d (note_gap encoded d)
  unfolding note_gap IsGap
  note_gap-IsGap encoded d seen =
      on_test (IsGap encoded d) (d.seen_frame && not encoded.contiguous)
        (λ broken. (refl, refl, refl, refl, inr refl))
        (λ whole. (refl, refl, refl, refl, inl (refl, ground (arith, seen, whole))))

  arrive-Arrival :
      (encoded : ReceivedOpusFrame) (d : Driver Sample) (previous : ℕ)
      → d.previous_rtp_timestamp ≡ some previous
      → d.seen_frame ≡ true
      → d.discontinuity_epoch ≤ u64_max
      → Arrival previous encoded d (arrive encoded d)
  unfolding Arrival IsGap arrive note_return
  arrive-Arrival encoded d previous h seen small =
      let received : Driver Sample =
        observe (λ o. record o { received_frames_total = count o.received_frames_total }) d in
      let g = note_gap encoded received in
      let gap = note_gap-IsGap encoded received seen in
      on_test (Arrival previous encoded d)
        (is_some_and g.previous_rtp_timestamp (λ p. ltb encoded.rtp_timestamp p))
        (λ back. (
          gap.1,
          ground (arith, gap.4, small),
          omega arith,
          (two (
              twice d.discontinuity_epoch g.discontinuity_epoch u64_max small
                (ground (arith, gap.4, small)))),
        ))
        (λ on. (
          gap.1,
          ground (arith, gap.4, small),
          ground (arith, gap.4, small),
          (elim gap.4 [
            | inl whole ↦ inr (
                inr (whole.1, forwards encoded.rtp_timestamp previous (gap.0 ∙ h) on, gap.2, gap.3))
            | inr broken ↦
                two (once d.discontinuity_epoch g.discontinuity_epoch u64_max small broken)
          ]),
        ))

  shifted :
      (encoded : ReceivedOpusFrame) (f : DecodedFrame Sample) (d : Driver Sample)
      (o : Option ObservationState) (moment : ℕ)
      → Follows encoded f d
      → Follows encoded f (record d { observations = o; moment = moment })
  shifted encoded f d o moment h = record {
    first_rtp = h.first_rtp;
    first_local = h.first_local;
    anchored = h.anchored;
    located = h.located;
    previous = h.previous;
    seen = h.seen;
    next = h.next;
    epoch = h.epoch;
    small = h.small;
    stamped = h.stamped;
  }

  wrapped-same : {A : Type 0} (r : Driver Sample × Result Text A) → (wrapped world r).0 ≡ r.0
  unfolding wrapped
  wrapped-same (d, ok a) = refl
  wrapped-same (d, err e) = refl

  emission-Follows :
      (encoded : ReceivedOpusFrame) (f : DecodedFrame Sample) (d : Driver Sample)
      → Follows encoded f d
      → Follows encoded f (emission world f d).0
  unfolding emission
  emission-Follows encoded f d h =
      let asked = shifted encoded f d d.observations (2 + d.moment) h in
      on_if Kept (not d.has_session) h (
        on_cases Kept (world.build_frame d.moment f)
          (λ frame built.
            on_option Kept d.config (λ absent. asked)
              (λ config found.
                on_cases Kept (world.build_envelope (1 + d.moment) f config.source_generation)
                  (λ envelope built.
                    on_if Kept (is_some d.observations) (shifted encoded f d _ (2 + d.moment) h)
                      asked)
                  (λ e failed. asked)))
          (λ e failed. asked))
    where
      Kept : Driver Sample × Result Text (DecodedFrame Sample × ℕ) → Type 0
      Kept r = Follows encoded f r.0

  -- Whether the second frame is emitted, dropped or refused, the time line is the same, and a drop
  -- starts a new epoch.
  emission_or_drop-Follows :
      (encoded : ReceivedOpusFrame) (f : DecodedFrame Sample) (d : Driver Sample)
      → Follows encoded f d
      → Follows encoded f (emission_or_drop world f d).0
  unfolding emission_or_drop
  emission_or_drop-Follows encoded f d h =
      on_if
        (λ (r : Driver Sample × Result Text (Option (DecodedFrame Sample × ℕ))).
          Follows encoded f r.0)
        (world.available_slots d.moment == 0)
        (record {
          first_rtp = h.first_rtp;
          first_local = h.first_local;
          anchored = h.anchored;
          located = h.located;
          previous = h.previous;
          seen = h.seen;
          next = h.next;
          epoch = omega (arith, h.epoch, h.small);
          small = omega arith;
          stamped = h.stamped;
        })
        (rw (wrapped-same (emission world f (record d { moment = suc d.moment }))) (
          emission-Follows encoded f (record d { moment = suc d.moment })
            (shifted encoded f d d.observations (suc d.moment) h)))

  -- How the next frame is placed after one.
  pub InOrder :
      ReceivedOpusFrame → ReceivedOpusFrame → DecodedFrame Sample → DecodedFrame Sample → Type 0
  InOrder first second f g =
      (g.sequence_number ≡ saturating_add f.sequence_number 1)
      × (f.discontinuity_epoch ≤ g.discontinuity_epoch)
      × ((f.discontinuity_epoch < g.discontinuity_epoch)
          ⊎ (u64_max ≤ f.discontinuity_epoch)
          ⊎ ((second.contiguous ≡ true)
              × (first.rtp_timestamp ≤ second.rtp_timestamp)
              × (f.timestamp_ns ≤ g.timestamp_ns)))

  placed :
      (first second : ReceivedOpusFrame) (f g : DecodedFrame Sample) (d after : Driver Sample)
      → Follows first f d
      → decode world second d ≡ (after, ok g)
      → first.rtp_clock_hz ≡ second.rtp_clock_hz
      → InOrder first second f g
  unfolding InOrder Arrival arrive
  placed first second f g d after h e same =
      let stamped = decode-stamp second d after g e in
      let arrived = arrive-Arrival second d first.rtp_timestamp h.previous h.seen h.small in
      let next = stamp-Follows second stamped.0 stamped.1 _ after g refl refl arrived.2 stamped.2 in
      (
        next.1 ∙ arrived.0 ∙ h.next,
        omega (arith, next.2, arrived.1, h.epoch),
        elim arrived.3 [
          | inl up ↦ inl (omega (arith, next.2, up, h.epoch))
          | inr (inl top) ↦ two (
              highest f.discontinuity_epoch d.discontinuity_epoch g.discontinuity_epoch u64_max
                h.epoch (omega (arith, next.2, arrived.1)) top)
          | inr (inr on) ↦
              let a = arrive second d in
              let local : get_or a.first_local_timestamp_ns
                    (world.monotonic_timestamp_ns (suc a.moment))
                  ≡ h.first_local =
                ap (λ o. get_or o (world.monotonic_timestamp_ns (suc a.moment)))
                  (on.3 ∙ h.located) in
              let anchor : get_or a.first_rtp_timestamp second.rtp_timestamp ≡ h.first_rtp =
                ap (λ o. get_or o second.rtp_timestamp) (on.2 ∙ h.anchored) in
              inr (
                inr (
                  on.0,
                  on.1,
                  (omega (
                    arith,
                    h.stamped,
                    next.3,
                    ap₂
                        (λ l n.
                          saturating_add l
                            (delta_ns (second.rtp_timestamp - n) second.rtp_clock_hz))
                        local anchor,
                    later_stamp h.first_local h.first_rtp first.rtp_timestamp second.rtp_timestamp
                        first.rtp_clock_hz second.rtp_clock_hz on.1 same,
                  )),
                ))
        ],
      )

  IsSmall : Driver Sample → Type 0
  IsSmall d = d.discontinuity_epoch ≤ u64_max

  note_gap-IsSmall :
      (encoded : ReceivedOpusFrame) (d : Driver Sample) → IsSmall d → IsSmall (note_gap encoded d)
  unfolding note_gap IsSmall
  note_gap-IsSmall encoded d h =
      on_if IsSmall (d.seen_frame && not encoded.contiguous) (omega arith) h

  arrive-IsSmall :
      (encoded : ReceivedOpusFrame) (d : Driver Sample) → IsSmall d → IsSmall (arrive encoded d)
  unfolding arrive note_return IsSmall
  arrive-IsSmall encoded d h =
      let received : Driver Sample =
        observe (λ o. record o { received_frames_total = count o.received_frames_total }) d in
      on_if IsSmall
        (is_some_and (note_gap encoded received).previous_rtp_timestamp
          (λ p. ltb encoded.rtp_timestamp p))
        (omega arith) (note_gap-IsSmall encoded received h)

  decoded-Follows :
      (encoded : ReceivedOpusFrame) (d after : Driver Sample) (f : DecodedFrame Sample)
      → d.discontinuity_epoch ≤ u64_max
      → decode world encoded d ≡ (after, ok f)
      → Follows encoded f after
  unfolding arrive IsSmall
  decoded-Follows encoded d after f small e =
      let stamped = decode-stamp encoded d after f e in
      (stamp-Follows encoded stamped.0 stamped.1 _ after f refl refl
        (arrive-IsSmall encoded d small) stamped.2).0

  -- Of two frames that are decoded one after the other, the second has the next sequence number and no
  -- earlier epoch, whatever became of the first one. In the same epoch it is contiguous and has a time
  -- stamp no earlier than the first one's, both as received and on the local clock, as long as epochs
  -- do not saturate at 64 bits; provided that both have the same RTP clock rate.
  pub decode-InOrder :
      (first second : ReceivedOpusFrame) (f g : DecodedFrame Sample)
      (d middle after : Driver Sample)
      → d.discontinuity_epoch ≤ u64_max
      → decode world first d ≡ (middle, ok f)
      → decode world second (emission_or_drop world f middle).0 ≡ (after, ok g)
      → first.rtp_clock_hz ≡ second.rtp_clock_hz
      → InOrder first second f g
  decode-InOrder first second f g d middle after small e k same =
      placed first second f g (emission_or_drop world f middle).0 after
        (emission_or_drop-Follows first f middle (decoded-Follows first d middle f small e)) k same
