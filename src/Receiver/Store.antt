-- ===== src/Receiver/Store.antt =====
-- `process_incoming_pkt`, when no packet in sequence waits to be written, on a truncated packet and on
-- the packet that is waited for.
pub mod Ahead
use native.Mathlib.Decide.{dec_lt}
use project_transport_protoc.Prelude.{
  ℕ, ◌+◌, ◌%◌, ◌^◌, ◌<◌, ◌≤◌, ◌≡◌, ◌≢◌, refl, sym, ap, ap₂, ◌∙◌, ◌⊎◌, inl, inr, true, false, not,
  ◌==◌, ltb, if◌then◌else◌, some, bit_or, max, Bool-cases, ==_iff, arith,
}
use project_transport_protoc.Prelude.Bits.{bit, set_bit, bit-lt}
use project_transport_protoc.Prelude.Run.{ret}
use project_transport_protoc.Packet.Layout
use project_transport_protoc.Packet.Layout.{Pkt, ptype_data}
use project_transport_protoc.Pktbuf.{Pktbuf, sub_u8, set_slot, pktbuf_used, pktbuf_slotfor_seq}
use project_transport_protoc.Pktbuf.Inv.{capacity_pos, nth, slot}
use project_transport_protoc.Pktbuf.Reserve.{Extends}
use project_transport_protoc.Pktbuf.Slotfor.{slotfor_seq-Extends}
use project_transport_protoc.Receiver.{
  Receiver, in_seq_count, window_size, distance, note_truncated, store_ahead, copy_ahead, advance,
  store_packet, place_packet, process_incoming_pkt,
}
use project_transport_protoc.Receiver.Inv.{IsReceiver}
use project_transport_protoc.Receiver.Put.{
  put, put-IsRing, put-there, put-others, put-IsNumbered, set_seq-set_seq,
}
use project_transport_protoc.Receiver.Holds.{
  in_seq_count-bits, same-Holds, marked_used, Leaves, Stores, restored, restored-nth,
  restored-IsNumbered, left-Leaves,
}

module _ {base : ℕ} {s : Receiver} (v : IsReceiver base 0 s) where
  pub v_expected : s.expected_seq ≡ base
  v_expected = v.expected ∙ omega (arith, v.base_in)

  -- The packet `p` came into the first place.
  abbrev pub received : Pkt → Receiver
  received p = record s { recv_buf = put s.recv_buf 0 p }

  -- The packet as it is read back.
  abbrev pub there : Pkt → Pkt
  there p = nth (put s.recv_buf 0 p) 0

  pub there_lem : (p : Pkt) → there p ≡ p
  there_lem p = put-there s.recv_buf 0 p

  abbrev pub stamped : Pkt → Receiver
  stamped p = record (received p) { last_ts = Layout.ts (there p) }

  pub distance_lem : (p : Pkt) → distance (stamped p) ≡ some 0
  unfolding distance
  distance_lem p = let even : (s.oos_mask % 2 == 1) ≡ false = ground (arith, v.gap) in rw even refl

  pub process_lem :
      (p : Pkt)
      → let gap = sub_u8 (Layout.seq (there p)) s.expected_seq in
        process_incoming_pkt (slot s.recv_buf 0) (received p) ≡ (
          if not (Layout.tr (there p) == 0)
          then ret false (note_truncated (slot s.recv_buf 0) gap (stamped p))
          else store_packet (slot s.recv_buf 0) gap 0 (stamped p))
  unfolding process_incoming_pkt
  process_lem p = ap (λ d. place_packet d (slot s.recv_buf 0) (stamped p)) (distance_lem p)

  pub truncated-Leaves :
      (p : Pkt)
      → 0 < pktbuf_used s.recv_buf
      → Layout.seq p < 256
      → Leaves base s (
          note_truncated
            (slot s.recv_buf 0)
            (sub_u8 (Layout.seq (there p)) s.expected_seq)
            (stamped p))
  truncated-Leaves p some_used small =
      elim (Bool-cases (ltb 0 (sub_u8 (Layout.seq (there p)) s.expected_seq))) [
        | inl ahead ↦ rw ahead (
            left-Leaves v _ (put-IsRing 0 _ (put-IsRing 0 p v.ring)) refl refl refl refl refl
              (omega arith)
              (rw v_expected (restored-IsNumbered s.recv_buf p base v.ring v.base_in v.numbered))
              (λ j pos lt.
                restored-nth s.recv_buf p s.expected_seq j pos (omega (arith, v.ring.fits))))
        | inr now ↦ rw now (
            left-Leaves v _ (put-IsRing 0 p v.ring) refl refl refl refl refl (omega arith)
              (put-IsNumbered base 0 p v.ring (capacity_pos v.ring) (λ j h ne. v.numbered j h)
                (ground (arith, v.expected, v.base_in, ap Layout.seq (there_lem p))))
              (λ j pos lt.
                put-others s.recv_buf 0 j p (omega (arith, v.ring.fits))
                  (omega (arith, v.ring.fits)) (λ e. absurd (omega arith))))
      ]

  abbrev pub marked : Pkt → ℕ → Receiver
  marked p g = record (stamped p) { oos_mask = bit_or s.oos_mask (2 ^ g) }

  -- The first place is filled, and with it those behind it up to the next gap are in sequence.
  pub now-Stores :
      (p : Pkt)
      → 0 < pktbuf_used s.recv_buf
      → Layout.seq p ≡ base
      → (c : ℕ) × (s' : Receiver) × (store_packet (slot s.recv_buf 0) 0 0 (stamped p)
          ≡ ret false s')
        × Stores base 0 c p s s'
  unfolding window_size
  now-Stores p some_used e = (
    count,
    _,
    refl,
    record {
      state = record {
        ring = put-IsRing 0 p v.ring;
        small = v.small;
        wide = v.wide;
        base_in = v.base_in;
        expected = omega (arith, bits.0, v.expected, v.small, v.wide);
        numbered =
            put-IsNumbered base 0 p v.ring (capacity_pos v.ring) (λ j h ne. v.numbered j h)
              (e ∙ omega (arith, v.base_in));
        held = within;
        ones = bits.1;
        gap = clear;
        marks = behind;
      };
      here = (first, put-there s.recv_buf 0 p);
      others = λ j pkt' ne. same-Holds s (advance (marked p 0)) j pkt' (kept j ne) (λ b.
          let (pos, lt, inside) = marked_used j v b in
          put-others s.recv_buf 0 j p (omega arith) inside ne);
      in_order = (λ h. refl, λ h. nonzero);
      written = refl;
    },
  )
    where
      mask : ℕ
      mask = bit_or s.oos_mask (2 ^ 0)

      count : ℕ
      count = in_seq_count 32 mask

      bits :
          (count ≤ 32) × ((j : ℕ) → j < count → bit j mask ≡ 1) × (count < 32 → bit count mask ≡ 0)
      bits = in_seq_count-bits 32 mask

      behind : (j : ℕ) → pktbuf_used s.recv_buf ≤ j → bit j mask ≡ 0
      behind j h = ground (arith, set_bit 0 j s.oos_mask, v.marks j h)

      kept : (j : ℕ) → j ≢ 0 → bit j s.oos_mask ≡ bit j mask
      kept j ne = ground (arith, set_bit 0 j s.oos_mask)

      first : bit 0 mask ≡ 1
      first = ground (arith, set_bit 0 0 s.oos_mask, v.gap)

      clear : bit count mask ≡ 0
      clear = elim (dec_lt count 32) [
        | yes lt ↦ bits.2 lt
        | no ge ↦ behind count (omega (arith, v.small, v.ring.fits))
      ]

      within : count ≤ pktbuf_used s.recv_buf
      within = elim (dec_lt (pktbuf_used s.recv_buf) count) [
        | yes lt ↦ absurd (
            omega (
              arith,
              behind (pktbuf_used s.recv_buf) (omega arith),
              bits.1 (pktbuf_used s.recv_buf) lt,
            ))
        | no ge ↦ omega arith
      ]

      nonzero : 0 < count
      nonzero = elim (Bool-cases (count == 0)) [
        | inl z ↦
            let e : count ≡ 0 = (==_iff _ _).0 z in absurd (omega (arith, first, rw e at clear))
        | inr nz ↦ ground arith
      ]
