-- ===== src/Receiver/Store/Ahead.antt =====
-- `process_incoming_pkt` on a packet that comes ahead of the one that is waited for, and on any packet.
use project_transport_protoc.Prelude.{
  ℕ, ◌+◌, ◌%◌, ◌<◌, ◌≤◌, ◌≡◌, refl, sym, ap, ap₂, ◌∙◌, ◌⊎◌, inl, inr, true, false, not, ◌==◌, ltb,
  if◌then◌else◌, some, max, Bool-cases, ==_iff, arith,
}
use project_transport_protoc.Prelude.Bits.{set_bit, bit-lt}
use project_transport_protoc.Prelude.Run.{ret}
use project_transport_protoc.Packet.Layout
use project_transport_protoc.Packet.Layout.{Pkt, ptype_data}
use project_transport_protoc.Pktbuf.{Pktbuf, sub_u8, set_slot, pktbuf_used, pktbuf_slotfor_seq}
use project_transport_protoc.Pktbuf.Inv.{slot}
use project_transport_protoc.Pktbuf.Reserve.{Extends}
use project_transport_protoc.Pktbuf.Slotfor.{slotfor_seq-Extends}
use project_transport_protoc.Receiver.{
  Receiver, note_truncated, store_ahead, copy_ahead, store_packet, process_incoming_pkt,
}
use project_transport_protoc.Receiver.Inv.{IsReceiver}
use project_transport_protoc.Receiver.Put.{
  put, put-IsRing, put-there, put-others, put-IsNumbered, set_seq-set_seq,
}
use project_transport_protoc.Receiver.Holds.{
  same-Holds, marked_used, Leaves, Stores, restored, restored-nth, restored-IsNumbered,
}
use project_transport_protoc.Receiver.Store.{
  v_expected, received, there, there_lem, stamped, process_lem, truncated-Leaves, marked,
  now-Stores,
}

module _ {base : ℕ} {s : Receiver} (v : IsReceiver base 0 s) where
  -- The packet moves to its own place, and the first one stays empty.
  module _ (p : Pkt) (some_used : 0 < pktbuf_used s.recv_buf) (small : Layout.seq p < 256)
      (pos : 0 < sub_u8 (Layout.seq p) base) (le : sub_u8 (Layout.seq p) base ≤ s.max_window) where
    abbrev gap : ℕ
    gap = sub_u8 (Layout.seq p) base

    abbrev named : Pktbuf
    named = restored s.recv_buf p base

    found :
        (b : Pktbuf) × (pktbuf_slotfor_seq named (Layout.seq p) ≡ some (slot named gap, b))
        × Extends named b base (max (pktbuf_used named) (gap + 1))
        × (Layout.seq (b.head (slot named gap)) ≡ Layout.seq p)
    found =
        slotfor_seq-Extends named base (Layout.seq p) (put-IsRing 0 _ (put-IsRing 0 p v.ring))
          (restored-IsNumbered s.recv_buf p base v.ring v.base_in v.numbered) v.base_in small
          (λ z. absurd (omega arith)) (omega (arith, v.wide))

    abbrev moved : Pktbuf → Receiver
    moved b = record (marked v p (0 + gap)) { recv_buf = put b gap p }

    -- The copy is the packet that came in.
    copied :
        (b : Pktbuf)
        → Extends named b base (max (pktbuf_used named) (gap + 1))
        → Layout.set_seq (b.head (slot named 0)) (Layout.seq (there v p)) ≡ p
    copied b x =
        ap (λ i. Layout.set_seq (b.head i) (Layout.seq (there v p)))
          (ap₂ (λ f c. (f + 0) % c) (sym x.first) (sym x.capacity))
        ∙ ap (λ q. Layout.set_seq q (Layout.seq (there v p)))
            (x.kept 0 (omega arith)
              ∙ put-there (put s.recv_buf 0 p) 0 (Layout.set_seq (there v p) base))
        ∙ set_seq-set_seq (there v p) base (rw (there_lem v p) small)
        ∙ there_lem v p

    run :
        (b : Pktbuf)
        → pktbuf_slotfor_seq named (Layout.seq p) ≡ some (slot named gap, b)
        → Extends named b base (max (pktbuf_used named) (gap + 1))
        → store_ahead (slot s.recv_buf 0) (marked v p (0 + gap)) ≡ ret false (moved b)
    run b e x =
        ap (λ r. copy_ahead r (slot s.recv_buf 0) (Layout.seq (there v p)) (marked v p (0 + gap)))
          (ap₂ (λ n q. pktbuf_slotfor_seq (restored s.recv_buf p n) q) (v_expected v)
              (ap Layout.seq (there_lem v p))
            ∙ e)
        ∙ ap₂ (λ i q. ret false (record (marked v p (0 + gap)) { recv_buf = set_slot b i q }))
            (ap₂ (λ f c. (f + gap) % c) (sym x.first) (sym x.capacity)) (copied b x)

    moved-Stores :
        (b : Pktbuf)
        → Extends named b base (max (pktbuf_used named) (gap + 1))
        → Stores base gap 0 p s (moved b)
    moved-Stores b x = record {
      state = record {
        ring = put-IsRing gap p x.ring;
        small = rw x.capacity v.small;
        wide = rw x.capacity v.wide;
        base_in = v.base_in;
        expected = v.expected;
        numbered =
            put-IsNumbered base gap p x.ring (rw x.capacity (omega (arith, v.wide)))
              (λ j h ne. x.numbered j h) (omega (arith, v.base_in));
        held = omega arith;
        ones = λ j h. absurd (omega arith);
        gap = ground (arith, set_bit (0 + gap) 0 s.oos_mask, v.gap);
        marks = λ j h.
            ground
              (arith, set_bit (0 + gap) j s.oos_mask, v.marks j (omega (arith, x.used)), x.used);
      };
      here = (
        ground (arith, set_bit (0 + gap) gap s.oos_mask, bit-lt gap s.oos_mask),
        put-there b gap p,
      );
      others = λ j pkt' ne.
          same-Holds s (moved b) j pkt' (ground (arith, set_bit (0 + gap) j s.oos_mask)) (λ m.
            let (front, lt, inside) = marked_used j v m in
            put-others b gap j p (rw x.capacity (omega (arith, v.wide))) (rw x.capacity inside) ne
            ∙ x.kept j (omega arith)
            ∙ restored-nth s.recv_buf p base j front inside);
      in_order = (λ h. absurd (omega arith), λ h. absurd (omega arith));
      written = refl;
    }

  process_at :
      (p : Pkt)
      → process_incoming_pkt (slot s.recv_buf 0) (received v p) ≡ (
          if not (Layout.tr p == 0)
          then ret false (
              note_truncated
                (slot s.recv_buf 0)
                (sub_u8 (Layout.seq (there v p)) s.expected_seq)
                (stamped v p))
          else store_packet (slot s.recv_buf 0) (sub_u8 (Layout.seq p) base) 0 (stamped v p))
  process_at p =
      process_lem v p
      ∙ ap₂
          (λ q x.
            if not (Layout.tr q == 0)
            then ret false (
                note_truncated (slot s.recv_buf 0) (sub_u8 (Layout.seq (there v p)) s.expected_seq)
                  (stamped v p))
            else store_packet (slot s.recv_buf 0) (sub_u8 (Layout.seq q) x) 0 (stamped v p))
          (there_lem v p) (v_expected v)

  now_at :
      (p : Pkt) (g : ℕ)
      → g ≡ 0
      → 0 < pktbuf_used s.recv_buf
      → Layout.seq p ≡ base
      → (c : ℕ) × (s' : Receiver) × (store_packet (slot s.recv_buf 0) g 0 (stamped v p)
          ≡ ret false s')
        × Stores base g c p s s'
  now_at p g z some_used e = rw z (now-Stores v p some_used e)

  store_packet_ahead :
      (p : Pkt)
      → 0 < sub_u8 (Layout.seq p) base
      → sub_u8 (Layout.seq p) base ≤ s.max_window
      → store_packet (slot s.recv_buf 0) (sub_u8 (Layout.seq p) base) 0 (stamped v p)
        ≡ store_ahead (slot s.recv_buf 0) (marked v p (0 + sub_u8 (Layout.seq p) base))
  store_packet_ahead p pos le =
      let short : ltb (0 + sub_u8 (Layout.seq p) base) 32 ≡ true =
        ground (arith, v.small, v.wide) in
      let ahead : ltb 0 (sub_u8 (Layout.seq p) base) ≡ true = ground arith in rw (short, ahead) refl

  -- What a packet that came into the first place ends in.
  pub process-cases :
      (p : Pkt)
      → 0 < pktbuf_used s.recv_buf
      → Layout.seq p < 256
      → sub_u8 (Layout.seq p) base ≤ s.max_window
      → (c : ℕ) × (s' : Receiver) × (process_incoming_pkt (slot s.recv_buf 0) (received v p)
          ≡ ret false s')
        × ((Layout.tr p ≡ 0) × Stores base (sub_u8 (Layout.seq p) base) c p s s'
            ⊎ (0 < Layout.tr p) × Leaves base s s')
  process-cases p some_used small le = elim (Bool-cases (Layout.tr p == 0)) [
    | inr cut ↦ (
      0,
      note_truncated (slot s.recv_buf 0) (sub_u8 (Layout.seq (there v p)) s.expected_seq)
          (stamped v p),
      process_at p ∙ rw cut refl,
      inr (ground arith, truncated-Leaves v p some_used small),
    )
    | inl whole ↦ elim (Bool-cases (sub_u8 (Layout.seq p) base == 0)) [
      | inl now ↦
          let zero_gap : sub_u8 (Layout.seq p) base ≡ 0 = (==_iff _ _).0 now in
          let (c, s', e, stores) = now_at p _ zero_gap some_used (omega (arith, v.base_in)) in
          (c, s', process_at p ∙ rw whole e, inl ((==_iff _ _).0 whole, stores))
      | inr ahead ↦
          let pos : 0 < sub_u8 (Layout.seq p) base = ground arith in
          let (b, e, x, _) = found p some_used small pos le in
          (
            0,
            moved p some_used small pos le b,
            process_at p
                ∙ rw whole (store_packet_ahead p pos le ∙ run p some_used small pos le b e x),
            inl ((==_iff _ _).0 whole, moved-Stores p some_used small pos le b x),
          )
    ]
  ]
