-- ===== src/Receiver/Skip.antt =====
-- A packet that arrives in sequence while others wait to be written.
use project_transport_protoc.Prelude.{
  ℕ, suc, ◌+◌, ◌%◌, ◌^◌, ◌<◌, ◌≤◌, ◌≡◌, refl, ap, ◌∙◌, inl, inr, true, false, ◌==◌, ltb, some,
  Bool-cases, bit_or, arith,
}
use project_transport_protoc.Prelude.Bits.{bit, set_bit}
use project_transport_protoc.Prelude.Run.{ret}
use project_transport_protoc.Packet.Layout
use project_transport_protoc.Packet.Layout.{Pkt}
use project_transport_protoc.Pktbuf.{sub_u8, pktbuf_used}
use project_transport_protoc.Pktbuf.Inv.{nth, slot}
use project_transport_protoc.Receiver.{
  Receiver, process_incoming_pkt, place_packet, distance, advance,
}
use project_transport_protoc.Receiver.Inv.{IsReceiver, window_size-ones}
use project_transport_protoc.Receiver.Empty.{first_here}

module _ {base c : ℕ} {s : Receiver} (v : IsReceiver base (suc c) s) (le : suc c ≤ s.max_window)
    (free : suc c < pktbuf_used s.recv_buf) (whole : Layout.tr (nth s.recv_buf (suc c)) ≡ 0) where
  stamped : Receiver
  stamped = record s { last_ts = Layout.ts (nth s.recv_buf (suc c)) }

  distance_lem : distance stamped ≡ some c
  unfolding stamped distance
  distance_lem =
      let odd : (s.oos_mask % 2 == 1) ≡ true = ground (arith, v.ones 0) in
      let at : sub_u8 s.expected_seq (Layout.seq (nth s.recv_buf 0) + 1) ≡ c =
        omega (arith, v.numbered 0, v.expected, v.base_in, le, v.wide, v.small) in
      rw (odd, first_here s v) (ap some at)

  remark : (j : ℕ) → bit j (bit_or s.oos_mask (2 ^ (c + 0))) ≡ bit j s.oos_mask
  remark j = elim (Bool-cases (j == c + 0)) [
    | inl at ↦
        let here : j ≡ c = ground (arith, at) in
        let one : bit j s.oos_mask ≡ 1 = rw here (v.ones c (omega arith)) in
        set_bit (c + 0) j s.oos_mask ∙ rw at (rw one refl)
    | inr off ↦ set_bit (c + 0) j s.oos_mask ∙ rw off (omega arith)
  ]

  marked : Receiver
  marked = record s {
    last_ts = Layout.ts (nth s.recv_buf (suc c));
    oos_mask = bit_or s.oos_mask (2 ^ (c + 0));
  }

  marked-IsReceiver : IsReceiver base (suc c) marked
  unfolding marked
  marked-IsReceiver = record {
    ring = v.ring;
    small = v.small;
    wide = v.wide;
    base_in = v.base_in;
    expected = v.expected;
    numbered = v.numbered;
    held = v.held;
    ones = λ j h. remark j ∙ v.ones j h;
    gap = remark (suc c) ∙ v.gap;
    marks = λ j h. remark j ∙ v.marks j h;
  }

  place_lem : place_packet (some c) (slot s.recv_buf (suc c)) stamped ≡ ret false (advance marked)
  unfolding stamped marked
  place_lem =
      let gap : sub_u8 (Layout.seq (nth s.recv_buf (suc c))) s.expected_seq ≡ 0 =
        omega (arith, v.numbered (suc c), v.expected) in
      let fits : ltb (c + 0) 32 ≡ true = ground (arith, le, v.wide, v.small) in
      rw (whole, gap, fits) refl

  -- With the invariant, and `c + 1` packets in sequence that wait to be written, no more than the largest
  -- window, `process_incoming_pkt` on the whole packet behind them leaves every bit of the mask and the
  -- buffer as they are, and moves `expected_seq` on by `c + 1`: the packet counts as received, and its
  -- place as empty.
  pub in_sequence_skipped :
      (s' : Receiver) × (process_incoming_pkt (slot s.recv_buf (suc c)) s ≡ ret false s')
      × ((j : ℕ) → bit j s'.oos_mask ≡ bit j s.oos_mask)
      × (s'.recv_buf ≡ s.recv_buf)
      × (s'.expected_seq ≡ (s.expected_seq + suc c) % 256)
  unfolding process_incoming_pkt stamped marked
  in_sequence_skipped = (
    advance marked,
    ap (λ d. place_packet d (slot s.recv_buf (suc c)) stamped) distance_lem ∙ place_lem,
    remark,
    refl,
    omega (arith, window_size-ones marked-IsReceiver le, le, v.wide, v.small),
  )
