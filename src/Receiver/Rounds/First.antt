-- ===== src/Receiver/Rounds/First.antt =====
-- The first packet of a transfer, and the receive buffer that it comes into.
use mathlib.Core.Path.{subst}
use native.Mathlib.Decide.{dec_lt}
use native.Mathlib.Nat.{pow-le-pow_right}
use project_transport_protoc.Prelude.{
  ℕ, ◌+◌, ◌%◌, ◌^◌, ◌<◌, ◌≤◌, ◌≡◌, ◌≢◌, refl, ap, ◌⊎◌, inl, inr, true, false, ltb, List, All, arith,
  sym, ◌∙◌, ◌==◌,
}
use project_transport_protoc.Prelude.Bits.{bit-zero, pow_pos}
use project_transport_protoc.Prelude.Memory.{Mem, IsBytes}
use project_transport_protoc.Prelude.Run.{ret}
use project_transport_protoc.Packet.Layout
use project_transport_protoc.Packet.Layout.{Pkt, ptype_data}
use project_transport_protoc.Packet.Codec.{Zlib}
use project_transport_protoc.Pktbuf.{Pktbuf, sub_u8, pktbuf_enqueue, mask_index}
use project_transport_protoc.Pktbuf.Inv.{IsRing, slot, mask_index-mod, nth}
use project_transport_protoc.Net.{
  net_ok, net_drop, Received, IsReceived, net_recvfrom, net_recv_pkt,
}
use project_transport_protoc.Net.Connect.{Hears, heard, skipped}
use project_transport_protoc.Receiver.{
  Receiver, initial, process_incoming_pkt, distance, note_truncated,
}
use project_transport_protoc.Receiver.Holds.{Stores, Holds}
use project_transport_protoc.Receiver.Put.{put, put-there}
use project_transport_protoc.Receiver.Keeps.{recvfrom-IsBytes}
use project_transport_protoc.Receiver.Deliver.{Delivers, Carries, IsGenuine}

-- The buffer that `pktbuf_new` returns.
abbrev pub new_buffer : ℕ → Pktbuf
new_buffer capacity = record { first = 0; last = 0; capacity = capacity; head = λ _ _. 0 }

-- A new packet object.
abbrev pub blank : Pkt
blank i = 0

-- What may arrive before the loop: no whole data packet with other data than the chunk of its number,
-- and nothing but data with the number 0, since the type of the first packet is not tested.
pub record IsFirst (z : Zlib) (file : ℕ → Mem × ℕ) (r : Received) : Type 0 where
  pub received : IsReceived r
  pub genuine : IsGenuine z file 0 r
  pub dat :
      (junk pkt : Pkt)
      → IsBytes junk
      → net_recvfrom z junk r ≡ (net_ok, pkt)
      → Layout.seq pkt ≡ 0
      → Layout.type pkt ≡ ptype_data

ret_inj : {s s' : Receiver} → ret false s ≡ ret false s' → s ≡ s'
ret_inj e = cc

-- The buffer with its first place for the packet.
abbrev pub opened : ℕ → Pktbuf
opened k = record (new_buffer (2 ^ k)) { last = 1 }

-- What has become of the first packet `pkt`, with `c` packets in sequence: it waits in the first place
-- to be written, or it was cut, and a NACK for number 0 is wanted.
pub data Processed (pkt : Pkt) : ℕ → Receiver → Type 0 where
  whole_first :
      (s : Receiver) → Layout.tr pkt ≡ 0 → Holds s 0 pkt → s.need_ack ≡ true → Processed pkt 1 s
  cut_first :
      (s : Receiver)
      → 0 < Layout.tr pkt
      → s.need_nack ≡ true
      → s.nack_seq ≡ 0
      → s.need_ack ≡ true
      → Processed pkt 0 s

module _ (z : Zlib) (file : ℕ → Mem × ℕ) where
  -- The packet that is heard is taken for the first chunk.
  pub record Opening (pkt : Pkt) : Type 0 where
    pub bytes : IsBytes pkt
    pub number : Layout.seq pkt ≡ 0
    pub carries : Layout.tr pkt ≡ 0 → Carries (file 0) pkt

  -- A packet of the expected number is in every window.
  in_window :
      (junk pkt : Pkt) (r : Received)
      → net_recvfrom z junk r ≡ (net_ok, pkt)
      → Layout.seq pkt ≡ 0
      → net_recv_pkt z junk r 0 0 ≡ (net_ok, pkt)
  unfolding net_recv_pkt
  in_window junk pkt r e at =
      let near : ltb 0 (sub_u8 (Layout.seq pkt) 0) ≡ false = rw at refl in rw (e, near) refl

  skipped-IsBytes :
      (rbuf rbuf' : Pkt) (r : Received)
      → (net_recvfrom z rbuf r ≡ (net_drop, rbuf'))
        ⊎ ((net_recvfrom z rbuf r ≡ (net_ok, rbuf')) × (Layout.seq rbuf' ≢ 0))
      → IsBytes (net_recvfrom z rbuf r).1
      → IsBytes rbuf'
  skipped-IsBytes rbuf rbuf' r (inl e) bytes = rw e at bytes
  skipped-IsBytes rbuf rbuf' r (inr (e, ne)) bytes = rw e at bytes

  pub Hears-Opening :
      {pkt : Pkt} {rest : List Received} {left : ℕ} {rbuf : Pkt} {rs : List Received}
      → Hears z 0 pkt rest left rbuf rs
      → IsBytes rbuf
      → All (IsFirst z file) rs
      → Opening pkt
  Hears-Opening {pkt} (heard rbuf r e at) bytes (first, others) =
      let fresh = recvfrom-IsBytes z rbuf r bytes first.received in
      record {
        bytes = rw e at fresh;
        number = at;
        carries = λ whole.
            let c =
              first.genuine rbuf pkt 0 bytes (omega arith) (in_window rbuf pkt r e at)
                (first.dat rbuf pkt bytes e at) whole in
            let here : 0 + sub_u8 (Layout.seq pkt) (0 % 256) ≡ 0 = rw at refl in
            subst (λ i. Carries (file i) pkt) here c;
      }
  Hears-Opening (skipped rbuf rbuf' r rs e x) bytes (first, others) =
      Hears-Opening x
        (skipped-IsBytes rbuf rbuf' r e (recvfrom-IsBytes z rbuf r bytes first.received)) others

module _ (k : ℕ) (le : k ≤ 5) where
  pow_le : 2 ^ k ≤ 32
  pow_le = pow-le-pow_right {n = 2} (omega arith) {i = k} {j = 5} le

  opened-IsRing : IsRing (opened k)
  opened-IsRing = record {
    power = k;
    is_power = refl;
    small = omega (arith, le);
    first_in = omega arith;
    last_in = omega arith;
    fits = pow_pos k;
  }

  pub opened_lem : pktbuf_enqueue (new_buffer (2 ^ k)) ≡ (slot (opened k) 0, (opened k))
  unfolding pktbuf_enqueue mask_index
  opened_lem = ap (λ i. (i, opened k)) (mask_index-mod opened-IsRing 0)

  pub initial-Delivers :
      (file : ℕ → Mem × ℕ) (max_window : ℕ)
      → max_window < 2 ^ k
      → Delivers file 0 0 (initial max_window (opened k))
  initial-Delivers file max_window wide = record {
    state = record {
      ring = opened-IsRing;
      small = pow_le;
      wide = wide;
      base_in = omega arith;
      expected = refl;
      numbered = λ j h. omega arith;
      held = omega arith;
      ones = λ j h. absurd (omega arith);
      gap = refl;
      marks = λ j h. bit-zero j;
    };
    bytes = λ i j. omega arith;
    holds = λ j pkt (b, e). absurd (omega (arith, b, bit-zero j));
    written = refl;
    carried = λ i h. absurd (omega arith);
    fresh = λ e. refl;
    last_len = λ i e. absurd (omega arith);
    acks = record { bytes = λ i. ground arith; type = refl; whole = refl; empty = refl };
    nacks = record { bytes = λ i. ground arith; type = refl; whole = refl; empty = refl };
  }

module _ (k max_window : ℕ) where
  -- Only the first place can be in sequence.
  one_only :
      (pkt : Pkt) (c : ℕ) (s' : Receiver)
      → sub_u8 (Layout.seq pkt) 0 ≡ 0
      → Stores 0 (sub_u8 (Layout.seq pkt) 0) c pkt (initial max_window (opened k)) s'
      → c ≡ 1
  one_only pkt c s' at x = elim (dec_lt 1 c) [
    | yes more ↦
        let (b, _) =
          (x.others 1 (nth s'.recv_buf 1) (λ e. absurd (omega (arith, e, at)))).1
            (x.state.ones 1 more, refl) in
        absurd (omega (arith, b, bit-zero 1))
    | no few ↦ omega (arith, x.in_order.1 at)
  ]

  pub stored_first :
      (pkt : Pkt) (c : ℕ) (s' : Receiver)
      → sub_u8 (Layout.seq pkt) 0 ≡ 0
      → Layout.tr pkt ≡ 0
      → Stores 0 (sub_u8 (Layout.seq pkt) 0) c pkt (initial max_window (opened k)) s'
      → Processed pkt c (record s' { need_ack = true })
  stored_first pkt c s' at whole x =
      let here : Holds s' 0 pkt = subst (λ g. Holds s' g pkt) at x.here in
      rw (one_only pkt c s' at x) (whole_first _ whole here refl)

  truncated_lem :
      (pkt : Pkt)
      → 0 < Layout.tr pkt
      → process_incoming_pkt (slot (opened k) 0) (initial max_window (put (opened k) 0 pkt))
        ≡ ret false (
            note_truncated
              (slot (opened k) 0)
              (sub_u8 (Layout.seq (nth (put (opened k) 0 pkt) 0)) 0)
              (record (initial max_window (put (opened k) 0 pkt)) {
                last_ts = Layout.ts (nth (put (opened k) 0 pkt) 0);
              }))
  unfolding process_incoming_pkt distance
  truncated_lem pkt cut =
      let bit_set : (Layout.tr (nth (put (opened k) 0 pkt) 0) == 0) ≡ false =
        ap (λ p. Layout.tr p == 0) (put-there (opened k) 0 pkt) ∙ ground arith in
      rw bit_set refl

  pub noted_first :
      (pkt : Pkt) (s' : Receiver)
      → Layout.seq pkt ≡ 0
      → 0 < Layout.tr pkt
      → process_incoming_pkt (slot (opened k) 0) (initial max_window (put (opened k) 0 pkt))
        ≡ ret false s'
      → Processed pkt 0 (record s' { need_ack = true })
  noted_first pkt s' at cut run =
      let here : Layout.seq (nth (put (opened k) 0 pkt) 0) ≡ 0 =
        ap Layout.seq (put-there (opened k) 0 pkt) ∙ at in
      subst (λ s. Processed pkt 0 (record s { need_ack = true }))
        (ret_inj (sym (truncated_lem pkt cut) ∙ run)) (cut_first _ cut refl here refl)
