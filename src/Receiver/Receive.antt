-- ===== src/Receiver/Receive.antt =====
-- `do_receive_data`: what a datagram does to the buffer.
use mathlib.Core.Path.{subst}
use project_transport_protoc.Prelude.{
  ℕ, ◌+◌, ◌%◌, ◌<◌, ◌≤◌, ◌≡◌, ◌≢◌, refl, sym, ap, ap₂, ◌∙◌, ◌⊎◌, inl, inr, true, false, ◌==◌, some,
  max, Bool-cases, ==_iff, arith,
}
use project_transport_protoc.Prelude.Memory.{IsBytes}
use project_transport_protoc.Prelude.Run.{Run, ret}
use project_transport_protoc.Packet.Layout
use project_transport_protoc.Packet.Layout.{Pkt, ptype_data}
use project_transport_protoc.Packet.Codec.{Zlib}
use project_transport_protoc.Pktbuf.{Pktbuf, sub_u8, pktbuf_used, pktbuf_slotfor_seq}
use project_transport_protoc.Pktbuf.Inv.{capacity_pos, nth, slot}
use project_transport_protoc.Pktbuf.Reserve.{Extends}
use project_transport_protoc.Pktbuf.Slotfor.{slotfor_seq-Extends}
use project_transport_protoc.Net.{
  NetStatus, net_ok, net_error, net_drop, Received, failed, datagram, IsReceived, net_recv_pkt,
}
use project_transport_protoc.Net.Window.{recv_failed, recv-Accepted}
use project_transport_protoc.Receiver.{
  Receiver, window_size, process_incoming_pkt, after_recv, receive_into, do_receive_data,
}
use project_transport_protoc.Receiver.Inv.{IsReceiver, window_size-ones}
use project_transport_protoc.Receiver.Put.{put, put-IsRing}
use project_transport_protoc.Receiver.Holds.{
  Leaves, Stores, left-Leaves, restored, restored-nth, restored-IsNumbered,
}
use project_transport_protoc.Receiver.Store.Ahead.{process-cases}
use project_transport_protoc.Receiver.Bytes.{AllBytes, slotfor_seq-IsBytes}

Leaves-trans : {base : ℕ} {s t u : Receiver} → Leaves base s t → Leaves base t u → Leaves base s u
Leaves-trans l m = record {
  state = m.state;
  held = λ j pkt.
      let (to, back) = l.held j pkt in
      let (to', back') = m.held j pkt in (λ h. to' (to h), λ h. back (back' h));
  written = m.written ∙ l.written;
}

Leaves-Stores :
    {base g c : ℕ} {pkt : Pkt} {s t u : Receiver}
    → Leaves base s t
    → Stores base g c pkt t u
    → Stores base g c pkt s u
Leaves-Stores l m = record {
  state = m.state;
  here = m.here;
  others = λ j pkt' ne.
      let (to, back) = l.held j pkt' in
      let (to', back') = m.others j pkt' ne in (λ h. to' (to h), λ h. back (back' h));
  in_order = m.in_order;
  written = m.written ∙ l.written;
}

module _ (z : Zlib) where
  -- How `do_receive_data` ends, by what `net_recv_pkt` has answered.
  pub data Receipt (base : ℕ) (received : Received) (s : Receiver) : Run Receiver → Type 0 where
    broken :
        (junk p : Pkt) (s' : Receiver)
        → IsBytes junk
        → net_recv_pkt z junk received base s.max_window ≡ (net_error, p)
        → Leaves base s s'
        → Receipt base received s (ret true s')
    dropped :
        (junk p : Pkt) (s' : Receiver)
        → IsBytes junk
        → net_recv_pkt z junk received base s.max_window ≡ (net_drop, p)
        → Leaves base s s'
        → Receipt base received s (ret false s')
    other_type :
        (junk p : Pkt) (s' : Receiver)
        → IsBytes junk
        → net_recv_pkt z junk received base s.max_window ≡ (net_ok, p)
        → Layout.type p ≢ ptype_data
        → Leaves base s s'
        → Receipt base received s (ret false s')
    truncated :
        (junk p : Pkt) (s' : Receiver)
        → IsBytes junk
        → net_recv_pkt z junk received base s.max_window ≡ (net_ok, p)
        → 0 < Layout.tr p
        → Leaves base s s'
        → Receipt base received s (ret false s')
    stored :
        (junk p : Pkt) (c : ℕ) (s' : Receiver)
        → IsBytes junk
        → net_recv_pkt z junk received base s.max_window ≡ (net_ok, p)
        → Layout.type p ≡ ptype_data
        → Layout.tr p ≡ 0
        → Stores base (sub_u8 (Layout.seq p) base) c p s s'
        → Receipt base received s (ret false s')

  -- The window test keeps what is let through within the buffer.
  let_through :
      (junk p : Pkt) (received : Received) (base win : ℕ)
      → IsBytes junk
      → IsReceived received
      → net_recv_pkt z junk received base win ≡ (net_ok, p)
      → (Layout.seq p < 256) × (sub_u8 (Layout.seq p) base ≤ win)
  let_through junk p failed base win bytes good e = absurd (recv_failed z junk _ _ p e)
  let_through junk p (datagram wire rlen) base win bytes good e =
      let a = recv-Accepted z junk wire rlen base win p bytes good e in (a.seq_in, a.in_window)

  after-Leaves :
      {base : ℕ} {received : Received} {s t : Receiver} {r : Run Receiver}
      → Leaves base s t
      → t.max_window ≡ s.max_window
      → Receipt base received t r
      → Receipt base received s r
  after-Leaves l same (broken junk p s' bytes e x) =
      broken junk p s' bytes (rw (sym same) e) (Leaves-trans l x)
  after-Leaves l same (dropped junk p s' bytes e x) =
      dropped junk p s' bytes (rw (sym same) e) (Leaves-trans l x)
  after-Leaves l same (other_type junk p s' bytes e ne x) =
      other_type junk p s' bytes (rw (sym same) e) ne (Leaves-trans l x)
  after-Leaves l same (truncated junk p s' bytes e cut x) =
      truncated junk p s' bytes (rw (sym same) e) cut (Leaves-trans l x)
  after-Leaves l same (stored junk p c s' bytes e dat whole x) =
      stored junk p c s' bytes (rw (sym same) e) dat whole (Leaves-Stores l x)

  module _ {base : ℕ} {s : Receiver} (v : IsReceiver base 0 s) where
    -- The packet came into the first place, and its number is set back.
    restored-Leaves :
        (p : Pkt) → Leaves base s (record s { recv_buf = restored s.recv_buf p s.expected_seq })
    restored-Leaves p =
        let same : s.expected_seq ≡ base = v.expected ∙ omega (arith, v.base_in) in
        left-Leaves v _ (put-IsRing 0 _ (put-IsRing 0 p v.ring)) refl refl refl refl refl
          (omega arith)
          (rw same (restored-IsNumbered s.recv_buf p base v.ring v.base_in v.numbered))
          (λ j pos lt. restored-nth s.recv_buf p s.expected_seq j pos (omega (arith, v.ring.fits)))

    after_recv-Receipt :
        (junk : Pkt) (received : Received) (r : NetStatus × Pkt)
        → 0 < pktbuf_used s.recv_buf
        → IsBytes junk
        → IsReceived received
        → net_recv_pkt z junk received base s.max_window ≡ r
        → Receipt base received s (after_recv (slot s.recv_buf 0) r s)
    after_recv-Receipt junk received (net_error, p) some_used bytes good e =
        broken junk p _ bytes e (restored-Leaves p)
    after_recv-Receipt junk received (net_drop, p) some_used bytes good e =
        dropped junk p _ bytes e (restored-Leaves p)
    after_recv-Receipt junk received (net_ok, p) some_used bytes good e =
        elim (Bool-cases (Layout.type p == ptype_data)) [
          | inr other ↦ rw other (other_type junk p _ bytes e (ground arith) (restored-Leaves p))
          | inl dat ↦
              let (small, close) = let_through junk p received base s.max_window bytes good e in
              rw dat (
                by_cases junk p received bytes e ((==_iff _ _).0 dat)
                  (process-cases v p some_used small close))
        ]
      where
        by_cases :
            (junk p : Pkt) (received : Received)
            → IsBytes junk
            → net_recv_pkt z junk received base s.max_window ≡ (net_ok, p)
            → Layout.type p ≡ ptype_data
            → ((c : ℕ) × (s' : Receiver) × (process_incoming_pkt
                    (slot s.recv_buf 0)
                    (record s { recv_buf = put s.recv_buf 0 p })
                  ≡ ret false s')
                × ((Layout.tr p ≡ 0) × Stores base (sub_u8 (Layout.seq p) base) c p s s'
                    ⊎ (0 < Layout.tr p) × Leaves base s s'))
            → Receipt base received s (
                process_incoming_pkt
                  (slot s.recv_buf 0)
                  (record s { recv_buf = put s.recv_buf 0 p }))
        by_cases junk p received bytes e dat (c, s', run, inl (whole, x)) =
            rw run (stored junk p c s' bytes e dat whole x)
        by_cases junk p received bytes e dat (c, s', run, inr (cut, x)) =
            rw run (truncated junk p s' bytes e cut x)

  module _ {base : ℕ} {s : Receiver} (v : IsReceiver base 0 s) where
    extended-Leaves :
        (b : Pktbuf)
        → Extends s.recv_buf b base (max (pktbuf_used s.recv_buf) (sub_u8 base base + 1))
        → Leaves base s (record s { recv_buf = b })
    extended-Leaves b x =
        left-Leaves v (record s { recv_buf = b }) x.ring refl x.capacity refl refl refl
          (omega (arith, x.used)) x.numbered (λ j pos lt. x.kept j lt)

    -- When no packet in sequence waits to be written, `do_receive_data` returns with the invariant,
    -- whatever arrives. A whole data packet of the window is stored at the place of its number, and
    -- no other place changes what it holds; on every other datagram all places hold what they held.
    -- Only a failed read returns 1.
    pub do_receive_data-Receipt :
        (received : Received)
        → AllBytes s.recv_buf
        → IsReceived received
        → Receipt base received s (do_receive_data z received s)
    unfolding do_receive_data
    do_receive_data-Receipt received bytes good =
        let (b, e, x, _) =
          slotfor_seq-Extends s.recv_buf base base v.ring v.numbered v.base_in v.base_in (λ h. refl)
            (omega (arith, capacity_pos v.ring)) in
        let first_place : slot s.recv_buf (sub_u8 base base) ≡ slot b 0 =
          ap (slot s.recv_buf) (omega arith)
          ∙ ap₂ (λ f c. (f + 0) % c) (sym x.first) (sym x.capacity) in
        let found : pktbuf_slotfor_seq s.recv_buf base ≡ some (slot b 0, b) =
          e ∙ ap (λ i. some (i, b)) first_place in
        let extended = extended-Leaves b x in
        let window : window_size s % 256 ≡ s.max_window =
          ap (λ w. w % 256) (window_size-ones v (omega arith)) ∙ omega (arith, v.small, v.wide) in
        let same : s.expected_seq ≡ base = v.expected ∙ omega (arith, v.base_in) in
        let run : do_receive_data z received s
            ≡ after_recv (slot b 0) (net_recv_pkt z (nth b 0) received base s.max_window)
                (record s { recv_buf = b }) =
          ap (λ o. receive_into z o (window_size s) received s)
            (ap (pktbuf_slotfor_seq s.recv_buf) same ∙ found)
          ∙ ap₂
              (λ n w.
                after_recv (slot b 0) (net_recv_pkt z (nth b 0) received n w)
                  (record s { recv_buf = b }))
              same window in
        subst (Receipt base received s) (sym run) (
          after-Leaves extended refl (
            after_recv-Receipt extended.state (nth b 0) received _ (omega (arith, x.used))
              (slotfor_seq-IsBytes s.recv_buf b base _ bytes found (slot b 0)) good refl))
