-- ===== src/Sender/Events.antt =====
-- `handle_socket_read` and `handle_input_read` keep the sender's invariant.
use project_transport_protoc.Prelude.{
  ℕ, ◌<◌, ◌≤◌, ◌≡◌, refl, ◌⊎◌, inl, inr, Bool, true, false, not, ◌&&◌, ◌==◌, arith, if◌then◌else◌,
  ==_iff, Bool-cases,
}
use project_transport_protoc.Prelude.Memory.{IsBytes}
use project_transport_protoc.Packet.Layout
use project_transport_protoc.Packet.Layout.{Pkt, ptype_ack, ptype_nack}
use project_transport_protoc.Packet.Codec.{Zlib}
use project_transport_protoc.Pktbuf.{sub_u8, pktbuf_used}
use project_transport_protoc.Pktbuf.Inv.{nth}
use project_transport_protoc.Net.{
  Link, Received, failed, datagram, IsReceived, NetStatus, net_ok, net_error, net_drop,
  net_recv_pkt,
}
use project_transport_protoc.Net.Window.{recv_failed, recv-Accepted}
use project_transport_protoc.Sender.{
  Sender, add_u8, max_dup_ack, send, process_nack, process_ack, process_dup_ack, handle_pkt,
  after_recv, handle_socket_read,
}
use project_transport_protoc.Prelude.Run.{Run, ret, undefined}
use project_transport_protoc.Sender.Inv.{IsSender, IsSender-others, flight}
use project_transport_protoc.Sender.Send.{fails, sending, send_lem, sending-IsSender}
use project_transport_protoc.Sender.Ack.{process_ack-Acked}
use project_transport_protoc.Sender.Nack.{process_nack-cases, dup_ack_third}

-- The call returns in a state of the sender, or reads NULL on an empty buffer.
pub data Safe (empty : Type 0) : Run Sender → Type 0 where
  returned : (bad : Bool) (s : Sender) → IsSender s → Safe empty (ret bad s)
  null_on_empty : empty → Safe empty undefined

-- A property of runs that holds for every way in which a datagram may be handled; `from` tells where
-- the number of an acknowledgement comes from.
pub record Handled (z : Zlib) (link : Link) (P : Run Sender → Type 0) (from : ℕ → Type 0)
    (s : Sender) : Type 0 where
  pub broken : P (ret true s)
  pub ignored : P (ret false s)
  pub nack : (nack win : ℕ) → P (process_nack z link nack (record s { last_win = win }))
  pub dup_ack : (ack win : ℕ) → P (process_dup_ack z link ack (record s { last_win = win }))
  pub ack :
      (ack win : ℕ)
      → ack < 256
      → sub_u8 ack s.last_ack ≤ flight s
      → from ack
      → P (process_ack z link ack (record s { last_win = win }))

module _ (z : Zlib) (link : Link) (P : Run Sender → Type 0) (from : ℕ → Type 0) where
  handle_pkt-Handled :
      (pkt : Pkt) (s : Sender)
      → Handled z link P from s
      → Layout.seq pkt < 256
      → sub_u8 (Layout.seq pkt) s.last_ack ≤ flight s
      → (Layout.type pkt ≡ ptype_ack → from (Layout.seq pkt))
      → P (handle_pkt z link pkt s)
  unfolding handle_pkt
  handle_pkt-Handled pkt s h small close known =
      elim (Bool-cases
        (not (Layout.type pkt == ptype_ack) && not (Layout.type pkt == ptype_nack))) [
          | inl other ↦ rw other h.ignored
          | inr expected ↦ elim (Bool-cases (Layout.type pkt == ptype_nack)) [
            | inl nack ↦ rw (expected, nack) (h.nack (Layout.seq pkt) (Layout.window pkt))
            | inr ack ↦ elim (Bool-cases (s.last_ack == Layout.seq pkt)) [
              | inl dup ↦ rw (expected, ack, dup) (h.dup_ack (Layout.seq pkt) (Layout.window pkt))
              | inr new ↦
                  rw (expected, ack, new)
                    (h.ack (Layout.seq pkt) (Layout.window pkt) small close
                      (known (ground (arith, expected, ack))))
            ]
          ]
        ]

  after_recv-Handled :
      (p : NetStatus × Pkt) (s : Sender)
      → Handled z link P from s
      → ((pkt : Pkt)
          → p ≡ (net_ok, pkt)
          → (Layout.seq pkt < 256)
            × (sub_u8 (Layout.seq pkt) s.last_ack ≤ flight s)
            × (Layout.type pkt ≡ ptype_ack → from (Layout.seq pkt)))
      → P (after_recv z link p s)
  unfolding after_recv
  after_recv-Handled (net_ok, pkt) s h good =
      let (small, close, known) = good pkt refl in handle_pkt-Handled pkt s h small close known
  after_recv-Handled (net_error, pkt) s h good = h.broken
  after_recv-Handled (net_drop, pkt) s h good = h.ignored

  -- A packet is let through only if it is in the window of the packets in flight.
  accepted_close :
      (junk : Pkt) (received : Received) (s : Sender) (pkt : Pkt)
      → IsSender s
      → IsBytes junk
      → IsReceived received
      → net_recv_pkt z junk received s.last_ack (add_u8 (sub_u8 s.last_sent s.last_ack) 1)
        ≡ (net_ok, pkt)
      → (Layout.seq pkt < 256) × (sub_u8 (Layout.seq pkt) s.last_ack ≤ flight s)
  accepted_close junk failed s pkt v old good h = absurd (recv_failed z junk _ _ pkt h)
  accepted_close junk (datagram wire rlen) s pkt v old good h =
      let a =
        recv-Accepted z junk wire rlen s.last_ack (add_u8 (sub_u8 s.last_sent s.last_ack) 1) pkt old
          good h in
      (a.seq_in, omega (arith, a.in_window, v.sent_in, v.ack_in))

  -- The sequence number of an acknowledgement that is processed is in flight or the next one.
  pub handle_socket_read-Handled :
      (junk : Pkt) (received : Received) (s : Sender)
      → IsSender s
      → IsBytes junk
      → IsReceived received
      → ((pkt : Pkt)
          → net_recv_pkt z junk received s.last_ack (add_u8 (sub_u8 s.last_sent s.last_ack) 1)
            ≡ (net_ok, pkt)
          → Layout.type pkt ≡ ptype_ack
          → from (Layout.seq pkt))
      → Handled z link P from (record s { retry_count = 0 })
      → P (handle_socket_read z link junk received s)
  unfolding handle_socket_read
  handle_socket_read-Handled junk received s v old good known h =
      after_recv-Handled _ (record s { retry_count = 0 }) h
        (λ pkt e.
          let (small, close) = accepted_close junk received s pkt v old good e in
          (small, close, known pkt e))

module _ (z : Zlib) (link : Link) where
  send-Safe : {E : Type 0} (pkt : Pkt) (s : Sender) → IsSender s → Safe E (send z link pkt s)
  send-Safe pkt s v =
      rw (send_lem z link pkt s) (returned _ (sending pkt s) (sending-IsSender z link pkt v))

  process_nack-Safe :
      {E : Type 0} (nack : ℕ) (s : Sender) → IsSender s → Safe E (process_nack z link nack s)
  process_nack-Safe nack s v = elim (process_nack-cases z link nack s v) [
    | inl e ↦ rw e (returned false s v)
    | inr (j, _, e) ↦ rw e (send-Safe (s.send_buf.head j) s v)
  ]

  process_ack-Safe :
      {E : Type 0} (ack : ℕ) (s : Sender)
      → IsSender s
      → ack < 256
      → sub_u8 ack s.last_ack ≤ flight s
      → Safe E (process_ack z link ack s)
  process_ack-Safe ack s v small le =
      let (s', run, a, _, _) = process_ack-Acked z link ack s v small le in
      rw run (returned false s' a.state)

  process_dup_ack-Safe :
      (ack : ℕ) (s : Sender)
      → IsSender s
      → Safe (pktbuf_used s.send_buf ≡ 0) (process_dup_ack z link ack s)
  unfolding process_dup_ack
  process_dup_ack-Safe ack s v = elim (Bool-cases (add_u8 s.dup_ack 1 == max_dup_ack)) [
    | inl third ↦
        rw (dup_ack_third z link ack s v ((==_iff _ _).0 third))
          (third_sent (Bool-cases (pktbuf_used s.send_buf == 0)))
    | inr few ↦ rw (few, process_dup_ack) (returned false _ (dup_set (add_u8 s.dup_ack 1)))
  ]
    where
      dup_set : (d : ℕ) → IsSender (record s { dup_ack = d })
      dup_set d = IsSender-others s.last_win d s.retry_count s.last_in_read s.sent v

      pkt : Pkt
      pkt = nth s.send_buf 0

      third_sent :
          (pktbuf_used s.send_buf == 0) ≡ true ⊎ (pktbuf_used s.send_buf == 0) ≡ false
          → Safe (pktbuf_used s.send_buf ≡ 0) (
              if pktbuf_used s.send_buf == 0
              then undefined
              else ret (fails link pkt s) (sending pkt (record s { dup_ack = 0 })))
      third_sent (inl none_left) = rw none_left (null_on_empty ((==_iff _ _).0 none_left))
      third_sent (inr left) = rw left (returned _ _ (sending-IsSender z link pkt (dup_set 0)))

  -- Whatever arrives on the socket, `handle_socket_read` returns in a state that meets the invariant,
  -- or reads through NULL with an empty buffer; it never exits and its loops always end.
  pub handle_socket_read-Safe :
      (junk : Pkt) (received : Received) (s : Sender)
      → IsSender s
      → IsBytes junk
      → IsReceived received
      → Safe (pktbuf_used s.send_buf ≡ 0) (handle_socket_read z link junk received s)
  handle_socket_read-Safe junk received s v old good =
      handle_socket_read-Handled z link (Safe (pktbuf_used s.send_buf ≡ 0)) (λ ack. Unit {0}) junk
        received s v old good (λ pkt e kind. tt)
        (record {
          broken = returned true _ (v' s.last_win);
          ignored = returned false _ (v' s.last_win);
          nack = λ nack win. process_nack-Safe nack _ (v' win);
          dup_ack = λ ack win. process_dup_ack-Safe ack _ (v' win);
          ack = λ ack win small le known. process_ack-Safe ack _ (v' win) small le;
        })
    where
      v' : (win : ℕ) → IsSender (record s { last_win = win; retry_count = 0 })
      v' win = IsSender-others win s.dup_ack 0 s.last_in_read s.sent v
