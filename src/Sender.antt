-- ===== src/Sender.antt =====
-- sender/transmit.c: the sender's state and its handlers. A handler answers the new state and
-- whether the source's function returns a value other than 0.
pub mod Inv
pub mod Ack
pub mod Send
pub mod Resend
pub mod Nack
pub mod Events
pub mod Input
pub mod Stream
pub mod Transmit
pub mod Rounds
mod Tests
use project_transport_protoc.Prelude.{
  ℕ, zero, suc, ◌+◌, ◌-◌, ◌%◌, ◌^◌, ◌<◌, ◌≤◌, List, [], ◌∷◌, Bool, true, false, not, ◌==◌, ◌&&◌,
  ◌||◌, ltb, leb, if◌then◌else◌, Option, none, some,
}
use project_transport_protoc.Prelude.Memory.{Mem, copy}
use project_transport_protoc.Prelude.Run.{Run, ret, exit_failure, undefined, out_of_fuel, and_then}
use project_transport_protoc.Packet.Layout
use project_transport_protoc.Packet.Layout.{
  Pkt, ptype_data, ptype_ack, ptype_nack, pkt_timestamp, at_payload,
}
use project_transport_protoc.Packet.Codec.{Zlib, pkt_encode_inline}
use project_transport_protoc.Pktbuf.{
  Pktbuf, sub_u8, set_slot, pktbuf_empty, pktbuf_full, pktbuf_used, pktbuf_first, pktbuf_at,
  pktbuf_enqueue, pktbuf_dequeue, pktbuf_slotfor_seq,
}
use project_transport_protoc.Net.{
  NetStatus, net_ok, net_error, net_drop, Received, Datagram, Link, net_send, net_recv_pkt,
}

abbrev pub max_dup_ack : ℕ
max_dup_ack = 3

abbrev pub max_retransmission : ℕ
max_retransmission = 5

-- The file's static variables, with the trace of the socket. `none` is -1 in `last_in_read`.
pub record Sender : Type 0 where
  pub send_buf : Pktbuf
  pub last_ack : ℕ
  pub last_win : ℕ
  pub last_sent : ℕ
  pub last_chunk_read : ℕ
  pub dup_ack : ℕ
  pub retry_count : ℕ
  pub last_in_read : Option ℕ
  pub sent : List Datagram

abbrev pub initial : Pktbuf → Sender
initial buffer = record {
  send_buf = buffer;
  last_ack = 0;
  last_win = 1;
  last_sent = 255;
  last_chunk_read = 255;
  dup_ack = 0;
  retry_count = 0;
  last_in_read = none;
  sent = [];
}

-- `uint8_t` addition
abbrev pub add_u8 : ℕ → ℕ → ℕ
add_u8 a b = (a + b) % 256

module _ (z : Zlib) (link : Link) where
  -- `return net_send(pkt) != NET_OK`
  unfoldable pub send : Pkt → Sender → Run Sender
  send pkt s =
      let (status, sent) = net_send link s.sent pkt in
      ret (elim status [ net_ok ↦ false | _ ↦ true ]) (record s { sent = sent })

  -- Lines 36 to 40; the first argument counts the rounds that are left.
  unfoldable pub nack_loop : ℕ → ℕ → ℕ → Sender → Run Sender
  nack_loop zero i nack s = ret false s
  nack_loop (suc rounds) i nack s = elim (pktbuf_at s.send_buf i) [
    | none ↦ exit_failure
    | some slot ↦
        let rest = nack_loop rounds (i + 1) nack s in
        if Layout.seq (s.send_buf.head slot) == nack then send (s.send_buf.head slot) s else rest
  ]

  unfoldable pub process_nack : ℕ → Sender → Run Sender
  process_nack nack s = nack_loop (pktbuf_used s.send_buf) 0 nack s

  -- Lines 50 to 54, on fuel: a `uint8_t` comes round in 256 steps.
  unfoldable pub ack_loop : ℕ → ℕ → Sender → Run Sender
  ack_loop zero ack s = out_of_fuel
  ack_loop (suc fuel) ack s =
      let rest =
        ack_loop fuel ack
          (record s { send_buf = (pktbuf_dequeue s.send_buf).1; last_ack = add_u8 s.last_ack 1 }) in
      if s.last_ack == ack then ret false (record s { dup_ack = 0 }) else rest

  unfoldable pub process_ack : ℕ → Sender → Run Sender
  process_ack ack s = ack_loop 256 ack s

  unfoldable pub process_dup_ack : ℕ → Sender → Run Sender
  process_dup_ack ack s =
      let count = add_u8 s.dup_ack 1 in
      if count == max_dup_ack
      then elim (pktbuf_first s.send_buf) [
        | none ↦ undefined
        | some slot ↦ send (s.send_buf.head slot) (record s { dup_ack = 0 })
      ]
      else ret false (record s { dup_ack = count })

  -- Lines 88 to 107, on a packet that was received in the window.
  unfoldable pub handle_pkt : Pkt → Sender → Run Sender
  handle_pkt pkt s =
      let s' : Sender = record s { last_win = Layout.window pkt } in
      if not (Layout.type pkt == ptype_ack) && not (Layout.type pkt == ptype_nack)
      then ret false s
      else if Layout.type pkt == ptype_nack
      then process_nack (Layout.seq pkt) s'
      else if s.last_ack == Layout.seq pkt
      then process_dup_ack (Layout.seq pkt) s'
      else process_ack (Layout.seq pkt) s'

  -- Lines 84 to 86, and what follows.
  unfoldable pub after_recv : NetStatus × Pkt → Sender → Run Sender
  after_recv (net_ok, pkt) s = handle_pkt pkt s
  after_recv (net_error, pkt) s = ret true s
  after_recv (net_drop, pkt) s = ret false s

  -- `junk` is what the local `pkt` holds before `recvfrom`.
  unfoldable pub handle_socket_read : Pkt → Received → Sender → Run Sender
  handle_socket_read junk received s =
      let s' : Sender = record s { retry_count = 0 } in
      let win = add_u8 (sub_u8 s.last_sent s.last_ack) 1 in
      after_recv (net_recv_pkt z junk received s.last_ack win) s'

  -- Lines 117 to 128: the packet for `chunk`, which `read` has stored `len` bytes of.
  unfoldable pub fill_header : Pkt → ℕ → Pkt
  fill_header pkt seq =
      Layout.set_ts (Layout.set_seq (Layout.set_window (Layout.set_type pkt ptype_data) 0) seq)
        pkt_timestamp

  unfoldable pub fill_chunk : Pkt → Mem → ℕ → Pkt
  fill_chunk pkt chunk len =
      pkt_encode_inline z (Layout.set_length (copy pkt at_payload chunk 0 len) len)

  -- What `read` answers on the input: -1, or a number of bytes and these bytes.
  unfoldable pub handle_input_read : Option (Mem × ℕ) → Sender → Run Sender
  handle_input_read input s =
      let seq = add_u8 s.last_chunk_read 1 in
      let (slot, buf) = pktbuf_enqueue s.send_buf in
      let pkt = fill_header (buf.head slot) seq in
      elim input [
        | none ↦ ret true (record s {
          send_buf = set_slot buf slot pkt;
          last_chunk_read = seq;
          last_in_read = none;
        })
        | some (chunk, len) ↦ ret false (record s {
          send_buf = set_slot buf slot (fill_chunk pkt chunk len);
          last_chunk_read = seq;
          last_in_read = some len;
        })
      ]

  -- Lines 145 to 148 and 175 to 177: one packet is found and sent.
  unfoldable pub send_seq : ℕ → Sender → Run Sender
  send_seq seq s = elim (pktbuf_slotfor_seq s.send_buf seq) [
    | none ↦ exit_failure
    | some (slot, buf) ↦ send (buf.head slot) (record s { send_buf = buf })
  ]

  -- Lines 144 to 149, on fuel. The test compares the `uint8_t` with an `int`: it is never 256.
  unfoldable pub resend_loop : ℕ → ℕ → Sender → Run Sender
  resend_loop zero sseq s = out_of_fuel
  resend_loop (suc fuel) sseq s =
      if sseq == s.last_sent + 1
      then ret false (record s { dup_ack = 0 })
      else and_then (send_seq sseq s) (λ s'. resend_loop fuel (add_u8 sseq 1) s')

  unfoldable pub handle_retransmission : ℕ → Sender → Run Sender
  handle_retransmission fuel s =
      let s' : Sender = record s { retry_count = s.retry_count + 1 } in
      if ltb max_retransmission s'.retry_count then ret true s' else resend_loop fuel s.last_ack s'

  unfoldable pub can_send : Sender → Bool
  can_send s = not (pktbuf_empty s.send_buf) && ltb (sub_u8 (s.last_sent + 1) s.last_ack) s.last_win

  -- On fuel: `last_sent` comes round to `last_chunk_read` in 256 steps.
  unfoldable pub send_loop : ℕ → Sender → Run Sender
  send_loop zero s = out_of_fuel
  send_loop (suc fuel) s =
      if not (s.last_sent == s.last_chunk_read) && can_send s
      then and_then
          (send_seq (add_u8 s.last_sent 1) (record s { last_sent = add_u8 s.last_sent 1 }))
          (λ s'. send_loop fuel s')
      else ret false s

  unfoldable pub do_send_sbuf : Sender → Run Sender
  do_send_sbuf s = send_loop 256 s
