-- ===== src/Receiver/Loop.antt =====
-- `receive` of receiver/receive.c: the loop over `poll`, and the last acknowledgements.
use project_transport_protoc.Prelude.{
  ℕ, zero, suc, List, [], ◌∷◌, Bool, true, false, not, ◌==◌, ◌&&◌, ◌||◌, if◌then◌else◌, Option,
  none, some,
}
use project_transport_protoc.Prelude.Run.{Run, ret, out_of_fuel, and_then}
use project_transport_protoc.Packet.Codec.{Zlib}
use project_transport_protoc.Pktbuf.{Pktbuf, set_slot, pktbuf_empty, pktbuf_enqueue}
use project_transport_protoc.Net.{
  net_ok, net_error, net_drop, Connected, Received, Link, waiting, answered, net_wait_and_connect,
}
use project_transport_protoc.Receiver.{
  Receiver, initial, Output, can_empty_rbuf, process_incoming_pkt, do_read_sock, do_empty_rbuf,
  send_ack, send_nack,
}

abbrev pub max_linger_retry : ℕ
max_linger_retry = 5

-- What `poll` answers: -1, a timeout, or which of the descriptors that it was given are ready, with
-- what a read of the socket would give.
pub data Poll : Type 0 where
  error timeout : Poll
  ready : (socket : Option Received) (file : Bool) → Poll

-- Whether both descriptors are polled (`pfds_count` is 2), or the socket alone.
pub record Loop : Type 0 where
  pub receiver : Receiver
  pub poll_file : Bool

-- How the call stands: before the first packet, in the loop, behind it, returned -ECONNABORTED, or
-- ended otherwise.
pub data Transfer : Type 0 where
  connecting aborted : Transfer
  running : Loop → Transfer
  completed : Receiver → Transfer
  ended : Run Receiver → Transfer

-- The calls of `fcntl` in `unblock_out_file`; `none` is -1.
abbrev pub unblock_out_file : Option ℕ → Option ℕ → Bool
unblock_out_file (some flags) (some done) = false
unblock_out_file getfd setfd = true

-- Line 256: the first packet is processed whatever the call answers.
abbrev pub enter_loop : Run Receiver → Transfer
enter_loop (ret bad s) =
    running (record { receiver = record s { need_ack = true }; poll_file = true })
enter_loop r = ended r

-- Lines 253 to 262, on what `net_wait_and_connect` has answered.
abbrev pub after_connect : ℕ → ℕ → Pktbuf → Connected → Transfer
after_connect slot max_window buf waiting = connecting
after_connect slot max_window buf (answered net_ok pkt rest) =
    enter_loop (process_incoming_pkt slot (initial max_window (set_slot buf slot pkt)))
after_connect slot max_window buf (answered net_error pkt rest) = aborted
after_connect slot max_window buf (answered net_drop pkt rest) = aborted

-- Lines 240 to 262. `rs` is what `recvfrom` answers, and `connects` whether `connect` succeeds.
unfoldable pub start : Zlib → Option ℕ → Option ℕ → Bool → List Received → ℕ → Pktbuf → Transfer
start z getfd setfd connects rs max_window rbuf =
    let (slot, buf) = pktbuf_enqueue rbuf in
    if unblock_out_file getfd setfd
    then aborted
    else after_connect slot max_window buf (net_wait_and_connect z connects (buf.head slot) rs 0)

abbrev pub is_zero : Option ℕ → Bool
is_zero none = false
is_zero (some n) = n == 0

-- Lines 291 to 298 and 305 to 308.
abbrev pub next : Run Receiver → Transfer
next (ret true s) = aborted
next (ret false s) =
    let s' : Receiver = record s { need_ack = false; need_nack = false } in
    if not (is_zero s.last_written_len) || not (pktbuf_empty s.recv_buf)
    then running (record { receiver = s'; poll_file = can_empty_rbuf s })
    else completed s'
next r = ended r

module _ (z : Zlib) (link : Link) (out : Output) where
  -- Lines 270 to 276
  unfoldable pub read_ready : Option Received → Receiver → Run Receiver
  read_ready none s = ret false s
  read_ready (some received) s =
      and_then (do_read_sock z received s)
        (λ s'. ret false (if not s'.need_nack then record s' { need_ack = true } else s'))

  -- Lines 280 to 283
  unfoldable pub write_ready : Bool → Receiver → Run Receiver
  write_ready file s = if file || can_empty_rbuf s then do_empty_rbuf out s else ret false s

  -- Lines 285 to 289
  unfoldable pub answer : Receiver → Run Receiver
  answer s =
      and_then (if s.need_ack then send_ack z link s else ret false s)
        (λ s'. if s'.need_nack then send_nack z link s'.nack_seq s' else ret false s')

  -- One round of the loop. A descriptor that is not polled is not ready.
  unfoldable pub round : Poll → Loop → Transfer
  round error l = aborted
  round timeout l = aborted
  round (ready socket file) l = next (
      and_then (read_ready socket l.receiver)
        (λ s. and_then (write_ready (file && l.poll_file) s) answer))

  -- Lines 311 to 319. The first argument counts the retries that are left; the fuel is the list of
  -- the answers of `poll`.
  unfoldable pub linger : ℕ → List Poll → Receiver → Run Receiver
  linger left [] s = out_of_fuel
  linger left (timeout ∷ ps) s = ret false s
  linger zero (p ∷ ps) s = ret false s
  linger (suc left) (error ∷ ps) s = ret true s
  linger (suc left) (ready socket file ∷ ps) s =
      and_then (send_ack z link s) (λ s'. linger left ps s')

  -- The rounds that the answers of `poll` drive, up to the return of `receive`.
  unfoldable pub receive_from : List Poll → Loop → Transfer
  receive_from [] l = running l
  receive_from (p ∷ ps) l = elim (round p l) [
    | connecting ↦ connecting
    | aborted ↦ aborted
    | running l' ↦ receive_from ps l'
    | completed s ↦ ended (linger max_linger_retry ps s)
    | ended r ↦ ended r
  ]
