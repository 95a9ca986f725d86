-- ===== src/Sender/Transmit.antt =====
-- `transmit` of sender/transmit.c: the loop over `poll`.
use project_transport_protoc.Prelude.{
  ℕ, List, [], ◌∷◌, Bool, true, false, not, ◌==◌, ◌&&◌, if◌then◌else◌, Option, none, some,
}
use project_transport_protoc.Prelude.Memory.{Mem}
use project_transport_protoc.Packet.Layout.{Pkt}
use project_transport_protoc.Packet.Codec.{Zlib}
use project_transport_protoc.Pktbuf.{pktbuf_empty, pktbuf_full}
use project_transport_protoc.Net.{Received, Link}
use project_transport_protoc.Sender.{
  Sender, handle_socket_read, handle_input_read, handle_retransmission, do_send_sbuf,
}
use project_transport_protoc.Prelude.Run.{Run, ret, exit_failure, undefined, out_of_fuel, and_then}

-- What `poll` answers: -1, a timeout, or which of the descriptors that it was given are ready, with
-- what a read of each would give.
pub data Poll : Type 0 where
  error timeout : Poll
  ready : (socket : Option Received) (file : Option (Option (Mem × ℕ))) → Poll

-- Whether both descriptors are polled (`pfds_count` is 2), or the socket alone.
pub record Loop : Type 0 where
  pub sender : Sender
  pub poll_file : Bool

-- How the call stands: in the loop, returned 0 or -ECONNABORTED, or ended otherwise.
pub data Transfer : Type 0 where
  running : Loop → Transfer
  completed aborted : Sender → Transfer
  ended : Run Sender → Transfer

abbrev pub is_zero : Option ℕ → Bool
is_zero none = false
is_zero (some n) = n == 0

-- Lines 220 to 227, and the loop's condition in line 235.
unfoldable pub next : Bool → Run Sender → Transfer
next poll_file (ret true s) = aborted s
next poll_file (ret false s) =
    if is_zero s.last_in_read && pktbuf_empty s.send_buf
    then completed s
    else running (record { sender = s; poll_file = poll_file })
next poll_file exit_failure = ended exit_failure
next poll_file undefined = ended undefined
next poll_file out_of_fuel = ended out_of_fuel

-- The next round polls the file if its end was not read and the buffer has room.
abbrev pub next_ready : Run Sender → Transfer
next_ready (ret bad s) =
    next (not (is_zero s.last_in_read) && not (pktbuf_full s.send_buf)) (ret bad s)
next_ready r = next false r

-- Another round, unless the call has ended.
abbrev pub while_running : (Loop → Transfer) → Transfer → Transfer
while_running rounds (running l) = rounds l
while_running rounds (completed s) = completed s
while_running rounds (aborted s) = aborted s
while_running rounds (ended r) = ended r

module _ (z : Zlib) (link : Link) where
  -- Lines 207 to 218. A descriptor that is not polled is not ready.
  unfoldable pub handle_ready :
      Pkt → Option Received → Option (Option (Mem × ℕ)) → Sender → Run Sender
  handle_ready junk socket file s =
      and_then
        (and_then (elim socket [ none ↦ ret false s | some r ↦ handle_socket_read z link junk r s ])
          (λ s'. elim file [
            | none ↦ ret false s'
            | some input ↦ handle_input_read z link input s'
          ]))
        (λ s'. do_send_sbuf z link s')

  -- One round of the loop, with fuel for `handle_retransmission`.
  unfoldable pub round : ℕ → Pkt → Poll → Loop → Transfer
  round fuel junk error l = aborted l.sender
  round fuel junk timeout l =
      if pktbuf_empty l.sender.send_buf
      then next l.poll_file (ret false l.sender)
      else next l.poll_file (handle_retransmission z link fuel l.sender)
  round fuel junk (ready socket file) l =
      next_ready (handle_ready junk socket (if l.poll_file then file else none) l.sender)

  -- The rounds that the answers of `poll` drive.
  unfoldable pub transmit_from : ℕ → Pkt → List Poll → Loop → Transfer
  transmit_from fuel junk [] l = running l
  transmit_from fuel junk (p ∷ ps) l =
      while_running (λ l'. transmit_from fuel junk ps l') (round fuel junk p l)
