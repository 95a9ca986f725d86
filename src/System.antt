-- ===== src/System.antt =====
-- sender/transmit.c, the network and receiver/receive.c run together: the rounds of the two programs
-- in any order, and a network that keeps every datagram and delivers it as often as it likes.
pub mod Network
pub mod Inv
pub mod Sends
pub mod Receives
pub mod Safety
pub mod Progress
mod Tests
use project_transport_protoc.Prelude.{
  ℕ, zero, suc, ◌+◌, ◌-◌, ◌%◌, ◌^◌, ◌<◌, ◌≤◌, ◌≡◌, ◌≢◌, Bool, false, ltb, if◌then◌else◌, List, [],
  ◌∷◌, All, Option, none, some, length,
}
use project_transport_protoc.Prelude.Memory.{Mem, IsBytes}
use project_transport_protoc.Prelude.Run.{ret}
use project_transport_protoc.Packet.Layout
use project_transport_protoc.Packet.Layout.{Pkt, ptype_ack, ptype_data}
use project_transport_protoc.Packet.Codec.{Zlib}
use project_transport_protoc.Pktbuf.{Pktbuf, sub_u8}
use project_transport_protoc.Net.{
  net_ok, Link, Datagram, Received, IsReceived, datagram, net_recvfrom, pkt_len_serial,
}
use project_transport_protoc.Sender.Transmit
use project_transport_protoc.Sender.Rounds.{chunks_after, IsInput}
use project_transport_protoc.Sender.Rounds.Complete.{first_loop}
use project_transport_protoc.Receiver.{Receiver, Output, can_empty_rbuf, send_ack}
use project_transport_protoc.Receiver.Loop
use project_transport_protoc.Receiver.Rounds.First.{new_buffer}

-- The two calls, and the history of the run: how many chunks were read and the packets made from
-- them, how many were written, and every datagram that the receiver has sent with the number of
-- chunks written by then.
pub record System : Type 0 where
  pub sender : Transmit.Transfer
  pub receiver : Loop.Transfer
  pub total : ℕ
  pub packets : ℕ → Pkt
  pub written : ℕ
  pub replies : List (ℕ × Datagram)

-- The sender has a new buffer of `2 ^ k` slots, and the receiver waits for the first packet.
abbrev pub first_system : ℕ → System
first_system k = record {
  sender = Transmit.running (first_loop (2 ^ k));
  receiver = Loop.connecting;
  total = 0;
  packets = λ i j. 0;
  written = 0;
  replies = [];
}

-- The packet of a chunk that is read now stands in the slot of its number.
abbrev pub noted : ℕ → (ℕ → Pkt) → Pktbuf → ℕ → Pkt
noted total packets b i = if ltb i total then packets i else b.head (i % b.capacity)

abbrev pub note : ℕ → (ℕ → Pkt) → Transmit.Transfer → ℕ → Pkt
note total packets (Transmit.running l) = noted total packets l.sender.send_buf
note total packets (Transmit.completed s) = noted total packets s.send_buf
note total packets (Transmit.aborted s) = packets
note total packets (Transmit.ended r) = packets

-- The chunks written after a round: the number that is expected next tells.
abbrev pub progress : ℕ → Receiver → ℕ
progress n s = n + sub_u8 s.expected_seq (n % 256)

-- The first `k` datagrams of a trace, with the number `n`.
abbrev pub tag : ℕ → ℕ → List Datagram → List (ℕ × Datagram) → List (ℕ × Datagram)
tag n zero ds old = old
tag n (suc k) [] old = old
tag n (suc k) (d ∷ ds) old = (n, d) ∷ tag n k ds old

-- What `s'` has sent and `s` had not.
abbrev pub tell : ℕ → Receiver → Receiver → List (ℕ × Datagram) → List (ℕ × Datagram)
tell n s s' old = tag n (length s'.sent - length s.sent) s'.sent old

-- The history after the receiver has gone from `s` to `s'`.
abbrev pub moved : Loop.Transfer → Receiver → Receiver → System → System
moved t s s' sys = record sys {
  receiver = t;
  written = progress sys.written s';
  replies = tell (progress sys.written s') s s' sys.replies;
}

abbrev pub after_round : Receiver → Loop.Transfer → System → System
after_round s (Loop.running l) sys = moved (Loop.running l) s l.receiver sys
after_round s (Loop.completed s') sys = moved (Loop.completed s') s s' sys
after_round s t sys = record sys { receiver = t }

-- The call does not give up, and it does not end by an error.
abbrev pub SenderGoes : Transmit.Transfer → Type 0
SenderGoes (Transmit.running l) = Unit {0}
SenderGoes (Transmit.completed s) = Unit {0}
SenderGoes (Transmit.aborted s) = ⊥
SenderGoes (Transmit.ended r) = ⊥

abbrev pub ReceiverGoes : Loop.Transfer → Type 0
ReceiverGoes (Loop.running l) = Unit {0}
ReceiverGoes (Loop.completed s) = Unit {0}
ReceiverGoes t = ⊥

-- What the receiver has written, from its first packet on.
abbrev pub output_of : Loop.Transfer → Option (List (List ℕ))
output_of (Loop.running l) = some l.receiver.written
output_of (Loop.completed s) = some s.written
output_of t = none

pub data Among {A : Type 0} (x : A) : List A → Type 0 where
  at_head : {xs : List A} → Among x (x ∷ xs)
  behind : {y : A} {xs : List A} → Among x xs → Among x (y ∷ xs)

-- What the network may deliver to the sender: a datagram that the receiver has sent when it had
-- written `m` chunks, as long as the sender has not read chunk `m + 255`; or one that the decoder
-- drops or does not take for an acknowledgement.
pub data FromReceiver (z : Zlib) (total : ℕ) (replies : List (ℕ × Datagram))
    : Received → Type 0 where
  reply :
      (m : ℕ) (d : Datagram) (wire : Mem)
      → Among (m, d) replies
      → IsBytes wire
      → ((k : ℕ) → k < d.plen → wire k ≡ d.pkt k)
      → total ≤ m + 255
      → FromReceiver z total replies (datagram wire d.plen)
  no_reply :
      (r : Received)
      → IsReceived r
      → ((junk p : Pkt)
          → IsBytes junk
          → net_recvfrom z junk r ≡ (net_ok, p)
          → Layout.type p ≢ ptype_ack)
      → FromReceiver z total replies r

-- What it may deliver to the receiver: the packet of a chunk that the sender has read, as it was made,
-- as long as the receiver has not written 225 chunks or more beyond it; or a datagram that the decoder
-- drops, or takes for a data packet that was cut.
pub data FromSender (z : Zlib) (total : ℕ) (packets : ℕ → Pkt) (written : ℕ)
    : Received → Type 0 where
  whole :
      (i : ℕ) (wire : Mem)
      → i < total
      → IsBytes wire
      → ((k : ℕ) → k < pkt_len_serial (packets i) → wire k ≡ packets i k)
      → written ≤ i + 224
      → FromSender z total packets written (datagram wire (pkt_len_serial (packets i)))
  spoiled :
      (r : Received)
      → IsReceived r
      → ((junk p : Pkt)
          → IsBytes junk
          → net_recvfrom z junk r ≡ (net_ok, p)
          → (Layout.type p ≡ ptype_data) × (0 < Layout.tr p))
      → FromSender z total packets written r

module _ (z : Zlib) (file : ℕ → Mem × ℕ) where
  -- What `poll` may answer the sender: a read that succeeds gives the file's next chunk.
  abbrev pub SenderHears : System → Transmit.Poll → Type 0
  SenderHears sys Transmit.error = Unit {0}
  SenderHears sys Transmit.timeout = Unit {0}
  SenderHears sys (Transmit.ready none input) = IsInput file sys.total input
  SenderHears sys (Transmit.ready (some r) input) =
      FromReceiver z sys.total sys.replies r × IsInput file sys.total input

  -- And the receiver, which reads no datagram while a packet in sequence waits to be written.
  abbrev pub ReceiverHears : System → Receiver → Loop.Poll → Type 0
  ReceiverHears sys s Loop.error = Unit {0}
  ReceiverHears sys s Loop.timeout = Unit {0}
  ReceiverHears sys s (Loop.ready none input) = Unit {0}
  ReceiverHears sys s (Loop.ready (some r) input) =
      (can_empty_rbuf s ≡ false) × FromSender z sys.total sys.packets sys.written r

  module _ (slink rlink : Link) (out : Output) where
    -- One round of the sender, the start of the receiver, one of its rounds, or one of the
    -- acknowledgements after its loop, of which any number is allowed here.
    pub data Step (k max_window : ℕ) (sys : System) : System → Type 0 where
      sends :
          (junk : Pkt) (p : Transmit.Poll) (l : Transmit.Loop)
          → sys.sender ≡ Transmit.running l
          → IsBytes junk
          → SenderHears sys p
          → SenderGoes (Transmit.round z slink 257 junk p l)
          → Step k max_window sys (record sys {
            sender = Transmit.round z slink 257 junk p l;
            total = chunks_after p l.poll_file sys.total;
            packets = note sys.total sys.packets (Transmit.round z slink 257 junk p l);
          })
      starts :
          (getfd setfd : Option ℕ) (connects : Bool) (rs : List Received) (l : Loop.Loop)
          → sys.receiver ≡ Loop.connecting
          → All (FromSender z sys.total sys.packets 0) rs
          → Loop.start z getfd setfd connects rs max_window (new_buffer (2 ^ k)) ≡ Loop.running l
          → Step k max_window sys (record sys { receiver = Loop.running l })
      receives :
          (p : Loop.Poll) (l : Loop.Loop)
          → sys.receiver ≡ Loop.running l
          → ReceiverHears sys l.receiver p
          → ReceiverGoes (Loop.round z rlink out p l)
          → Step k max_window sys (after_round l.receiver (Loop.round z rlink out p l) sys)
      lingers :
          (s s' : Receiver)
          → sys.receiver ≡ Loop.completed s
          → send_ack z rlink s ≡ ret false s'
          → Step k max_window sys (moved (Loop.completed s') s s' sys)

    -- The states that steps lead to, from a send buffer of `2 ^ k` slots and a receive buffer of
    -- `2 ^ r`.
    pub data Reach (k r max_window : ℕ) : System → Type 0 where
      begin : Reach k r max_window (first_system k)
      later :
          {sys : System} (sys' : System)
          → Reach k r max_window sys
          → Step r max_window sys sys'
          → Reach k r max_window sys'
