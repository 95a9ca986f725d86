-- ===== src/Receiver/Rounds.antt =====
-- The rounds of `receive`, from one answer of `poll` to the next: what may arrive, and how a round may
-- end.
pub mod Steps
pub mod Finish
pub mod Runs
pub mod First
pub mod Start
use mathlib.Core.Path.{subst}
use project_transport_protoc.Receiver.Replies.{Replied, IsTemplate}
use project_transport_protoc.Prelude.{
  ℕ, zero, suc, ◌+◌, ◌%◌, ◌<◌, ◌≤◌, ◌≡◌, ◌≢◌, refl, sym, ap, ◌∙◌, ◌⊎◌, inl, inr, Bool, true, false,
  not, ◌==◌, ◌&&◌, ◌||◌, ltb, leb, if◌then◌else◌, List, [], ◌∷◌, Option, none, some, Bool-cases,
  ==_iff, arith,
}
use project_transport_protoc.Prelude.Memory.{Mem, IsBytes}
use project_transport_protoc.Prelude.Run.{Run, ret, and_then}
use project_transport_protoc.Packet.Layout.{Pkt, ptype_ack, ptype_nack}
use project_transport_protoc.Packet.Codec.{Zlib}
use project_transport_protoc.Pktbuf.{pktbuf_used, pktbuf_empty}
use project_transport_protoc.Net.{Link, net_send, Datagram, Received, failed, datagram, IsReceived}
use project_transport_protoc.Receiver.{
  Receiver, Output, Written, would_block, can_empty_rbuf, rbuf_full, do_read_sock,
  discard_incoming_data, do_empty_rbuf, send_ack, send_nack,
}
use project_transport_protoc.Receiver.Inv.{IsReceiver}
use project_transport_protoc.Receiver.Empty.{Emptied}
use project_transport_protoc.Receiver.Empty.Loop.{do_empty_rbuf-Emptied}
use project_transport_protoc.Receiver.Deliver.{Delivers, IsGenuine, emptied-Delivers}
use project_transport_protoc.Receiver.Deliver.Arrivals.{receive-Delivers}
use project_transport_protoc.Receiver.Loop.{
  Poll, error, timeout, ready, Loop, Transfer, connecting, aborted, running, completed, ended,
  is_zero, next, read_ready, write_ready, answer, round,
}

-- The call returns, and if it returns 0 then in a state with `P`.
pub data Onward (P : Receiver → Type 0) : Run Receiver → Type 0 where
  failing : (s : Receiver) → Onward P (ret true s)
  onward : (s : Receiver) → P s → Onward P (ret false s)

pub Onward-and_then :
    {P Q : Receiver → Type 0} {r : Run Receiver} (f : Receiver → Run Receiver)
    → Onward P r
    → ((s : Receiver) → P s → Onward Q (f s))
    → Onward Q (and_then r f)
Onward-and_then f (failing s) each = failing s
Onward-and_then f (onward s p) each = each s p

pub Onward-map :
    {P Q : Receiver → Type 0} {r : Run Receiver}
    → Onward P r
    → ((s : Receiver) → P s → Q s)
    → Onward Q r
Onward-map (failing s) each = failing s
Onward-map (onward s p) each = onward s (each s p)

pub any-Onward : (P : Receiver → Type 0) (bad : Bool) (s : Receiver) → P s → Onward P (ret bad s)
any-Onward P true s p = failing s
any-Onward P false s p = onward s p

pub Onward-if :
    (P : Receiver → Type 0) (t : Bool) (a b : Run Receiver)
    → Onward P a
    → Onward P b
    → Onward P (if t then a else b)
Onward-if P true a b ha hb = ha
Onward-if P false a b ha hb = hb

pub returned-Onward :
    (P : Receiver → Type 0) (r : Run Receiver)
    → (bad : Bool) × (s' : Receiver) × (r ≡ ret bad s') × P s'
    → Onward P r
returned-Onward P r (true, s', e, p) = rw e (failing s')
returned-Onward P r (false, s', e, p) = rw e (onward s' p)

-- What is read from the socket when `n` chunks are written and `c` packets wait to be written:
-- nothing, or a datagram, but none while a packet waits.
abbrev pub IsSocket : Zlib → (ℕ → Mem × ℕ) → ℕ → ℕ → Option Received → Type 0
IsSocket z file n c none = Unit {0}
IsSocket z file n c (some r) = (c ≡ 0) × IsReceived r × IsGenuine z file n r

abbrev pub Answers : Zlib → (ℕ → Mem × ℕ) → ℕ → ℕ → Poll → Type 0
Answers z file n c error = Unit {0}
Answers z file n c timeout = Unit {0}
Answers z file n c (ready socket input) = IsSocket z file n c socket

-- How a round ends: the loop goes on with all packets in sequence written, the last chunk of the file
-- is written, or the call gives up. What it has sent are replies for the chunks written then.
pub data Outcome (z : Zlib) (file : ℕ → Mem × ℕ) (n : ℕ) (s : Receiver) : Transfer → Type 0 where
  goes_on :
      (n' : ℕ) (l' : Loop)
      → n ≤ n'
      → n' ≤ n + 32
      → Delivers file n' 0 l'.receiver
      → Replied z n' s l'.receiver
      → Outcome z file n s (running l')
  finished :
      (i : ℕ) (s' : Receiver)
      → n ≤ suc i
      → suc i ≤ n + 32
      → Delivers file (suc i) 0 s'
      → Replied z (suc i) s s'
      → (file i).1 ≡ 0
      → pktbuf_used s'.recv_buf ≡ 0
      → Outcome z file n s (completed s')
  gave_up : Outcome z file n s aborted

-- The other variables do not count.
pub others-Delivers :
    {file : ℕ → Mem × ℕ} {n c : ℕ} {s : Receiver} (ack nack : Bool) (ack_pkt nack_pkt : Pkt)
    (sent : List Datagram)
    → Delivers file n c s
    → IsTemplate ptype_ack ack_pkt
    → IsTemplate ptype_nack nack_pkt
    → Delivers file n c (record s {
      need_ack = ack;
      need_nack = nack;
      ack_pkt = ack_pkt;
      nack_pkt = nack_pkt;
      sent = sent;
    })
others-Delivers {n = n} {c = c} {s = s} ack nack ack_pkt nack_pkt sent d acks nacks = record {
  state = record {
    ring = d.state.ring;
    small = d.state.small;
    wide = d.state.wide;
    base_in = d.state.base_in;
    expected = d.state.expected;
    numbered = d.state.numbered;
    held = d.state.held;
    ones = d.state.ones;
    gap = d.state.gap;
    marks = d.state.marks;
  };
  bytes = d.bytes;
  holds = d.holds;
  written = d.written;
  carried = d.carried;
  fresh = d.fresh;
  last_len = d.last_len;
  acks = acks;
  nacks = nacks;
}
