-- ===== src/Sender/Rounds.antt =====
-- The rounds of `transmit`, from one answer of `poll` to the next: the invariant of the loop, and how a
-- round may end.
pub mod Ready
pub mod Timeout
pub mod Runs
pub mod Complete
pub mod Silence
mod Tests
use native.Mathlib.Decide.{dec_lt}
use project_transport_protoc.Prelude.{
  ℕ, zero, suc, ◌+◌, ◌%◌, ◌^◌, ◌<◌, ◌≤◌, ◌≡◌, ◌≢◌, refl, sym, ap, ◌∙◌, ◌⊎◌, inl, inr, Bool, true,
  false, not, ◌==◌, ◌&&◌, ltb, leb, if◌then◌else◌, List, [], ◌∷◌, Option, none, some, Bool-cases,
  ==_iff, arith,
}
use project_transport_protoc.Prelude.Memory.{Mem, IsBytes}
use project_transport_protoc.Prelude.Run.{Run, ret, exit_failure, undefined, out_of_fuel, and_then}
use project_transport_protoc.Packet.Layout.{Pkt}
use project_transport_protoc.Packet.Codec.{Zlib}
use project_transport_protoc.Pktbuf.{pktbuf_used, pktbuf_empty, pktbuf_full}
use project_transport_protoc.Net.{Link, Received, IsReceived}
use project_transport_protoc.Sender.{
  Sender, max_retransmission, handle_socket_read, handle_input_read, handle_retransmission,
  do_send_sbuf,
}
use project_transport_protoc.Sender.Inv.{IsSender, IsSender-others, flight}
use project_transport_protoc.Sender.Send.{Burst, Done, do_send_sbuf-Burst}
use project_transport_protoc.Sender.Resend.{Resent, retransmission-Resent, gives_up}
use project_transport_protoc.Sender.Resend.Endless.{retransmission-ne-ok}
use project_transport_protoc.Sender.Stream.{
  Streams, Streams-same, OneOf, burst-OneOf, Follows, AcksBelow,
}
use project_transport_protoc.Sender.Stream.Acks.{
  Keeps, kept, null_on_empty, handle_socket_read-Keeps,
}
use project_transport_protoc.Sender.Stream.Reads.{
  IsRead, stored-Streams, next_pkt, handle_input_read-stored,
}
use project_transport_protoc.Sender.Input.{stored}
use project_transport_protoc.Sender.Transmit.{
  Poll, error, timeout, ready, Loop, Transfer, running, completed, aborted, ended, is_zero, next,
  next_ready, handle_ready, round,
}

-- The descriptor of the file is polled only if a slot is free and the file's end was not read.
pub record IsLoop (z : Zlib) (file : ℕ → Mem × ℕ) (total : ℕ) (l : Loop) : Type 0 where
  pub stream : Streams z file total l.sender
  pub room : l.poll_file ≡ true → pktbuf_used l.sender.send_buf < l.sender.send_buf.capacity
  pub unread : l.poll_file ≡ true → l.sender.last_in_read ≢ some 0

-- What arrives is bytes, and a read that succeeds gives the file's next chunk.
abbrev pub IsSocket : Option Received → Type 0
IsSocket none = Unit {0}
IsSocket (some r) = IsReceived r

abbrev pub IsInput : (ℕ → Mem × ℕ) → ℕ → Option (Option (Mem × ℕ)) → Type 0
IsInput file total none = Unit {0}
IsInput file total (some none) = Unit {0}
IsInput file total (some (some chunk)) = (chunk ≡ file total) × IsRead chunk

abbrev pub Answers : (ℕ → Mem × ℕ) → ℕ → Poll → Type 0
Answers file total error = Unit {0}
Answers file total timeout = Unit {0}
Answers file total (ready socket input) = IsSocket socket × IsInput file total input

-- How many chunks are read after a round.
abbrev pub after_read : Option (Option (Mem × ℕ)) → ℕ → ℕ
after_read none total = total
after_read (some none) total = total
after_read (some (some chunk)) total = suc total

abbrev pub chunks_after : Poll → Bool → ℕ → ℕ
chunks_after error poll_file total = total
chunks_after timeout poll_file total = total
chunks_after (ready socket input) poll_file total =
    after_read (if poll_file then input else none) total

-- What the socket gives acknowledges no packet from number `top` on.
abbrev pub SocketBelow : Zlib → ℕ → ℕ → Option Received → ℕ → Type 0
SocketBelow z acked used none top = Unit {0}
SocketBelow z acked used (some r) top = AcksBelow z acked used top r

abbrev pub PollBelow : Zlib → ℕ → ℕ → Poll → ℕ → Type 0
PollBelow z acked used error top = Unit {0}
PollBelow z acked used timeout top = Unit {0}
PollBelow z acked used (ready socket input) top = SocketBelow z acked used socket top

-- How a round ends: the loop goes on, it has read the whole file and all of it is acknowledged, it
-- gives up, NULL is read with an empty buffer, or a timeout meets `last_sent` = 255.
pub data Outcome (z : Zlib) (file : ℕ → Mem × ℕ) (total : ℕ) (p : Poll) (l : Loop)
    (v : IsLoop z file total l) : Transfer → Type 0 where
  goes_on :
      (l' : Loop) (v' : IsLoop z file (chunks_after p l.poll_file total) l')
      → Follows (PollBelow z v.stream.acked (pktbuf_used l.sender.send_buf) p) v.stream v'.stream
      → Outcome z file total p l v (running l')
  finished :
      (n : ℕ) (s' : Sender) (h' : Streams z file (suc n) s')
      → suc n ≡ chunks_after p l.poll_file total
      → Follows (PollBelow z v.stream.acked (pktbuf_used l.sender.send_buf) p) v.stream h'
      → (file n).1 ≡ 0
      → pktbuf_used s'.send_buf ≡ 0
      → Outcome z file total p l v (completed s')
  gave_up : (s' : Sender) → Outcome z file total p l v (aborted s')
  null_read : pktbuf_used l.sender.send_buf ≡ 0 → Outcome z file total p l v (ended undefined)
  wrapped :
      (r : Run Sender)
      → p ≡ timeout
      → l.sender.last_sent ≡ 255
      → Outcome z file total p l v (ended r)

pub is_zero_lem : (r : Option ℕ) → is_zero r ≡ true → r ≡ some 0
is_zero_lem none e = cc
is_zero_lem (some n) e = ap some ((==_iff _ _).0 e)

pub not_zero : (r : Option ℕ) → not (is_zero r) ≡ true → r ≢ some 0
not_zero none e f = cc
not_zero (some n) e f = ground arith

pub and_left : (a b : Bool) → (a && b) ≡ true → a ≡ true
and_left true b e = refl
and_left false b e = e

pub and_right : (a b : Bool) → (a && b) ≡ true → b ≡ true
and_right true b e = e
and_right false b e = cc

some_inj : {a b : ℕ} → some a ≡ some b → a ≡ b
some_inj e = cc

module _ (z : Zlib) (file : ℕ → Mem × ℕ) where
  -- The loop is left at the file's end with an empty buffer.
  left-Outcome :
      (total total' : ℕ) (p : Poll) (l : Loop) (v : IsLoop z file total l) (s : Sender)
      → total' ≡ chunks_after p l.poll_file total
      → (h : Streams z file total' s)
      → Follows (PollBelow z v.stream.acked (pktbuf_used l.sender.send_buf) p) v.stream h
      → s.last_in_read ≡ some 0
      → pktbuf_used s.send_buf ≡ 0
      → Outcome z file total p l v (completed s)
  left-Outcome total zero p l v s e h f end empty = absurd (cc (h.fresh refl, end))
  left-Outcome total (suc n) p l v s e h f end empty =
      finished n s h e f (some_inj (sym (h.read n refl) ∙ end)) empty

  -- The loop's condition, on a handler that has returned 0.
  pub next-Outcome :
      (total : ℕ) (p : Poll) (l : Loop) (v : IsLoop z file total l) (poll_file : Bool) (s : Sender)
      (h : Streams z file (chunks_after p l.poll_file total) s)
      → Follows (PollBelow z v.stream.acked (pktbuf_used l.sender.send_buf) p) v.stream h
      → (poll_file ≡ true → pktbuf_used s.send_buf < s.send_buf.capacity)
      → (poll_file ≡ true → s.last_in_read ≢ some 0)
      → Outcome z file total p l v (next poll_file (ret false s))
  unfolding next
  next-Outcome total p l v poll_file s h f room unread =
      elim (Bool-cases (is_zero s.last_in_read && (s.send_buf.first == s.send_buf.last))) [
        | inl leave ↦ rw leave (
            left-Outcome total _ p l v s refl h f
              (is_zero_lem s.last_in_read
                (and_left (is_zero s.last_in_read) (s.send_buf.first == s.send_buf.last) leave))
              (ground (
                arith,
                and_right (is_zero s.last_in_read) (s.send_buf.first == s.send_buf.last) leave,
                h.state.ring,
              )))
        | inr stay ↦ rw stay (
            goes_on (record { sender = s; poll_file = poll_file })
              (record { stream = h; room = room; unread = unread }) f)
      ]
