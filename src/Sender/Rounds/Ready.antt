-- ===== src/Sender/Rounds/Ready.antt =====
-- A round in which a descriptor is ready.
use project_transport_protoc.Prelude.{
  ℕ, ◌+◌, ◌<◌, ◌≤◌, ◌≡◌, ◌≢◌, refl, sym, ap, ◌∙◌, ◌⊎◌, inl, inr, Bool, true, false, not, ◌&&◌,
  if◌then◌else◌, Option, none, some, Bool-cases, arith, All,
}
use project_transport_protoc.Prelude.Memory.{Mem, IsBytes}
use project_transport_protoc.Prelude.Run.{Run, ret, undefined, and_then}
use project_transport_protoc.Packet.Layout.{Pkt}
use project_transport_protoc.Packet.Codec.{Zlib}
use project_transport_protoc.Pktbuf.{pktbuf_used, pktbuf_full}
use project_transport_protoc.Net.{Link, Received}
use project_transport_protoc.Sender.{Sender, handle_socket_read, handle_input_read, do_send_sbuf}
use project_transport_protoc.Sender.Inv.{flight}
use project_transport_protoc.Sender.Send.{do_send_sbuf-Burst}
use project_transport_protoc.Sender.Stream.{
  Streams, Streams-same, burst-OneOf, Follows, Follows-refl, same-Follows, OneOf,
}
use project_transport_protoc.Sender.Stream.Acks.{
  Keeps, kept, null_on_empty, handle_socket_read-Keeps,
}
use project_transport_protoc.Sender.Stream.Reads.{
  IsRead, stored-Streams, handle_input_read-stored, stored-Follows,
}
use project_transport_protoc.Sender.Transmit.{Poll, Loop, is_zero, next, next_ready, handle_ready}
use project_transport_protoc.Sender.Rounds.{
  IsLoop, IsSocket, IsInput, after_read, chunks_after, Outcome, gave_up, null_read, not_zero,
  and_left, and_right, next-Outcome, SocketBelow, PollBelow,
}

-- How the handlers of one round end before the loop's condition is tested; `total` counts the
-- chunks that are read then.
pub data Got {z : Zlib} {file : ℕ → Mem × ℕ} {before : ℕ} {s : Sender} (may : ℕ → Type 0)
    (h : Streams z file before s) (total : ℕ) : Run Sender → Type 0 where
  got :
      (s' : Sender) (h' : Streams z file total s')
      → Follows may h h'
      → Got may h total (ret false s')
  failed : (s' : Sender) → Got may h total (ret true s')
  got_null : pktbuf_used s.send_buf ≡ 0 → Got may h total undefined

not_full :
    (s : Sender)
    → not (pktbuf_full s.send_buf) ≡ true
    → pktbuf_used s.send_buf < s.send_buf.capacity
not_full s e = ground arith

module _ (z : Zlib) (link : Link) (file : ℕ → Mem × ℕ) where
  do_send_sbuf-Streams :
      {may : ℕ → Type 0} {before : ℕ} {s0 : Sender} {h0 : Streams z file before s0} (total : ℕ)
      (s : Sender) (h : Streams z file total s)
      → Follows may h0 h
      → (bad : Bool) × (s' : Sender) × (do_send_sbuf z link s ≡ ret bad s')
        × (h' : Streams z file total s') × Follows may h0 h'
  do_send_sbuf-Streams total s h f =
      let (bad, k, s', run, b, _, _) = do_send_sbuf-Burst z link s h.state in
      let within : flight s + k ≤ pktbuf_used s.send_buf =
        omega (arith, b.in_flight, b.state.in_flight, ap pktbuf_used b.send_buf) in
      let sent : All (OneOf h.packets total) s'.sent =
        rw b.trace (burst-OneOf h (flight s) k within) in
      (
        bad,
        s',
        run,
        Streams-same s' h b.state b.send_buf b.last_ack b.last_in_read sent,
        same-Follows b.state b.send_buf b.last_ack b.last_in_read sent f,
      )

  -- Reading the next chunk.
  input-Got :
      {may : ℕ → Type 0} (total : ℕ) (s0 s : Sender) (input : Option (Option (Mem × ℕ)))
      (h0 : Streams z file total s0) (h : Streams z file total s)
      → Follows may h0 h
      → pktbuf_used s.send_buf < s.send_buf.capacity
      → s.last_in_read ≢ some 0
      → IsInput file total input
      → Got may h0
          (after_read input total)
          (elim input [ none ↦ ret false s | some i ↦ handle_input_read z link i s ])
  unfolding handle_input_read
  input-Got total s0 s none h0 h f room unread good = got s h f
  input-Got total s0 s (some none) h0 h f room unread good = failed _
  input-Got total s0 s (some (some chunk)) h0 h f room unread (e, good) =
      let good' : IsRead (file total) = rw e at good in
      rw (e, handle_input_read-stored z link file total h room unread good')
        (got _ (stored-Streams z link file total h room unread good')
          (stored-Follows z link file total h room unread good' f))

  after_input :
      {may : ℕ → Type 0} {before : ℕ} {s0 : Sender} {h0 : Streams z file before s0} (total : ℕ)
      {r : Run Sender}
      → Got may h0 total r
      → Got may h0 total (and_then r (λ s. do_send_sbuf z link s))
  after_input {may} {h0 = h0} total (got s h f) =
      let (bad, s', run, h', f') = do_send_sbuf-Streams total s h f in rw run (sent bad s' h' f')
    where
      sent :
          (bad : Bool) (s' : Sender) (h' : Streams z file total s')
          → Follows may h0 h'
          → Got may h0 total (ret bad s')
      sent true s' h' f' = failed s'
      sent false s' h' f' = got s' h' f'
  after_input total (failed s) = failed s
  after_input total (got_null e) = got_null e

  after_socket :
      {may : ℕ → Type 0} (total : ℕ) (s0 : Sender) (input : Option (Option (Mem × ℕ)))
      (h0 : Streams z file total s0) {r : Run Sender}
      → Keeps may h0 r
      → IsInput file total input
      → (input ≡ none)
        ⊎ ((pktbuf_used s0.send_buf < s0.send_buf.capacity) × (s0.last_in_read ≢ some 0))
      → Got may h0 (after_read input total) (
          and_then r
            (λ s. elim input [ none ↦ ret false s | some i ↦ handle_input_read z link i s ]))
  after_socket total s0 input h0 (kept true s h f le cap read) good polled = failed s
  after_socket total s0 input h0 (kept false s h f le cap read) good (inl e) = rw e (got s h f)
  after_socket total s0 input h0 (kept false s h f le cap read) good (inr (room, unread)) =
      input-Got total s0 s input h0 h f (omega (arith, cap)) (λ e. unread (sym read ∙ e)) good
  after_socket total s0 input h0 (null_on_empty e) good polled = got_null e

  socket-Keeps :
      (total : ℕ) (s : Sender) (junk : Pkt) (socket : Option Received) (h : Streams z file total s)
      → IsBytes junk
      → IsSocket socket
      → Keeps
          (SocketBelow z h.acked (pktbuf_used s.send_buf) socket)
          h
          (elim socket [ none ↦ ret false s | some r ↦ handle_socket_read z link junk r s ])
  socket-Keeps total s junk none h old good =
      kept false s h (Follows-refl h) (omega arith) refl refl
  socket-Keeps total s junk (some r) h old good =
      handle_socket_read-Keeps z link file total junk r s h old good

  pub handle_ready-Got :
      (total : ℕ) (l : Loop) (junk : Pkt) (socket : Option Received)
      (input : Option (Option (Mem × ℕ))) (v : IsLoop z file total l)
      → IsBytes junk
      → IsSocket socket
      → IsInput file total input
      → Got
          (SocketBelow z v.stream.acked (pktbuf_used l.sender.send_buf) socket)
          v.stream
          (after_read (if l.poll_file then input else none) total)
          (handle_ready z link junk socket (if l.poll_file then input else none) l.sender)
  unfolding handle_ready
  handle_ready-Got total l junk socket input h old good good' = elim (Bool-cases l.poll_file) [
    | inl polled ↦ rw polled (
        after_input (after_read input total) (
          after_socket total l.sender input h.stream
            (socket-Keeps total l.sender junk socket h.stream old good) good'
            (inr (h.room polled, h.unread polled))))
    | inr alone ↦ rw alone (
        after_input total (
          after_socket total l.sender none h.stream
            (socket-Keeps total l.sender junk socket h.stream old good) tt (inl refl)))
  ]

  pub ready-Outcome :
      (total : ℕ) (p : Poll) (l : Loop) (v : IsLoop z file total l) {r : Run Sender}
      → Got
          (PollBelow z v.stream.acked (pktbuf_used l.sender.send_buf) p)
          v.stream
          (chunks_after p l.poll_file total)
          r
      → Outcome z file total p l v (next_ready r)
  ready-Outcome total p l v (got s h f) =
      next-Outcome z file total p l v (not (is_zero s.last_in_read) && not (pktbuf_full s.send_buf))
        s h f
        (λ e.
          not_full s (and_right (not (is_zero s.last_in_read)) (not (pktbuf_full s.send_buf)) e))
        (λ e.
          not_zero s.last_in_read
            (and_left (not (is_zero s.last_in_read)) (not (pktbuf_full s.send_buf)) e))
  ready-Outcome total p l v (failed s) = unfold next in gave_up s
  ready-Outcome total p l v (got_null e) = unfold next in null_read e
