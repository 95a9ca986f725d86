-- ===== src/Receiver/Rounds/Finish.antt =====
-- How a round ends.
use project_transport_protoc.Receiver.Replies.{Replied}
use project_transport_protoc.Prelude.{
  ℕ, zero, suc, ◌+◌, ◌≤◌, ◌≡◌, ◌≢◌, refl, sym, ap, ◌∙◌, inl, inr, Bool, true, false, not, ◌&&◌,
  ◌||◌, List, Option, none, some, Bool-cases, ==_iff, arith, [],
}
use project_transport_protoc.Prelude.Memory.{Mem}
use project_transport_protoc.Prelude.Run.{Run, and_then}
use project_transport_protoc.Packet.Codec.{Zlib}
use project_transport_protoc.Pktbuf.{pktbuf_empty}
use project_transport_protoc.Net.{Link, Received, IsReceived}
use project_transport_protoc.Receiver.{Receiver, Output, would_block, rbuf_full}
use project_transport_protoc.Receiver.Deliver.{Delivers, IsGenuine, IsNext}
use project_transport_protoc.Receiver.Loop.{
  Poll, error, timeout, ready, Loop, completed, is_zero, next, round, write_ready, answer,
}
use project_transport_protoc.Receiver.Rounds.{
  Onward, failing, onward, Onward-and_then, Onward-map, Answers, Outcome, goes_on, finished,
  gave_up, others-Delivers,
}
use project_transport_protoc.Receiver.Rounds.Steps.{
  or_right, read_ready-Onward, write_ready-Onward, answer-Onward, Waits, read_next-Onward,
}

or_left : (a b : Bool) → (a || b) ≡ false → a ≡ false
or_left true b e = cc
or_left false b e = refl

undo_not : (a : Bool) → not a ≡ false → a ≡ true
undo_not true e = refl
undo_not false e = cc

last_zero : {r : Option ℕ} {k : ℕ} → r ≡ some k → is_zero r ≡ true → k ≡ 0
last_zero {r} {k} e z =
    let at : is_zero (some k) ≡ true = ap is_zero (sym e) ∙ z in (==_iff _ _).0 at

never_zero : {r : Option ℕ} → r ≡ none → is_zero r ≡ true → ⊥
never_zero e z = let at : false ≡ true = sym (ap is_zero e) ∙ z in cc

module _ (z : Zlib) (file : ℕ → Mem × ℕ) where
  -- At least `n` chunks are written, nothing waits, and what is sent since `s0` are replies.
  abbrev Goes : ℕ → Receiver → Receiver → Type 0
  Goes n s0 s = (n' : ℕ) × (n ≤ n') × (n' ≤ n + 32) × Delivers file n' 0 s × Replied z n' s0 s

  -- The loop is left at the file's end with an empty buffer.
  left-Outcome :
      (n n' : ℕ) (s0 s : Receiver)
      → n ≤ n'
      → n' ≤ n + 32
      → Delivers file n' 0 s
      → Replied z n' s0 s
      → is_zero s.last_written_len ≡ true
      → pktbuf_empty s.recv_buf ≡ true
      → Outcome z file n s0 (completed s)
  left-Outcome n zero s0 s le few d sent end empty = absurd (never_zero (d.fresh refl) end)
  left-Outcome n (suc i) s0 s le few d sent end empty =
      finished i s le few d sent (last_zero (d.last_len i refl) end)
        (ground (arith, empty, d.state.ring))

  next-Outcome :
      {n : ℕ} {s0 : Receiver} {r : Run Receiver}
      → Onward (Goes n s0) r
      → Outcome z file n s0 (next r)
  next-Outcome (failing s) = gave_up
  next-Outcome {n} {s0} (onward s (n', le, few, d, sent)) =
      let d' = others-Delivers false false s.ack_pkt s.nack_pkt s.sent d d.acks d.nacks in
      elim (Bool-cases (not (is_zero s.last_written_len) || not (pktbuf_empty s.recv_buf))) [
        | inl stay ↦ rw stay (goes_on n' _ le few d' sent)
        | inr leave ↦ rw leave (
            left-Outcome n n' s0 _ le few d' sent
              (undo_not (is_zero s.last_written_len)
                (or_left (not (is_zero s.last_written_len)) (not (pktbuf_empty s.recv_buf)) leave))
              (undo_not (pktbuf_empty s.recv_buf) (
                or_right (not (is_zero s.last_written_len)) (not (pktbuf_empty s.recv_buf)) leave)))
      ]

  module _ (link : Link) (out : Output) where
    -- What is read is written and answered.
    pub after_read-Outcome :
        (m n : ℕ) (s0 : Receiver) (writable : Bool) {r : Run Receiver}
        → n ≤ m
        → ((ws : List (List ℕ)) (bytes : List ℕ) → out.write ws bytes ≢ would_block)
        → Onward (Waits z file link out m n s0) r
        → Outcome z file m s0 (
            next
              (and_then r (λ s. and_then (write_ready z link out writable s) (answer z link out))))
    after_read-Outcome m n s0 writable le never read = next-Outcome (
        Onward-and_then _ read (λ s (c', most, few, d', quiet).
          Onward-and_then _ (write_ready-Onward z file link out writable never d')
            (λ s' (d'', quiet').
              let none_sent : Replied z (n + c') s0 s' =
                ([], ap (λ (a, b, sent). sent) (quiet' ∙ quiet), tt) in
              let near : n + c' ≤ m + 32 = omega (arith, few, le) in
              Onward-map (answer-Onward z file link out s0 (d'', none_sent))
                (λ s1 (d1, sent). (n + c', most, near, d1, sent)))))

    -- When `n` chunks are written and `c` packets in sequence wait, every round in which the output does
    -- not block, no datagram is read unless `c` is 0, and none is a whole data packet of the window with
    -- other data than its chunk's, gives up, or writes chunks from number `n` on, at most 32, each once
    -- and in order, and keeps the invariant; what it has sent are encoded packets without payload, of
    -- which an ACK has the number of the next chunk to be written. When it leaves the loop, the last
    -- chunk that it has written is empty and the buffer holds nothing.
    pub receive_round-Outcome :
        (n c : ℕ) (l : Loop) (p : Poll)
        → ((ws : List (List ℕ)) (bytes : List ℕ) → out.write ws bytes ≢ would_block)
        → Delivers file n c l.receiver
        → Answers z file n c p
        → Outcome z file n l.receiver (round z link out p l)
    unfolding round
    receive_round-Outcome n c l error never d good = gave_up
    receive_round-Outcome n c l timeout never d good = gave_up
    receive_round-Outcome n c l (ready socket input) never d good =
        after_read-Outcome n n l.receiver (input && l.poll_file) (omega arith) never
          (read_ready-Onward z file link out socket d good)

    -- When nothing waits and the buffer is not full, and the packet that comes next arrives, at least
    -- its chunk is written.
    pub next_round-Outcome :
        (n : ℕ) (l : Loop) (r : Received) (input : Bool)
        → ((ws : List (List ℕ)) (bytes : List ℕ) → out.write ws bytes ≢ would_block)
        → Delivers file n 0 l.receiver
        → rbuf_full l.receiver ≡ false
        → IsReceived r
        → IsGenuine z file n r
        → IsNext z n l.receiver.max_window r
        → Outcome z file (suc n) l.receiver (round z link out (ready (some r) input) l)
    unfolding round
    next_round-Outcome n l r input never d room wire good here =
        after_read-Outcome (suc n) n l.receiver (input && l.poll_file) (omega arith) never
          (read_next-Onward z file link out r d room wire good here)
