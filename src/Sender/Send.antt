-- ===== src/Sender/Send.antt =====
-- `do_send_sbuf`: sending what the receiver's window allows.
use mathlib.Core.Path.{subst}
use project_transport_protoc.Prelude.{
  ℕ, zero, suc, ◌+◌, ◌<◌, ◌≤◌, ◌≡◌, refl, ap, ◌∙◌, ◌⊎◌, inl, inr, Bool, true, false, not, ◌&&◌,
  ◌==◌, arith, List, ◌∷◌, Bool-cases,
}
use project_transport_protoc.Packet.Layout.{Pkt}
use project_transport_protoc.Packet.Codec.{Zlib}
use project_transport_protoc.Pktbuf.{Pktbuf, sub_u8, pktbuf_used}
use project_transport_protoc.Pktbuf.Inv.{nth}
use project_transport_protoc.Pktbuf.Slotfor.{slotfor_seq-there}
use project_transport_protoc.Net.{Link, Datagram, pkt_len_serial, is_count, net_send}
use project_transport_protoc.Sender.{
  Sender, add_u8, send, send_seq, can_send, send_loop, do_send_sbuf,
}
use project_transport_protoc.Prelude.Run.{ret}
use project_transport_protoc.Sender.Inv.{IsSender, IsSender-others, flight}

-- A packet in network order as `net_send` hands it to `write`.
abbrev pub on_wire : Pkt → Datagram
on_wire pkt = record { pkt = pkt; plen = pkt_len_serial pkt }

-- The trace after the packets `i`, `i + 1`, ..., `i + n - 1` of the buffer were sent in this order.
abbrev pub burst : Pktbuf → ℕ → ℕ → List Datagram → List Datagram
burst b i zero sent = sent
burst b i (suc n) sent = burst b (i + 1) n (on_wire (nth b i) ∷ sent)

-- Whether the write of the packet behind these datagrams is not answered by its length.
abbrev pub refuses : Link → Pkt → List Datagram → Bool
refuses link pkt sent = not (is_count (link.write sent (on_wire pkt)) (pkt_len_serial pkt))

abbrev pub fails : Link → Pkt → Sender → Bool
fails link pkt s = refuses link pkt s.sent

-- How the writes of the packets `i`, ..., `i + k - 1` of the buffer are answered: all of them by their
-- lengths (`false`), or all but the last (`true`).
pub data Attempts (link : Link) (b : Pktbuf) : ℕ → ℕ → List Datagram → Bool → Type 0 where
  no_more : {i : ℕ} {sent : List Datagram} → Attempts link b i 0 sent false
  refused :
      {i : ℕ} {sent : List Datagram}
      → refuses link (nth b i) sent ≡ true
      → Attempts link b i 1 sent true
  in_full :
      {i k : ℕ} {sent : List Datagram} {bad : Bool}
      → refuses link (nth b i) sent ≡ false
      → Attempts link b (i + 1) k (on_wire (nth b i) ∷ sent) bad
      → Attempts link b i (suc k) sent bad

abbrev pub sending : Pkt → Sender → Sender
sending pkt s = record s { sent = on_wire pkt ∷ s.sent }

module _ (z : Zlib) (link : Link) where
  -- A packet that is sent is added to the trace, whatever the answer.
  pub send_lem :
      (pkt : Pkt) (s : Sender) → send z link pkt s ≡ ret (fails link pkt s) (sending pkt s)
  unfolding send net_send
  send_lem pkt s = ground arith

  pub send_seq_lem :
      (seqnum : ℕ) (s : Sender)
      → IsSender s
      → sub_u8 seqnum s.last_ack < pktbuf_used s.send_buf
      → let pkt = nth s.send_buf (sub_u8 seqnum s.last_ack) in
        send_seq z link seqnum s ≡ ret (fails link pkt s) (sending pkt s)
  unfolding send_seq
  send_seq_lem seqnum s v there =
      rw (slotfor_seq-there s.send_buf s.last_ack seqnum v.ring v.numbered v.ack_in there, send_seq)
        (send_lem (nth s.send_buf (sub_u8 seqnum s.last_ack)) s)

-- `s'` is `s` after the `k` packets behind those in flight were sent.
pub record Burst (k : ℕ) (s s' : Sender) : Type 0 where
  pub state : IsSender s'
  pub in_flight : flight s' ≡ flight s + k
  pub allowed : (k ≡ 0) ⊎ (flight s' ≤ s.last_win)
  pub send_buf : s'.send_buf ≡ s.send_buf
  pub last_ack : s'.last_ack ≡ s.last_ack
  pub last_win : s'.last_win ≡ s.last_win
  pub last_chunk_read : s'.last_chunk_read ≡ s.last_chunk_read
  pub last_in_read : s'.last_in_read ≡ s.last_in_read
  pub trace : s'.sent ≡ burst s.send_buf (flight s) k s.sent

-- Nothing more can be sent: all chunks are, or the window is used up.
abbrev pub Done : Sender → Type 0
Done s = (s.last_sent ≡ s.last_chunk_read) ⊎ (s.last_win ≤ flight s)

abbrev advance : Sender → Sender
advance s = record s { last_sent = add_u8 s.last_sent 1 }

module _ (z : Zlib) (link : Link) where
  advance-IsSender :
      (s : Sender)
      → IsSender s
      → flight s < pktbuf_used s.send_buf
      → IsSender (advance s) × (flight (advance s) ≡ flight s + 1)
  advance-IsSender s v more = (
    record {
      ring = v.ring;
      small = v.small;
      ack_in = v.ack_in;
      sent_in = omega arith;
      chunk_in = v.chunk_in;
      used = v.used;
      in_flight = omega (arith, v.ack_in, v.sent_in);
      numbered = v.numbered;
    },
    omega (arith, v.ack_in, v.sent_in, v.used),
  )

  pub sending-IsSender : (pkt : Pkt) {s : Sender} → IsSender s → IsSender (sending pkt s)
  sending-IsSender pkt {s} v =
      IsSender-others s.last_win s.dup_ack s.retry_count s.last_in_read (on_wire pkt ∷ s.sent) v

  -- The loop's test, read by the invariant.
  test_true :
      (s : Sender)
      → IsSender s
      → (not (s.last_sent == s.last_chunk_read) && can_send z link s) ≡ true
      → (flight s < pktbuf_used s.send_buf) × (flight s < s.last_win)
  unfolding can_send
  test_true s v h = ground (arith, v.used, v.in_flight, v.ack_in, v.sent_in, v.chunk_in)

  test_false :
      (s : Sender)
      → IsSender s
      → (not (s.last_sent == s.last_chunk_read) && can_send z link s) ≡ false
      → Done s
  unfolding can_send
  test_false s v h = ground (arith, v.used, v.in_flight, v.ack_in, v.sent_in, v.chunk_in)

  one_sent :
      (s : Sender)
      → IsSender s
      → flight s < pktbuf_used s.send_buf
      → let pkt = nth s.send_buf (flight s) in
        send_seq z link (add_u8 s.last_sent 1) (advance s)
        ≡ ret (fails link pkt s) (sending pkt (advance s))
  one_sent s v more =
      let (v', grown) = advance-IsSender s v more in
      let offset : sub_u8 (add_u8 s.last_sent 1) s.last_ack ≡ flight s = omega (arith, v.ack_in) in
      send_seq_lem z link (add_u8 s.last_sent 1) (advance s) v' (rw offset more)
      ∙ ap (λ j. ret (fails link (nth s.send_buf j) s) (sending (nth s.send_buf j) (advance s)))
          offset

  Burst-none : {s : Sender} → IsSender s → Burst 0 s s
  Burst-none v = record {
    state = v;
    in_flight = omega arith;
    allowed = inl refl;
    send_buf = refl;
    last_ack = refl;
    last_win = refl;
    last_chunk_read = refl;
    last_in_read = refl;
    trace = refl;
  }

  after_one : (s : Sender) → Sender
  after_one s = sending (nth s.send_buf (flight s)) (advance s)

  after_one-IsSender :
      (s : Sender)
      → IsSender s
      → flight s < pktbuf_used s.send_buf
      → IsSender (after_one s) × (flight (after_one s) ≡ flight s + 1)
  unfolding after_one
  after_one-IsSender s v more =
      let (v', grown) = advance-IsSender s v more in
      (sending-IsSender (nth s.send_buf (flight s)) v', grown)

  Burst-more :
      {k : ℕ} {s s' : Sender}
      → flight (after_one s) ≡ flight s + 1
      → flight s < s.last_win
      → Burst k (after_one s) s'
      → Burst (suc k) s s'
  unfolding after_one
  Burst-more {k} {s} {s'} grown room b = record {
    state = b.state;
    in_flight = omega (arith, b.in_flight);
    allowed = inr (ground (arith, b.in_flight, b.allowed));
    send_buf = b.send_buf;
    last_ack = b.last_ack;
    last_win = b.last_win;
    last_chunk_read = b.last_chunk_read;
    last_in_read = b.last_in_read;
    trace = b.trace ∙ ap (λ i. burst s.send_buf i k (after_one s).sent) grown;
  }

  -- One round of the loop: it stops, it fails to send, or it goes on.
  stopped :
      (fuel : ℕ) (s : Sender)
      → (not (s.last_sent == s.last_chunk_read) && can_send z link s) ≡ false
      → send_loop z link (suc fuel) s ≡ ret false s
  unfolding send_loop
  stopped fuel s stop = rw stop

  module _ (fuel : ℕ) (s : Sender) (v : IsSender s) (more : flight s < pktbuf_used s.send_buf)
      (go : (not (s.last_sent == s.last_chunk_read) && can_send z link s) ≡ true) where
    broke :
        fails link (nth s.send_buf (flight s)) s ≡ true
        → send_loop z link (suc fuel) s ≡ ret true (after_one s)
    unfolding send_loop after_one
    broke broken = rw (go, one_sent s v more, broken)

    went_on :
        fails link (nth s.send_buf (flight s)) s ≡ false
        → send_loop z link (suc fuel) s ≡ send_loop z link fuel (after_one s)
    unfolding send_loop after_one
    went_on written = rw (go, one_sent s v more, written)

  later :
      (s : Sender) {k : ℕ} {bad : Bool}
      → flight (after_one s) ≡ flight s + 1
      → Attempts link (after_one s).send_buf (flight (after_one s)) k (after_one s).sent bad
      → Attempts link s.send_buf (flight s + 1) k (on_wire (nth s.send_buf (flight s)) ∷ s.sent) bad
  unfolding after_one
  later s {k} {bad} grown a =
      subst (λ i. Attempts link s.send_buf i k (on_wire (nth s.send_buf (flight s)) ∷ s.sent) bad)
        grown a

  send_loop-Burst :
      (fuel : ℕ) (s : Sender)
      → IsSender s
      → pktbuf_used s.send_buf < flight s + fuel
      → (bad : Bool) × (k : ℕ) × (s' : Sender) × (send_loop z link fuel s ≡ ret bad s')
        × Burst k s s'
        × Attempts link s.send_buf (flight s) k s.sent bad
        × (bad ≡ false → Done s')
  send_loop-Burst zero s v enough = absurd (omega (arith, v.in_flight))
  send_loop-Burst (suc fuel) s v enough =
      elim (Bool-cases (not (s.last_sent == s.last_chunk_read) && can_send z link s)) [
        | inr stop ↦
            (false, 0, s, stopped fuel s stop, Burst-none v, no_more, λ e. test_false s v stop)
        | inl go ↦
            let (more, room) = test_true s v go in
            let (v', grown) = after_one-IsSender s v more in
            elim (Bool-cases (fails link (nth s.send_buf (flight s)) s)) [
              | inl broken ↦ (
                true,
                1,
                after_one s,
                broke fuel s v more go broken,
                Burst-more grown room (Burst-none v'),
                refused broken,
                λ e. cc,
              )
              | inr written ↦
                  let (bad, k, s', run, b, a, d) =
                    send_loop-Burst fuel (after_one s) v'
                      (unfold after_one in omega (arith, grown)) in
                  (
                    bad,
                    suc k,
                    s',
                    went_on fuel s v more go written ∙ run,
                    Burst-more grown room b,
                    in_full written (later s grown a),
                    d,
                  )
            ]
      ]

  -- With the invariant `do_send_sbuf` always returns. It sends the packets behind those in flight,
  -- each once and in order, never beyond the receiver's window, and changes no other variable. It
  -- returns 0 if every write is answered by the datagram's length, and then all chunks are sent or the
  -- window is used up; else the last write, and no other, was answered otherwise.
  pub do_send_sbuf-Burst :
      (s : Sender)
      → IsSender s
      → (bad : Bool) × (k : ℕ) × (s' : Sender) × (do_send_sbuf z link s ≡ ret bad s')
        × Burst k s s'
        × Attempts link s.send_buf (flight s) k s.sent bad
        × (bad ≡ false → Done s')
  unfolding do_send_sbuf
  do_send_sbuf-Burst s v = send_loop-Burst 256 s v (omega (arith, v.used))
