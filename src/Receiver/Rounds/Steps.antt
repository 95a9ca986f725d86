-- ===== src/Receiver/Rounds/Steps.antt =====
-- Reading, writing and answering within a round.
use mathlib.Core.Path.{subst}
use project_transport_protoc.Packet.Layout.{Pkt}
use project_transport_protoc.Receiver.Replies.{
  answers, Replied, send-Replied, ack-IsTemplate, nack-IsTemplate, ack-IsReply, nack-IsReply,
}
use project_transport_protoc.Prelude.{
  ℕ, zero, suc, ◌+◌, ◌%◌, ◌≡◌, ◌≢◌, refl, inl, inr, Bool, true, false, not, ◌||◌, List, Option,
  none, some, Bool-cases, arith, ◌≤◌, ◌∙◌, if◌then◌else◌,
}
use project_transport_protoc.Prelude.Memory.{Mem}
use project_transport_protoc.Prelude.Run.{ret, Run, and_then}
use project_transport_protoc.Packet.Codec.{Zlib, pkt_encode_inline}
use project_transport_protoc.Net.{Link, Received, failed, datagram, IsReceived, net_send}
use project_transport_protoc.Receiver.{
  Receiver, Output, would_block, can_empty_rbuf, rbuf_full, do_read_sock, discard_incoming_data,
  send_ack, send_nack, fill_answer,
}
use project_transport_protoc.Receiver.Empty.{Emptied, Stops, all_written, blocked}
use project_transport_protoc.Receiver.Empty.Loop.{do_empty_rbuf-Emptied}
use project_transport_protoc.Receiver.Deliver.{Delivers, IsGenuine, emptied-Delivers, IsNext}
use project_transport_protoc.Receiver.Deliver.Arrivals.{receive-Delivers, next-Delivers}
use project_transport_protoc.Receiver.Loop.{read_ready, write_ready, answer}
use project_transport_protoc.Receiver.Rounds.{
  Onward, failing, onward, Onward-and_then, any-Onward, Onward-if, returned-Onward, IsSocket,
  others-Delivers,
}

pub or_right : (a b : Bool) → (a || b) ≡ false → b ≡ false
or_right true b e = cc
or_right false b e = e

-- With nothing in sequence there is nothing to write, and else the mask says so.
pub nothing_waits :
    {file : ℕ → Mem × ℕ} {n c : ℕ} {s : Receiver}
    → Delivers file n c s
    → can_empty_rbuf s ≡ false
    → c ≡ 0
nothing_waits {c = zero} d e = refl
nothing_waits {c = suc c} {s = s} d e = ground (arith, d.state.ones 0, d.state.held)

module _ (z : Zlib) (file : ℕ → Mem × ℕ) where
  module _ (link : Link) (out : Output) where
    discard-Onward :
        (P : Receiver → Type 0) (received : Received) (s : Receiver)
        → P s
        → Onward P (discard_incoming_data received s)
    discard-Onward P failed s p = failing s
    discard-Onward P (datagram wire rlen) s p = onward s p

    -- `n` chunks are written, some packets may wait, with those at least `m` in all, and nothing is
    -- answered since `s0`.
    abbrev pub Waits : ℕ → ℕ → Receiver → Receiver → Type 0
    Waits m n s0 s =
        (c : ℕ) × (m ≤ n + c) × (n + c ≤ n + 32) × Delivers file n c s × (answers s ≡ answers s0)

    abbrev pub Writes : ℕ → Receiver → Receiver → Type 0
    Writes n s0 s = Delivers file n 0 s × (answers s ≡ answers s0)

    abbrev pub Answered : ℕ → Receiver → Receiver → Type 0
    Answered n s0 s = Delivers file n 0 s × Replied z n s0 s

    waiting_few : {n c : ℕ} {s : Receiver} → Delivers file n c s → n + c ≤ n + 32
    waiting_few d = omega (arith, d.state.held, d.state.ring.fits, d.state.small)

    do_read_sock-Onward :
        {n : ℕ} {s : Receiver} (r : Received)
        → Delivers file n 0 s
        → IsReceived r
        → IsGenuine z file n r
        → Onward (Waits n n s) (do_read_sock z r s)
    unfolding do_read_sock
    do_read_sock-Onward {n} {s} r d wire good = elim (Bool-cases (rbuf_full s)) [
      | inl full ↦
          rw full (discard-Onward (Waits n n s) r s (0, omega arith, waiting_few d, d, refl))
      | inr room ↦ rw room (
          let (bad, c, s', e, d', quiet) = receive-Delivers z d r wire good in
          returned-Onward (Waits n n s) _ (bad, s', e, (c, omega arith, waiting_few d', d', quiet)))
    ]

    -- Lines 273 and 274
    noted-Onward :
        (m n : ℕ) (s0 : Receiver) {r : Run Receiver}
        → Onward (Waits m n s0) r
        → Onward (Waits m n s0) (
            and_then r
              (λ s'. ret false (if not s'.need_nack then record s' { need_ack = true } else s')))
    noted-Onward m n s0 waits =
        Onward-and_then {P = Waits m n s0} _ waits (λ s' (c', most, few, d', quiet).
          elim (Bool-cases (not s'.need_nack)) [
            | inl whole ↦ rw whole (
                onward _ (
                  c',
                  most,
                  few,
                  others-Delivers true s'.need_nack s'.ack_pkt s'.nack_pkt s'.sent d' d'.acks
                      d'.nacks,
                  quiet,
                ))
            | inr cut ↦ rw cut (onward s' (c', most, few, d', quiet))
          ])

    pub read_ready-Onward :
        {n c : ℕ} {s : Receiver} (socket : Option Received)
        → Delivers file n c s
        → IsSocket z file n c socket
        → Onward (Waits n n s) (read_ready z link out socket s)
    unfolding read_ready
    read_ready-Onward {n} {c} {s} none d good = onward s (c, omega arith, waiting_few d, d, refl)
    read_ready-Onward {n} {c} {s} (some r) d (at, wire, good) =
        noted-Onward n n s (do_read_sock-Onward r (subst (λ k. Delivers file n k s) at d) wire good)

    -- The packet that is waited for is read.
    pub read_next-Onward :
        {n : ℕ} {s : Receiver} (r : Received)
        → Delivers file n 0 s
        → rbuf_full s ≡ false
        → IsReceived r
        → IsGenuine z file n r
        → IsNext z n s.max_window r
        → Onward (Waits (suc n) n s) (read_ready z link out (some r) s)
    unfolding read_ready do_read_sock
    read_next-Onward {n} {s} r d room wire good here =
        let (c, s', e, some_wait, d', quiet) = next-Delivers z d r wire good here in
        noted-Onward (suc n) n s
          (rw (room, e) (onward s' (c, omega (arith, some_wait), waiting_few d', d', quiet)))

    pub write_ready-Onward :
        {n c : ℕ} {s : Receiver} (writable : Bool)
        → ((ws : List (List ℕ)) (bytes : List ℕ) → out.write ws bytes ≢ would_block)
        → Delivers file n c s
        → Onward (Writes (n + c) s) (write_ready z link out writable s)
    unfolding write_ready
    write_ready-Onward {n} {c} {s} writable never d =
        elim (Bool-cases (writable || can_empty_rbuf s)) [
          | inl go ↦
              let (bad, k, s1, s', run, e, why) = do_empty_rbuf-Emptied out (n % 256) c s d.state in
              rw (go, run) (by_result bad k s1 s' e why)
          | inr stay ↦
              let e : c ≡ 0 = nothing_waits d (or_right writable (can_empty_rbuf s) stay) in
              let at : n ≡ n + c = omega (arith, e) in
              rw stay (
                onward s (
                  subst (λ m. Delivers file m 0 s) at (subst (λ k. Delivers file n k s) e d),
                  refl,
                ))
        ]
      where
        by_result :
            (bad : Bool) (k : ℕ) (s1 s' : Receiver)
            → Emptied (n % 256) c k s s1
            → Stops out c k s1 bad s'
            → Onward (Writes (n + c) s) (ret bad s')
        by_result true k s1 s' e why = failing s'
        by_result false k s1 s' e (all_written all) =
            onward s'
              (emptied-Delivers d (subst (λ i. Emptied (n % 256) c i s s') all e), e.answers)
        by_result false k s1 s' e (blocked lt pos w) = absurd (never _ _ w)

    pub send_ack-Onward :
        {n : ℕ} (s0 : Receiver) {s : Receiver}
        → Answered n s0 s
        → Onward (Answered n s0) (send_ack z link s)
    unfolding send_ack
    send_ack-Onward {n} s0 {s} (d, sent) =
        let pkt : Pkt = pkt_encode_inline z (fill_answer s.ack_pkt s.expected_seq s) in
        let s' : Receiver = record s { ack_pkt = pkt; sent = (net_send link s.sent pkt).1 } in
        any-Onward (Answered n s0) _ s' (
          others-Delivers s.need_ack s.need_nack pkt s.nack_pkt (net_send link s.sent pkt).1 d
              (ack-IsTemplate z s s.expected_seq d.acks) d.nacks,
          send-Replied z n s0 s s' link pkt sent
              (ack-IsReply z s n d.acks (d.state.expected ∙ omega arith)) refl,
        )

    send_nack-Onward :
        {n : ℕ} (s0 : Receiver) {s : Receiver} (seq : ℕ)
        → Answered n s0 s
        → Onward (Answered n s0) (send_nack z link seq s)
    unfolding send_nack
    send_nack-Onward {n} s0 {s} seq (d, sent) =
        let pkt : Pkt = pkt_encode_inline z (fill_answer s.nack_pkt seq s) in
        let s' : Receiver = record s { nack_pkt = pkt; sent = (net_send link s.sent pkt).1 } in
        any-Onward (Answered n s0) _ s' (
          others-Delivers s.need_ack s.need_nack s.ack_pkt pkt (net_send link s.sent pkt).1 d d.acks
              (nack-IsTemplate z s seq d.nacks),
          send-Replied z n s0 s s' link pkt sent (nack-IsReply z s seq n d.nacks) refl,
        )

    pub answer-Onward :
        {n : ℕ} (s0 : Receiver) {s : Receiver}
        → Answered n s0 s
        → Onward (Answered n s0) (answer z link out s)
    unfolding answer
    answer-Onward {n} s0 {s} a =
        Onward-and_then {P = Answered n s0} _
          (Onward-if (Answered n s0) s.need_ack _ _ (send_ack-Onward s0 a) (onward s a))
          (λ s' a'.
            Onward-if (Answered n s0) s'.need_nack _ _ (send_nack-Onward s0 s'.nack_seq a')
              (onward s' a'))
