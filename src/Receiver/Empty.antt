-- ===== src/Receiver/Empty.antt =====
-- `do_empty_rbuf`: the packets in sequence are written in order.
pub mod Loop
use project_transport_protoc.Prelude.{
  ℕ, zero, suc, ◌+◌, ◌%◌, ◌<◌, ◌≡◌, refl, ap, ◌∙◌, ◌⊎◌, inl, inr, Bool, true, false, ◌==◌,
  if◌then◌else◌, List, ◌∷◌, Option, some, Bool-cases, fun_ext, arith, ◌≢◌, take,
}
use project_transport_protoc.Prelude.Memory.{slice}
use project_transport_protoc.Prelude.Bits.{bit}
use project_transport_protoc.Prelude.Run.{ret}
use project_transport_protoc.Packet.Layout
use project_transport_protoc.Packet.Layout.{Pkt, at_payload}
use project_transport_protoc.Pktbuf.{pktbuf_used, pktbuf_first, pktbuf_dequeue}
use project_transport_protoc.Pktbuf.Inv.{nth, slot}
use project_transport_protoc.Pktbuf.Queue.{first-slot, dequeue-IsRing, dequeue-nth, dequeue-used}
use project_transport_protoc.Receiver.{
  Receiver, Output, Written, would_block, broken, count, proceed, stop, write_chunk, drop_first,
  empty_loop, do_empty_rbuf,
}
use project_transport_protoc.Receiver.Replies
use project_transport_protoc.Receiver.Inv.{IsReceiver}
use project_transport_protoc.Sender.Inv.{capacity-dequeue, dequeue_keeps}

abbrev pub payload : Pkt → List ℕ
payload pkt = slice pkt at_payload (Layout.length pkt)

-- The trace after `pkt` was written; there is no write of an empty payload.
abbrev pub append : Pkt → List (List ℕ) → List (List ℕ)
append pkt ws = if Layout.length pkt == 0 then ws else payload pkt ∷ ws

-- The trace after the first `k` packets of a sequence were written.
abbrev pub chunks : (ℕ → Pkt) → ℕ → List (List ℕ) → List (List ℕ)
chunks pkts zero ws = ws
chunks pkts (suc k) ws = chunks (λ j. pkts (suc j)) k (append (pkts 0) ws)

-- `s'` is `s` after its first `k` packets were written.
pub record Emptied (base c k : ℕ) (s s' : Receiver) : Type 0 where
  pub next : ℕ
  pub left : ℕ
  pub state : IsReceiver next left s'
  pub next_base : next ≡ (base + k) % 256
  pub count : k + left ≡ c
  pub used : pktbuf_used s.recv_buf ≡ k + pktbuf_used s'.recv_buf
  pub kept : (j : ℕ) → nth s'.recv_buf j ≡ nth s.recv_buf (k + j)
  pub expected_seq : s'.expected_seq ≡ s.expected_seq
  pub marks : (j : ℕ) → bit j s'.oos_mask ≡ bit (k + j) s.oos_mask
  pub head : s'.recv_buf.head ≡ s.recv_buf.head
  -- If the loop stops at a gap, `last_written_len` is the length of the last packet.
  pub same_len : left ≡ 0 → k ≡ 0 → s'.last_written_len ≡ s.last_written_len
  pub last_len :
      left ≡ 0 → (i : ℕ) → k ≡ suc i → s'.last_written_len ≡ some (Layout.length (nth s.recv_buf i))
  pub written : s'.written ≡ chunks (nth s.recv_buf) k s.written
  pub answers : Replies.answers s' ≡ Replies.answers s

-- How the call ends after `k` packets were written: `s` is the state then, `s'` the one it returns with.
pub data Stops (out : Output) (c k : ℕ) (s : Receiver) : Bool → Receiver → Type 0 where
  all_written : k ≡ c → Stops out c k s false s
  blocked :
      k < c
      → 0 < Layout.length (nth s.recv_buf 0)
      → out.write s.written (payload (nth s.recv_buf 0)) ≡ would_block
      → Stops out c k s false
          (record s { last_written_len = some (Layout.length (nth s.recv_buf 0)) })
  write_failed :
      k < c
      → 0 < Layout.length (nth s.recv_buf 0)
      → out.write s.written (payload (nth s.recv_buf 0)) ≡ broken
      → Stops out c k s true
          (record s { last_written_len = some (Layout.length (nth s.recv_buf 0)) })
  -- A part of the next payload is written.
  write_short :
      (n : ℕ)
      → k < c
      → 0 < Layout.length (nth s.recv_buf 0)
      → out.write s.written (payload (nth s.recv_buf 0)) ≡ count n
      → n ≢ Layout.length (nth s.recv_buf 0)
      → Stops out c k s true (record s {
        last_written_len = some (Layout.length (nth s.recv_buf 0));
        written = take n (payload (nth s.recv_buf 0)) ∷ s.written;
      })

Stops-more :
    {out : Output} {c k : ℕ} {s s' : Receiver} {bad : Bool}
    → Stops out c k s bad s'
    → Stops out (suc c) (suc k) s bad s'
Stops-more (all_written e) = all_written (ap suc e)
Stops-more (blocked lt pos w) = blocked (omega arith) pos w
Stops-more (write_failed lt pos w) = write_failed (omega arith) pos w
Stops-more (write_short n lt pos w ne) = write_short n (omega arith) pos w ne

-- The state after line 205, with the first packet written.
abbrev written_first : Receiver → Receiver
written_first s = drop_first (record s {
  last_written_len = some (Layout.length (nth s.recv_buf 0));
  written = append (nth s.recv_buf 0) s.written;
})

written_first-IsReceiver :
    {base c : ℕ} (s : Receiver)
    → IsReceiver base (suc c) s
    → IsReceiver ((base + 1) % 256) c (written_first s)
written_first-IsReceiver {base} {c} s v = record {
  ring = dequeue-IsRing v.ring left;
  small = rw capacity-dequeue v.small;
  wide = rw capacity-dequeue v.wide;
  base_in = omega arith;
  expected = omega (arith, v.expected);
  numbered = λ j h.
      ap Layout.seq (dequeue-nth j v.ring)
      ∙ v.numbered (suc j) (omega (arith, one_less))
      ∙ omega arith;
  held = omega (arith, one_less, v.held);
  ones = λ j h. v.ones (suc j) (omega arith);
  gap = v.gap;
  marks = λ j h. v.marks (suc j) (omega (arith, one_less));
}
  where
    left : 0 < pktbuf_used s.recv_buf
    left = omega (arith, v.held)

    one_less : pktbuf_used s.recv_buf ≡ suc (pktbuf_used (pktbuf_dequeue s.recv_buf).1)
    one_less = dequeue-used v.ring left

written_first-nth :
    {base c : ℕ} (s : Receiver)
    → IsReceiver base (suc c) s
    → nth (written_first s).recv_buf ≡ (λ j. nth s.recv_buf (suc j))
written_first-nth s v = fun_ext (λ j. dequeue-nth j v.ring)

mask_even : (m : ℕ) → m % 2 ≡ 0 → (m % 2 == 1) ≡ false
mask_even m h = ground arith

mask_odd : (m : ℕ) → m % 2 ≡ 1 → (m % 2 == 1) ≡ true
mask_odd m h = ground arith

pub first_here :
    {base c : ℕ} (s : Receiver)
    → IsReceiver base (suc c) s
    → pktbuf_first s.recv_buf ≡ some (slot s.recv_buf 0)
first_here s v =
    let some_left : (pktbuf_used s.recv_buf == 0) ≡ false = ground (arith, v.held) in
    first-slot v.ring ∙ rw some_left refl

Written-cases : (w : Written) → (w ≡ would_block) ⊎ (w ≡ broken) ⊎ ((n : ℕ) × (w ≡ count n))
Written-cases would_block = inl refl
Written-cases broken = inr (inl refl)
Written-cases (count n) = inr (inr (n, refl))

-- No packet is written.
Emptied-none : {base c : ℕ} {s : Receiver} → IsReceiver base c s → Emptied base c 0 s s
Emptied-none {base} {c} {s} v = record {
  next = base;
  left = c;
  state = v;
  next_base = omega (arith, v.base_in);
  count = omega arith;
  used = omega arith;
  kept = λ j. ap (nth s.recv_buf) (omega arith);
  expected_seq = refl;
  marks = λ j. ap (λ i. bit i s.oos_mask) {x = j} {y = 0 + j} (omega arith);
  head = refl;
  same_len = λ l e. refl;
  last_len = λ l i e. absurd (omega arith);
  written = refl;
  answers = refl;
}

more_last :
    {base c k : ℕ} {s s' : Receiver}
    → IsReceiver base (suc c) s
    → (e : Emptied ((base + 1) % 256) c k (written_first s) s') → e.left ≡ 0
    → (i : ℕ) → k ≡ i
    → s'.last_written_len ≡ some (Layout.length (nth s.recv_buf i))
more_last v e l zero f = e.same_len l f
more_last {s = s} v e l (suc m) f =
    e.last_len l m f ∙ ap (λ pkts. some (Layout.length (pkts m))) (written_first-nth s v)

-- The first packet is written, and then others.
Emptied-more :
    {base c k : ℕ} {s s' : Receiver}
    → IsReceiver base (suc c) s
    → Emptied ((base + 1) % 256) c k (written_first s) s'
    → Emptied base (suc c) (suc k) s s'
Emptied-more {base} {c} {k} {s} {s'} v e = record {
  next = e.next;
  left = e.left;
  state = e.state;
  next_base = e.next_base ∙ omega arith;
  count = omega (arith, e.count);
  used = omega (arith, e.used, dequeue-used v.ring (omega (arith, v.held)));
  kept = λ j. e.kept j ∙ dequeue-nth (k + j) v.ring ∙ ap (nth s.recv_buf) (omega arith);
  expected_seq = e.expected_seq;
  marks = λ j.
      e.marks j
      ∙ ap (λ i. bit i s.oos_mask) (let more : suc (k + j) ≡ suc k + j = omega arith in more);
  head = e.head ∙ (dequeue_keeps s.recv_buf).0;
  same_len = λ l f. absurd (omega arith);
  last_len = λ l i f. more_last v e l i (omega arith);
  written =
      e.written
      ∙ ap (λ f. chunks f k (append (nth s.recv_buf 0) s.written)) (written_first-nth s v);
  answers = e.answers;
}
