-- ===== src/Receiver/Empty/Loop.antt =====
-- The loop of `do_empty_rbuf`.
use project_transport_protoc.Prelude.{
  ℕ, zero, suc, ◌+◌, ◌%◌, ◌<◌, ◌≡◌, refl, ◌⊎◌, inl, inr, Bool, true, false, ◌==◌, some, Bool-cases,
  arith, ◌≢◌, take, ◌∷◌, ap, ◌∙◌,
}
use project_transport_protoc.Prelude.Memory.{take-slice}
use project_transport_protoc.Prelude.Run.{ret}
use project_transport_protoc.Packet.Layout
use project_transport_protoc.Packet.Layout.{Pkt, at_payload}
use project_transport_protoc.Pktbuf.Inv.{nth}
use project_transport_protoc.Receiver.{
  Receiver, Output, would_block, proceed, stop, write_chunk, empty_loop, do_empty_rbuf, broken,
  count,
}
use project_transport_protoc.Receiver.Inv.{IsReceiver}
use project_transport_protoc.Receiver.Empty.{
  payload, append, Emptied, Stops, Stops-more, all_written, blocked, write_failed, write_short,
  written_first, written_first-IsReceiver, mask_even, mask_odd, first_here, Written-cases,
  Emptied-none, Emptied-more,
}

-- How `write_chunk` goes: the packet is written, or the function returns.
abbrev Chunked : Output → Pkt → Receiver → Type 0
Chunked out pkt s =
    (write_chunk out pkt s
      ≡ proceed (record s {
        last_written_len = some (Layout.length pkt);
        written = append pkt s.written;
      }))
    ⊎ (write_chunk out pkt s
        ≡ stop false (record s { last_written_len = some (Layout.length pkt) }))
      × (0 < Layout.length pkt)
      × (out.write s.written (payload pkt) ≡ would_block)
    ⊎ (write_chunk out pkt s ≡ stop true (record s { last_written_len = some (Layout.length pkt) }))
      × (0 < Layout.length pkt)
      × (out.write s.written (payload pkt) ≡ broken)
    ⊎ ((n : ℕ) × (write_chunk out pkt s
          ≡ stop true (record s {
            last_written_len = some (Layout.length pkt);
            written = take n (payload pkt) ∷ s.written;
          }))
        × (0 < Layout.length pkt)
        × (out.write s.written (payload pkt) ≡ count n)
        × (n ≢ Layout.length pkt))

module _ (out : Output) where
  whole_payload :
      (pkt : Pkt) (n : ℕ) → (n == Layout.length pkt) ≡ true → take n (payload pkt) ≡ payload pkt
  whole_payload pkt n e =
      let all : n ≡ Layout.length pkt = ground (arith, e) in
      ap (λ m. take m (payload pkt)) all ∙ take-slice pkt at_payload (Layout.length pkt)

  write_chunk-Chunked : (pkt : Pkt) (s : Receiver) → Chunked out pkt s
  unfolding write_chunk
  write_chunk-Chunked pkt s = elim (Bool-cases (Layout.length pkt == 0)) [
    | inl empty ↦ inl (rw empty refl)
    | inr some_bytes ↦
        let pos : 0 < Layout.length pkt = ground (arith, some_bytes) in
        elim (Written-cases (out.write s.written (payload pkt))) [
          | inl w ↦ inr (inl (rw (some_bytes, w) refl, pos, w))
          | inr (inl w) ↦ inr (inr (inl (rw (some_bytes, w) refl, pos, w)))
          | inr (inr (n, w)) ↦ elim (Bool-cases (n == Layout.length pkt)) [
            | inl whole ↦ inl (rw (some_bytes, w, whole, whole_payload pkt n whole) refl)
            | inr cut ↦
                inr
                  (inr (inr (n, rw (some_bytes, w, cut) refl, pos, w, λ e. ground (arith, e, cut))))
          ]
        ]
  ]

  -- A round in which the loop ends.
  stopped :
      {base c : ℕ} (fuel : ℕ) (s s' : Receiver) (bad : Bool)
      → IsReceiver base (suc c) s
      → write_chunk out (nth s.recv_buf 0) s ≡ stop bad s'
      → empty_loop out (suc fuel) s ≡ ret bad s'
  unfolding empty_loop
  stopped fuel s s' bad v w =
      rw (mask_odd s.oos_mask (v.ones 0 (omega arith)), first_here s v, w) refl

  empty_loop-Emptied :
      (fuel base c : ℕ) (s : Receiver)
      → IsReceiver base c s
      → c < fuel
      → (bad : Bool) × (k : ℕ) × (s1 : Receiver) × (s' : Receiver) × (empty_loop out fuel s
          ≡ ret bad s')
        × Emptied base c k s s1
        × Stops out c k s1 bad s'
  unfolding empty_loop
  empty_loop-Emptied zero base c s v enough = absurd (omega arith)
  empty_loop-Emptied (suc fuel) base zero s v enough =
      (false, 0, s, s, rw (mask_even _ v.gap) refl, Emptied-none v, all_written refl)
  empty_loop-Emptied (suc fuel) base (suc c) s v enough =
      let pkt : Pkt = nth s.recv_buf 0 in
      elim (write_chunk-Chunked pkt s) [
        | inl w ↦
            let (bad, k, s1, s', run, e, why) =
              empty_loop-Emptied fuel ((base + 1) % 256) c (written_first s)
                (written_first-IsReceiver s v) (omega arith) in
            (
              bad,
              suc k,
              s1,
              s',
              rw (mask_odd s.oos_mask (v.ones 0 (omega arith)), first_here s v, w) run,
              Emptied-more v e,
              Stops-more why,
            )
        | inr (inl (w, pos, why)) ↦ (
          false,
          0,
          s,
          _,
          stopped fuel s _ false v w,
          Emptied-none v,
          blocked (omega arith) pos why,
        )
        | inr (inr (inl (w, pos, why))) ↦ (
          true,
          0,
          s,
          _,
          stopped fuel s _ true v w,
          Emptied-none v,
          write_failed (omega arith) pos why,
        )
        | inr (inr (inr (n, w, pos, why, ne))) ↦ (
          true,
          0,
          s,
          _,
          stopped fuel s _ true v w,
          Emptied-none v,
          write_short n (omega arith) pos why ne,
        )
      ]

  -- With the invariant `do_empty_rbuf` always returns. It writes the payloads of the packets in
  -- sequence from the first on, each once, whole and in order, frees their slots and keeps the others.
  -- It returns 0 exactly if all of them are written or the output would block at the next, and else the
  -- write of the next payload has failed or has accepted another number of bytes than its length: that
  -- packet stays in the buffer, and the bytes that were accepted are in the output.
  pub do_empty_rbuf-Emptied :
      (base c : ℕ) (s : Receiver)
      → IsReceiver base c s
      → (bad : Bool) × (k : ℕ) × (s1 : Receiver) × (s' : Receiver) × (do_empty_rbuf out s
          ≡ ret bad s')
        × Emptied base c k s s1
        × Stops out c k s1 bad s'
  unfolding do_empty_rbuf
  do_empty_rbuf-Emptied base c s v =
      empty_loop-Emptied 33 base c s v (omega (arith, v.held, v.small, v.ring.fits))
