-- ===== src/Sender/Nack.antt =====
-- `process_nack` and `process_dup_ack`: retransmission of a single packet.
use native.Mathlib.Nat.{mod-eq_of_lt, mod-add-mod}
use project_transport_protoc.Prelude.{
  ℕ, zero, suc, ◌+◌, ◌%◌, ◌<◌, ◌≤◌, ◌≡◌, ◌≢◌, refl, sym, ap, ◌∙◌, true, false, ◌==◌, some, arith,
  if◌then◌else◌, ==_iff, Bool-cases, ◌⊎◌, inl, inr,
}
use project_transport_protoc.Packet.Layout
use project_transport_protoc.Packet.Codec.{Zlib}
use project_transport_protoc.Pktbuf.{Pktbuf, sub_u8, pktbuf_used, pktbuf_at, mask_index}
use project_transport_protoc.Pktbuf.Inv.{IsRing, mask_index-mod, nth, slot}
use project_transport_protoc.Pktbuf.Queue.{first-slot}
use project_transport_protoc.Net.{Link}
use project_transport_protoc.Sender.{
  Sender, add_u8, max_dup_ack, send, nack_loop, process_nack, process_dup_ack,
}
use project_transport_protoc.Prelude.Run.{ret, undefined}
use project_transport_protoc.Sender.Inv.{IsSender}
use project_transport_protoc.Sender.Send.{fails, sending, send_lem}

-- `pktbuf_at` takes the number of a slot of the array, and accepts it if it is less than the number
-- of used slots.
at-slot : (b : Pktbuf) (i : ℕ) → IsRing b → i < pktbuf_used b → pktbuf_at b i ≡ some i
unfolding pktbuf_at
at-slot b i v h =
    let same : mask_index i b ≡ i = mask_index-mod v i ∙ mod-eq_of_lt (omega (arith, v.fits)) in
    ground (arith, same)

module _ (z : Zlib) (link : Link) where
  skipped :
      (rounds i nack : ℕ) (s : Sender)
      → IsSender s
      → i < pktbuf_used s.send_buf
      → (Layout.seq (s.send_buf.head i) == nack) ≡ false
      → nack_loop z link (suc rounds) i nack s ≡ nack_loop z link rounds (i + 1) nack s
  unfolding nack_loop
  skipped rounds i nack s v h ne = rw (at-slot s.send_buf i v.ring h, nack_loop, ne)

  hit :
      (rounds i nack : ℕ) (s : Sender)
      → IsSender s
      → i < pktbuf_used s.send_buf
      → (Layout.seq (s.send_buf.head i) == nack) ≡ true
      → nack_loop z link (suc rounds) i nack s ≡ send z link (s.send_buf.head i) s
  unfolding nack_loop
  hit rounds i nack s v h e = rw (at-slot s.send_buf i v.ring h, nack_loop, e)

  none_hit :
      (rounds i nack : ℕ) (s : Sender)
      → IsSender s
      → i + rounds ≤ pktbuf_used s.send_buf
      → ((j : ℕ) → j < pktbuf_used s.send_buf → Layout.seq (s.send_buf.head j) ≢ nack)
      → nack_loop z link rounds i nack s ≡ ret false s
  none_hit zero i nack s v h ne = unfold nack_loop in refl
  none_hit (suc rounds) i nack s v h ne =
      skipped rounds i nack s v (omega arith) (ground (arith, ne i (omega arith)))
      ∙ none_hit rounds (i + 1) nack s v (omega arith) ne

  -- Whatever it finds, it sends one packet at most.
  nack_loop-cases :
      (rounds i nack : ℕ) (s : Sender)
      → IsSender s
      → i + rounds ≤ pktbuf_used s.send_buf
      → (nack_loop z link rounds i nack s ≡ ret false s)
        ⊎ ((j : ℕ) × (j < pktbuf_used s.send_buf)
            × (nack_loop z link rounds i nack s ≡ send z link (s.send_buf.head j) s))
  nack_loop-cases zero i nack s v h = inl (unfold nack_loop in refl)
  nack_loop-cases (suc rounds) i nack s v h =
      elim (Bool-cases (Layout.seq (s.send_buf.head i) == nack)) [
        | inl e ↦ inr (i, omega arith, hit rounds i nack s v (omega arith) e)
        | inr ne ↦
            let step = skipped rounds i nack s v (omega arith) ne in
            elim (nack_loop-cases rounds (i + 1) nack s v (omega arith)) [
              | inl none_found ↦ inl (step ∙ none_found)
              | inr (j, lt, found) ↦ inr (j, lt, step ∙ found)
            ]
      ]

  pub process_nack-cases :
      (nack : ℕ) (s : Sender)
      → IsSender s
      → (process_nack z link nack s ≡ ret false s)
        ⊎ ((j : ℕ) × (j < pktbuf_used s.send_buf)
            × (process_nack z link nack s ≡ send z link (s.send_buf.head j) s))
  unfolding process_nack
  process_nack-cases nack s v = nack_loop-cases (pktbuf_used s.send_buf) 0 nack s v (omega arith)

  -- A NACK for a packet that is in the buffer is ignored, and nothing is sent, whenever none of the
  -- first slots of the array, as many as are used, has its number: the loop looks at the slots from
  -- 0 on and not at those from `first` on.
  pub nack_ignored :
      (nack : ℕ) (s : Sender)
      → IsSender s
      → sub_u8 nack s.last_ack < pktbuf_used s.send_buf
      → ((j : ℕ) → j < pktbuf_used s.send_buf → Layout.seq (s.send_buf.head j) ≢ nack)
      → process_nack z link nack s ≡ ret false s
  unfolding process_nack
  nack_ignored nack s v there ne = none_hit (pktbuf_used s.send_buf) 0 nack s v (omega arith) ne

  -- Where the oldest packet lies in slot 0, a place is a slot.
  aligned_slot : (b : Pktbuf) (j : ℕ) → b.first % b.capacity ≡ 0 → j < b.capacity → slot b j ≡ j
  aligned_slot b j zero_first h =
      sym (mod-add-mod b.first b.capacity j)
      ∙ ap (λ r. (r + j) % b.capacity) zero_first
      ∙ mod-eq_of_lt {n = 0 + j} {m = b.capacity} (omega arith)
      ∙ omega arith

  aligned_seq :
      (j : ℕ) (s : Sender)
      → IsSender s
      → s.send_buf.first % s.send_buf.capacity ≡ 0
      → j < pktbuf_used s.send_buf
      → Layout.seq (s.send_buf.head j) ≡ (s.last_ack + j) % 256
  aligned_seq j s v zero_first h =
      ap (λ i. Layout.seq (s.send_buf.head i))
        (sym (aligned_slot s.send_buf j zero_first (omega (arith, v.ring.fits))))
      ∙ v.numbered j h

  aligned_hit :
      (k rounds i nack : ℕ) (s : Sender)
      → IsSender s
      → s.send_buf.first % s.send_buf.capacity ≡ 0
      → nack < 256
      → sub_u8 nack s.last_ack ≡ i + k
      → k < rounds
      → i + rounds ≡ pktbuf_used s.send_buf
      → nack_loop z link rounds i nack s ≡ send z link (s.send_buf.head (i + k)) s
  aligned_hit k zero i nack s v zero_first small e lt all = absurd (omega arith)
  aligned_hit zero (suc rounds) i nack s v zero_first small e lt all =
      hit rounds i nack s v (omega arith) (ground (arith, aligned_seq i s v zero_first, v.ack_in))
      ∙ ap (λ j. send z link (s.send_buf.head j) s) (omega arith)
  aligned_hit (suc k) (suc rounds) i nack s v zero_first small e lt all =
      skipped rounds i nack s v (omega arith)
        (ground (arith, aligned_seq i s v zero_first, v.ack_in, v.used))
      ∙ aligned_hit k rounds (i + 1) nack s v zero_first small (omega arith) (omega arith)
          (omega arith)
      ∙ ap (λ j. send z link (s.send_buf.head j) s) (omega arith)

  -- When the oldest packet lies in slot 0 of the array, a NACK for a packet that is in the buffer,
  -- sent before or not, sends exactly that packet again.
  pub nack_resent :
      (nack : ℕ) (s : Sender)
      → IsSender s
      → s.send_buf.first % s.send_buf.capacity ≡ 0
      → nack < 256
      → sub_u8 nack s.last_ack < pktbuf_used s.send_buf
      → let pkt = nth s.send_buf (sub_u8 nack s.last_ack) in
        (process_nack z link nack s ≡ ret (fails link pkt s) (sending pkt s))
        × (Layout.seq pkt ≡ nack)
  unfolding process_nack
  nack_resent nack s v zero_first small there =
      let k : ℕ = sub_u8 nack s.last_ack in
      (
        aligned_hit k (pktbuf_used s.send_buf) 0 nack s v zero_first small (omega arith) there
              (omega arith)
            ∙ ap (λ j. send z link (s.send_buf.head j) s)
                (omega (arith, aligned_slot s.send_buf k zero_first (omega (arith, v.ring.fits))))
            ∙ send_lem z link (nth s.send_buf k) s,
        v.numbered k there ∙ omega (arith, v.ack_in),
      )

  -- The third duplicate acknowledgement sends the oldest packet again and resets the count; with an
  -- empty buffer it reads through the NULL that `pktbuf_first` returns.
  pub dup_ack_third :
      (ack : ℕ) (s : Sender)
      → IsSender s
      → add_u8 s.dup_ack 1 ≡ max_dup_ack
      → process_dup_ack z link ack s ≡ (
          if pktbuf_used s.send_buf == 0
          then undefined
          else ret
              (fails link (nth s.send_buf 0) s)
              (sending (nth s.send_buf 0) (record s { dup_ack = 0 })))
  unfolding process_dup_ack
  dup_ack_third ack s v two =
      let third : (add_u8 s.dup_ack 1 == max_dup_ack) ≡ true = (==_iff _ _).1 two in
      elim (Bool-cases (pktbuf_used s.send_buf == 0)) [
        | inl none_left ↦ rw (third, first-slot v.ring, process_dup_ack, none_left)
        | inr left ↦
            rw (third, first-slot v.ring, process_dup_ack, left)
              (send_lem z link (nth s.send_buf 0) (record s { dup_ack = 0 }))
      ]
