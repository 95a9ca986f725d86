-- ===== src/Pktbuf/Slotfor.antt =====
-- `pktbuf_slotfor_seq`: the slot of a sequence number, found or reserved.
use native.Mathlib.Decide.{dec_lt}
use project_transport_protoc.Prelude.{
  ℕ, zero, suc, ◌+◌, ◌%◌, ◌<◌, ◌≡◌, refl, sym, ap, ap₂, ◌∙◌, some, ◌==◌, leb, arith, true, false,
  max,
}
use project_transport_protoc.Packet.Layout
use project_transport_protoc.Packet.Layout.{Pkt}
use project_transport_protoc.Pktbuf.{
  Pktbuf, add_u32, sub_u8, mask_index, first_item, pktbuf_used, enqueue_seq, reserve,
  slot_from_first, pktbuf_slotfor_seq,
}
use project_transport_protoc.Pktbuf.Inv.{IsRing, capacity_pos, slot, first_slot, offset_slot}
use project_transport_protoc.Pktbuf.Reserve.{
  IsNumbered, Extends, Extends-trans, reserve-Extends, enqueue_seq-Extends,
}

slot_from_first-Extends :
    (b : Pktbuf) (s seqnum : ℕ)
    → IsRing b
    → IsNumbered b s
    → s < 256
    → 0 < pktbuf_used b
    → sub_u8 seqnum s < b.capacity
    → (b' : Pktbuf) × (slot_from_first b seqnum ≡ some (slot b (sub_u8 seqnum s), b'))
      × Extends b b' s (max (pktbuf_used b) (sub_u8 seqnum s + 1))
unfolding slot_from_first
slot_from_first-Extends b s seqnum r numbered small left room =
    (reserve (offset + 1) b s offset, rw (first_seq, fits, named), extended)
  where
    offset : ℕ
    offset = sub_u8 seqnum s

    first_seq : Layout.seq (b.head (mask_index (first_item b) b)) ≡ s
    first_seq = ap (λ i. Layout.seq (b.head i)) (first_slot r) ∙ numbered 0 left ∙ omega arith

    fits : leb offset b.capacity ≡ true
    fits = ground arith

    extended : Extends b (reserve (offset + 1) b s offset) s (max (pktbuf_used b) (offset + 1))
    extended = reserve-Extends (offset + 1) b s offset r numbered room (omega arith)

    named :
        mask_index
          (add_u32 (first_item (reserve (offset + 1) b s offset)) offset)
          (reserve (offset + 1) b s offset)
        ≡ slot b offset
    named =
        offset_slot extended.ring offset
        ∙ ap₂ (λ f c. (f + offset) % c) extended.first extended.capacity

seq_of_offset :
    {b b' : Pktbuf} {s n : ℕ} (seqnum : ℕ)
    → s < 256
    → seqnum < 256
    → sub_u8 seqnum s < n
    → Extends b b' s n
    → Layout.seq (b'.head (slot b (sub_u8 seqnum s))) ≡ seqnum
seq_of_offset {b} {b'} {s} seqnum hs hn lt e =
    ap (λ i. Layout.seq (b'.head i))
      (ap₂ (λ f c. (f + sub_u8 seqnum s) % c) (sym e.first) (sym e.capacity))
    ∙ e.numbered (sub_u8 seqnum s) (rw e.used lt)
    ∙ omega arith

empty_case : (b : Pktbuf) → IsRing b → pktbuf_used b ≡ 0 → (b.first == b.last) ≡ true
empty_case b r h = ground (arith, r.first_in, r.last_in)

used_case : (b : Pktbuf) → IsRing b → 0 < pktbuf_used b → (b.first == b.last) ≡ false
used_case b r h = ground (arith, r.first_in, r.last_in)

slotfor_empty :
    (b : Pktbuf) (s : ℕ)
    → IsRing b
    → s < 256
    → pktbuf_used b ≡ 0
    → (b' : Pktbuf) × (pktbuf_slotfor_seq b s ≡ some (slot b (sub_u8 s s), b'))
      × Extends b b' s (max (pktbuf_used b) (sub_u8 s s + 1))
unfolding pktbuf_slotfor_seq
slotfor_empty b s r small zero_used =
    let one : Extends b (enqueue_seq b s) s 1 = enqueue_seq-Extends b s r small zero_used in
    let (b', e, x) =
      slot_from_first-Extends (enqueue_seq b s) s s one.ring one.numbered small
        (rw one.used (omega arith)) (rw one.capacity (omega (arith, capacity_pos r))) in
    let same : max (pktbuf_used (enqueue_seq b s)) (sub_u8 s s + 1)
        ≡ max (pktbuf_used b) (sub_u8 s s + 1) =
      rw one.used (omega arith) in
    (
      b',
      rw (empty_case b r zero_used)
          (e ∙ ap₂ (λ f c. some ((f + sub_u8 s s) % c, b')) one.first one.capacity),
      Extends-trans (omega arith) one (rw same at x),
    )

-- For a sequence number less than a capacity ahead of the first one, `pktbuf_slotfor_seq` returns
-- the slot that carries it, numbers the slots that it adds, and changes no used slot.
pub slotfor_seq-Extends :
    (b : Pktbuf) (s seqnum : ℕ)
    → IsRing b
    → IsNumbered b s
    → s < 256
    → seqnum < 256
    → (pktbuf_used b ≡ 0 → seqnum ≡ s)
    → sub_u8 seqnum s < b.capacity
    → (b' : Pktbuf) × (pktbuf_slotfor_seq b seqnum ≡ some (slot b (sub_u8 seqnum s), b'))
      × Extends b b' s (max (pktbuf_used b) (sub_u8 seqnum s + 1))
      × (Layout.seq (b'.head (slot b (sub_u8 seqnum s))) ≡ seqnum)
unfolding pktbuf_slotfor_seq
slotfor_seq-Extends b s seqnum r numbered small small' start room =
    elim (dec_lt 0 (pktbuf_used b)) [
      | yes left ↦
          let (b', e, x) = slot_from_first-Extends b s seqnum r numbered small left room in
          (b', rw (used_case b r left) e, x, seq_of_offset seqnum small small' (omega arith) x)
      | no none_left ↦
          let zero_used : pktbuf_used b ≡ 0 = omega arith in
          let (b', e, x) = slotfor_empty b s r small zero_used in
          let same = start zero_used in
          rw same (b', e, x, seq_of_offset s small small (omega arith) x)
    ]

reserve_there :
    (fuel : ℕ) (b : Pktbuf) (s offset : ℕ) → offset < pktbuf_used b → reserve fuel b s offset ≡ b
unfolding reserve
reserve_there zero b s offset h = refl
reserve_there (suc fuel) b s offset h = ground arith

-- A sequence number that is in the buffer is found, and the buffer stays as it is.
pub slotfor_seq-there :
    (b : Pktbuf) (s seqnum : ℕ)
    → IsRing b
    → IsNumbered b s
    → s < 256
    → sub_u8 seqnum s < pktbuf_used b
    → pktbuf_slotfor_seq b seqnum ≡ some (slot b (sub_u8 seqnum s), b)
unfolding pktbuf_slotfor_seq slot_from_first
slotfor_seq-there b s seqnum r numbered small there = rw (
  used_case b r (omega arith),
  first_seq,
  fits,
  reserve_there (offset + 1) b s offset there,
  offset_slot r offset,
)
  where
    offset : ℕ
    offset = sub_u8 seqnum s

    first_seq : Layout.seq (b.head (mask_index (first_item b) b)) ≡ s
    first_seq =
        ap (λ i. Layout.seq (b.head i)) (first_slot r) ∙ numbered 0 (omega arith) ∙ omega arith

    fits : leb offset b.capacity ≡ true
    fits = ground (arith, r.fits)
