-- ===== src/Receiver/Bytes.antt =====
-- `pktbuf_slotfor_seq` leaves bytes in the slots.
use project_transport_protoc.Prelude.{
  ℕ, zero, suc, ◌+◌, ◌≡◌, ap, inl, inr, ◌==◌, ltb, leb, Option, none, some, Bool-cases, arith,
}
use project_transport_protoc.Prelude.Memory.{IsBytes}
use project_transport_protoc.Packet.Layout
use project_transport_protoc.Packet.Layout.{Pkt, ptype_data}
use project_transport_protoc.Pktbuf.{
  Pktbuf, add_u32, sub_u32, sub_u8, mask_index, first_item, pktbuf_used, pktbuf_slotfor_seq,
  slot_from_first, reserve, enqueue_seq, pktbuf_enqueue,
}

-- All slots hold bytes.
abbrev pub AllBytes : Pktbuf → Type 0
AllBytes b = (i : ℕ) → IsBytes (b.head i)

enqueue_seq-IsBytes : (b : Pktbuf) (seq : ℕ) → AllBytes b → AllBytes (enqueue_seq b seq)
unfolding enqueue_seq pktbuf_enqueue
enqueue_seq-IsBytes b seq bytes i k = ground (arith, bytes i k, bytes)

reserve-IsBytes :
    (fuel : ℕ) (b : Pktbuf) (seq offset : ℕ) → AllBytes b → AllBytes (reserve fuel b seq offset)
unfolding reserve enqueue_seq pktbuf_enqueue
reserve-IsBytes zero b seq offset bytes = bytes
reserve-IsBytes (suc fuel) b seq offset bytes =
    let v : ℕ = sub_u32 (add_u32 seq (pktbuf_used (pktbuf_enqueue b).1)) 1 in
    let rest = reserve-IsBytes fuel (enqueue_seq b v) seq offset (enqueue_seq-IsBytes b v bytes) in
    elim (Bool-cases (ltb offset (pktbuf_used b))) [ inl t ↦ rw t bytes | inr f ↦ rw f rest ]

abbrev buffer_of : Pktbuf → Option (ℕ × Pktbuf) → Pktbuf
buffer_of b none = b
buffer_of b (some (i, b')) = b'

slot_from_first-IsBytes :
    (b : Pktbuf) (seqnum : ℕ) → AllBytes b → AllBytes (buffer_of b (slot_from_first b seqnum))
unfolding slot_from_first
slot_from_first-IsBytes b seqnum bytes =
    let offset : ℕ = sub_u8 seqnum (Layout.seq (b.head (mask_index (first_item b) b))) in
    let extended =
      reserve-IsBytes (offset + 1) b (Layout.seq (b.head (mask_index (first_item b) b))) offset
        bytes in
    elim (Bool-cases (leb offset b.capacity)) [
      | inl fits ↦ rw fits extended
      | inr far ↦ rw far bytes
    ]

pub slotfor_seq-IsBytes :
    (b b' : Pktbuf) (seqnum i : ℕ)
    → AllBytes b
    → pktbuf_slotfor_seq b seqnum ≡ some (i, b')
    → AllBytes b'
unfolding pktbuf_slotfor_seq
slotfor_seq-IsBytes b b' seqnum i bytes e = elim (Bool-cases (b.first == b.last)) [
  | inl empty ↦
      rw (ap (buffer_of (enqueue_seq b seqnum)) (rw empty at e)) at
        (slot_from_first-IsBytes (enqueue_seq b seqnum) seqnum (enqueue_seq-IsBytes b seqnum bytes))
  | inr used ↦ rw (ap (buffer_of b) (rw used at e)) at (slot_from_first-IsBytes b seqnum bytes)
]
