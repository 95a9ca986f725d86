-- ===== src/Pktbuf/Tests.antt =====
-- A buffer of four slots whose counters have wrapped, and the buffer's theorems there.
use project_transport_protoc.Prelude.{
  ℕ, ◌-◌, ◌^◌, ◌≤◌, ◌<◌, ◌≡◌, ◌≢◌, refl, ◌↔◌, [], ◌∷◌, some, ◌==◌, if◌then◌else◌, true, arith,
}
use project_transport_protoc.Packet.Layout
use project_transport_protoc.Packet.Layout.{Pkt}
use project_transport_protoc.Pktbuf.{
  Pktbuf, exit_failure, set_slot, pktbuf_new, pktbuf_enqueue, pktbuf_dequeue, pktbuf_slotfor_seq,
}
use project_transport_protoc.Pktbuf.Inv.{IsRing}
use project_transport_protoc.Pktbuf.Create.{new-iff-pow}
use project_transport_protoc.Pktbuf.Queue.{contents, enqueue_refines, dequeue_refines}
use project_transport_protoc.Pktbuf.Reserve.{IsNumbered, Extends}
use project_transport_protoc.Pktbuf.Slotfor.{slotfor_seq-Extends}

abbrev packet : ℕ → Pkt
packet s i = if i == 1 then s else 0

-- The slots 3 and 0 are used; the next one is 1.
abbrev wrapped : Pktbuf
wrapped = record {
  first = 2 ^ 32 - 1;
  last = 1;
  capacity = 4;
  head = λ i. if i == 3 then packet 254 else if i == 0 then packet 255 else packet 9;
}

wrapped-IsRing : IsRing wrapped
wrapped-IsRing = record {
  power = 2;
  is_power = refl;
  small = omega arith;
  first_in = omega arith;
  last_in = omega arith;
  fits = omega arith;
}

wrapped-IsNumbered : IsNumbered wrapped 254
wrapped-IsNumbered j h = ground arith

contents-wrapped : contents wrapped ≡ packet 254 ∷ packet 255 ∷ []
contents-wrapped = refl

new-iff-pow_example : (pktbuf_new true 32 ≢ exit_failure) ↔ ((k : ℕ) × (k ≤ 30) × (32 ≡ 2 ^ k))
new-iff-pow_example = new-iff-pow true 32 (omega arith)

enqueue_refines_example :
    let (i, b') = pktbuf_enqueue wrapped in
    contents (set_slot b' i (packet 7)) ≡ packet 254 ∷ packet 255 ∷ packet 7 ∷ []
enqueue_refines_example = enqueue_refines (packet 7) wrapped-IsRing (omega arith)

dequeue_refines_example :
    let (i, b') = pktbuf_dequeue wrapped in
    IsRing b' × (i < 4) × (packet 254 ∷ packet 255 ∷ [] ≡ wrapped.head i ∷ contents b')
dequeue_refines_example = dequeue_refines wrapped-IsRing (omega arith)

slotfor_seq-Extends_example :
    (b' : Pktbuf) × (pktbuf_slotfor_seq wrapped 1 ≡ some (2, b'))
    × Extends wrapped b' 254 4
    × (Layout.seq (b'.head 2) ≡ 1)
slotfor_seq-Extends_example =
    slotfor_seq-Extends wrapped 254 1 wrapped-IsRing wrapped-IsNumbered (omega arith) (omega arith)
      (λ e. absurd (omega arith)) (omega arith)
