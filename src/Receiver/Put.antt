-- ===== src/Receiver/Put.antt =====
-- Packets that are put into places of the buffer.
use native.Mathlib.Decide.{dec_lt}
use project_transport_protoc.Prelude.{
  ℕ, ◌+◌, ◌%◌, ◌<◌, ◌≡◌, ◌≢◌, ap, ◌∙◌, ◌==◌, inl, inr, fun_ext, Bool-cases, ==_iff, arith,
}
use project_transport_protoc.Packet.Layout
use project_transport_protoc.Packet.Layout.{Pkt}
use project_transport_protoc.Pktbuf.{Pktbuf, set_slot, pktbuf_used}
use project_transport_protoc.Pktbuf.Inv.{IsRing, slot, slot_ne, nth}
use project_transport_protoc.Pktbuf.Reserve.{IsNumbered}

-- `pkt` at place `g`.
abbrev pub put : Pktbuf → ℕ → Pkt → Pktbuf
put b g pkt = set_slot b (slot b g) pkt

pub put-IsRing : {b : Pktbuf} (g : ℕ) (pkt : Pkt) → IsRing b → IsRing (put b g pkt)
put-IsRing g pkt r = record {
  power = r.power;
  is_power = r.is_power;
  small = r.small;
  first_in = r.first_in;
  last_in = r.last_in;
  fits = r.fits;
}

pub put-there : (b : Pktbuf) (g : ℕ) (pkt : Pkt) → nth (put b g pkt) g ≡ pkt
put-there b g pkt = ground arith

pub put-others :
    (b : Pktbuf) (g j : ℕ) (pkt : Pkt)
    → g < b.capacity
    → j < b.capacity
    → j ≢ g
    → nth (put b g pkt) j ≡ nth b j
put-others b g j pkt hg hj ne = elim (dec_lt j g) [
  | yes lt ↦ ground (arith, slot_ne b j g lt (omega arith))
  | no ge ↦ ground (arith, slot_ne b g j (omega arith) (omega arith))
]

pub put-IsNumbered :
    {b : Pktbuf} (base g : ℕ) (pkt : Pkt)
    → IsRing b
    → g < b.capacity
    → ((j : ℕ) → j < pktbuf_used b → j ≢ g → Layout.seq (nth b j) ≡ (base + j) % 256)
    → Layout.seq pkt ≡ (base + g) % 256
    → IsNumbered (put b g pkt) base
put-IsNumbered {b} base g pkt r hg numbered e j h = elim (Bool-cases (j == g)) [
  | inl p ↦ let at : j ≡ g = (==_iff _ _).0 p in rw at (ap Layout.seq (put-there b g pkt) ∙ e)
  | inr p ↦
      let away : j ≢ g = ground arith in
      ap Layout.seq (put-others b g j pkt hg (omega (arith, r.fits)) away) ∙ numbered j h away
]

-- A sequence number that is stored and then set back.
pub set_seq-set_seq :
    (pkt : Pkt) (v : ℕ)
    → Layout.seq pkt < 256
    → Layout.set_seq (Layout.set_seq pkt v) (Layout.seq pkt) ≡ pkt
set_seq-set_seq pkt v small = fun_ext (λ i. ground arith)
