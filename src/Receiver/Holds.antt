-- ===== src/Receiver/Holds.antt =====
-- What the places of the receive buffer hold, and how a change of the state shows there.
use native.Mathlib.Decide.{dec_lt}
use project_transport_protoc.Prelude.{
  ℕ, zero, suc, ◌/◌, ◌%◌, ◌<◌, ◌≤◌, ◌≡◌, ◌≢◌, sym, ap, ◌∙◌, inl, inr, ◌↔◌, ◌==◌, Bool-cases, ==_iff,
  arith,
}
use project_transport_protoc.Prelude.Bits.{bit}
use project_transport_protoc.Packet.Layout
use project_transport_protoc.Packet.Layout.{Pkt, ptype_data}
use project_transport_protoc.Pktbuf.{Pktbuf, pktbuf_used}
use project_transport_protoc.Pktbuf.Inv.{IsRing, capacity_pos, nth, slot}
use project_transport_protoc.Pktbuf.Reserve.{IsNumbered}
use project_transport_protoc.Receiver.{Receiver, in_seq_count, restore_seq}
use project_transport_protoc.Receiver.Inv.{IsReceiver}
use project_transport_protoc.Receiver.Put.{put, put-IsRing, put-others, put-IsNumbered}

-- Place `j` of the buffer holds the packet `pkt`.
abbrev pub Holds : Receiver → ℕ → Pkt → Type 0
Holds s j pkt = (bit j s.oos_mask ≡ 1) × (nth s.recv_buf j ≡ pkt)

-- What a count of ones tells of the bits.
pub in_seq_count-bits :
    (n mask : ℕ)
    → let c = in_seq_count n mask in
      (c ≤ n) × ((j : ℕ) → j < c → bit j mask ≡ 1) × (c < n → bit c mask ≡ 0)
unfolding in_seq_count
in_seq_count-bits zero mask = (omega arith, λ j h. absurd (omega arith), λ h. absurd (omega arith))
in_seq_count-bits (suc n) mask = elim (Bool-cases (mask % 2 == 1)) [
  | inl odd ↦
      let (le, ones, gap) = in_seq_count-bits n (mask / 2) in
      rw odd (omega arith, in_front mask ((==_iff _ _).0 odd) ones, λ h. gap (omega arith))
  | inr even ↦ rw even (omega arith, λ j h. absurd (omega arith), λ h. ground arith)
]
  where
    in_front :
        {c : ℕ} (m : ℕ)
        → m % 2 ≡ 1
        → ((j : ℕ) → j < c → bit j (m / 2) ≡ 1)
        → (j : ℕ) → j < suc c
        → bit j m ≡ 1
    in_front m odd ones zero h = odd
    in_front m odd ones (suc j) h = ones j (omega arith)

pub same-Holds :
    (s s' : Receiver) (j : ℕ) (pkt : Pkt)
    → bit j s.oos_mask ≡ bit j s'.oos_mask
    → (bit j s.oos_mask ≡ 1 → nth s'.recv_buf j ≡ nth s.recv_buf j)
    → Holds s j pkt ↔ Holds s' j pkt
same-Holds s s' j pkt same nths = (
  λ h. let (b, e) = h in (sym same ∙ b, nths b ∙ e),
  λ h. let (b, e) = h in (same ∙ b, sym (nths (same ∙ b)) ∙ e),
)

-- A place with a mark is used, and it is not the first, which is not in sequence.
pub marked_used :
    {base : ℕ} {s : Receiver} (j : ℕ)
    → IsReceiver base 0 s
    → bit j s.oos_mask ≡ 1
    → (0 < j) × (j < pktbuf_used s.recv_buf) × (j < s.recv_buf.capacity)
marked_used {base} {s} zero v b = absurd (omega (arith, v.gap))
marked_used {base} {s} (suc j) v b = elim (dec_lt (suc j) (pktbuf_used s.recv_buf)) [
  | yes lt ↦ (omega arith, lt, omega (arith, v.ring.fits))
  | no ge ↦ absurd (omega (arith, v.marks (suc j)))
]

-- Nothing is stored: the places that hold a packet are the same, with the same packets.
pub record Leaves (base : ℕ) (s s' : Receiver) : Type 0 where
  pub state : IsReceiver base 0 s'
  pub held : (j : ℕ) (pkt : Pkt) → Holds s j pkt ↔ Holds s' j pkt
  pub written : s'.written ≡ s.written

-- `pkt` is stored at place `g`, over what it held; `c` packets are now in sequence.
pub record Stores (base g c : ℕ) (pkt : Pkt) (s s' : Receiver) : Type 0 where
  pub state : IsReceiver base c s'
  pub here : Holds s' g pkt
  pub others : (j : ℕ) (pkt' : Pkt) → j ≢ g → Holds s j pkt' ↔ Holds s' j pkt'
  pub in_order : (0 < c) ↔ (g ≡ 0)
  pub written : s'.written ≡ s.written

-- The buffer after a packet came into the first place and its number was set back.
abbrev pub restored : Pktbuf → Pkt → ℕ → Pktbuf
restored b pkt seq = restore_seq (put b 0 pkt) (slot b 0) seq

pub restored-nth :
    (b : Pktbuf) (pkt : Pkt) (seq j : ℕ)
    → 0 < j
    → j < b.capacity
    → nth (restored b pkt seq) j ≡ nth b j
restored-nth b pkt seq j pos lt =
    put-others (put b 0 pkt) 0 j _ (omega arith) lt (λ e. absurd (omega arith))
    ∙ put-others b 0 j pkt (omega arith) lt (λ e. absurd (omega arith))

pub restored-IsNumbered :
    (b : Pktbuf) (pkt : Pkt) (base : ℕ)
    → IsRing b
    → base < 256
    → IsNumbered b base
    → IsNumbered (restored b pkt base) base
restored-IsNumbered b pkt base r small numbered =
    put-IsNumbered base 0 (Layout.set_seq (nth (put b 0 pkt) 0) base) (put-IsRing 0 pkt r)
      (capacity_pos r)
      (λ j h ne.
        ap Layout.seq (put-others b 0 j pkt (omega (arith, r.fits)) (omega (arith, r.fits)) ne)
        ∙ numbered j h)
      (omega arith)

module _ {base : ℕ} {s : Receiver} (v : IsReceiver base 0 s) where
  -- Any change that keeps the marks, and the packets behind the first place.
  pub left-Leaves :
      (s' : Receiver)
      → IsRing s'.recv_buf
      → (s'.max_window ≡ s.max_window)
      → s'.recv_buf.capacity ≡ s.recv_buf.capacity
      → s'.expected_seq ≡ s.expected_seq
      → s'.oos_mask ≡ s.oos_mask
      → s'.written ≡ s.written
      → pktbuf_used s.recv_buf ≤ pktbuf_used s'.recv_buf
      → IsNumbered s'.recv_buf base
      → ((j : ℕ) → 0 < j → j < pktbuf_used s.recv_buf → nth s'.recv_buf j ≡ nth s.recv_buf j)
      → Leaves base s s'
  left-Leaves s' r win cap exp mask wr le numbered same = record {
    state = record {
      ring = r;
      small = rw cap v.small;
      wide = rw (win, cap) v.wide;
      base_in = v.base_in;
      expected = exp ∙ v.expected;
      numbered = numbered;
      held = omega arith;
      ones = λ j h. absurd (omega arith);
      gap = rw mask v.gap;
      marks = λ j h. rw mask (v.marks j (omega arith));
    };
    held = λ j pkt.
        same-Holds s s' j pkt (ap (bit j) (sym mask))
          (λ b. let (pos, lt, _) = marked_used j v b in same j pos lt);
    written = wr;
  }
