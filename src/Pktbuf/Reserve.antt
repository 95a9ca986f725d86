-- ===== src/Pktbuf/Reserve.antt =====
-- The loop of `pktbuf_slotfor_seq`: slots are added at the end and numbered.
use native.Mathlib.Decide.{dec_lt}
use project_transport_protoc.Prelude.{
  ℕ, zero, suc, ◌+◌, ◌%◌, ◌≤◌, ◌<◌, ◌≡◌, refl, ap, ◌∙◌, ltb, arith, inl, inr, Bool-cases, max,
}
use project_transport_protoc.Packet.Layout
use project_transport_protoc.Packet.Layout.{Pkt}
use project_transport_protoc.Pktbuf.{
  Pktbuf, add_u32, sub_u32, set_slot, mask_index, pktbuf_used, pktbuf_enqueue, enqueue_seq, reserve,
}
use project_transport_protoc.Pktbuf.Inv.{
  IsRing, capacity_pos, capacity_small, mask_index-mod, last_slot, slot, nth, slot_ne,
}
use project_transport_protoc.Pktbuf.Queue.{enqueue-IsRing}

-- The used slots carry consecutive sequence numbers from `s` on.
abbrev pub IsNumbered : Pktbuf → ℕ → Type 0
IsNumbered b s = (j : ℕ) → j < pktbuf_used b → Layout.seq (nth b j) ≡ (s + j) % 256

-- `b'` is `b` with slots added at its end up to a use of `n`.
pub record Extends (b b' : Pktbuf) (s n : ℕ) : Type 0 where
  pub ring : IsRing b'
  pub used : pktbuf_used b' ≡ n
  pub first : b'.first ≡ b.first
  pub capacity : b'.capacity ≡ b.capacity
  pub numbered : IsNumbered b' s
  pub kept : (j : ℕ) → j < pktbuf_used b → nth b' j ≡ nth b j

-- A slot is added, and the packet `pkt` is stored there.
pub stored-Extends :
    (b : Pktbuf) (s : ℕ) (pkt : Pkt)
    → IsRing b
    → pktbuf_used b < b.capacity
    → IsNumbered b s
    → Layout.seq pkt ≡ (s + pktbuf_used b) % 256
    → let (i, b') = pktbuf_enqueue b in
      Extends b (set_slot b' i pkt) s (pktbuf_used b + 1)
      × (nth (set_slot b' i pkt) (pktbuf_used b) ≡ pkt)
unfolding pktbuf_enqueue
stored-Extends b s pkt r room numbered e = (
  record {
    ring = record {
      power = r.power;
      is_power = r.is_power;
      small = r.small;
      first_in = r.first_in;
      last_in = omega arith;
      fits = omega (arith, capacity_small r);
    };
    used = omega (arith, r.first_in, r.last_in, capacity_small r);
    first = refl;
    capacity = refl;
    numbered = λ j h. elim (dec_lt j used) [
      | yes p ↦ ap Layout.seq (old j p) ∙ numbered j p
      | no p ↦ let last : j ≡ used = omega arith in rw last (ap Layout.seq new ∙ e)
    ];
    kept = old;
  },
  new,
)
  where
    used : ℕ
    used = pktbuf_used b

    here : mask_index b.last b ≡ slot b used
    here = mask_index-mod r b.last ∙ last_slot r

    stored : Pktbuf
    stored = set_slot (record b { last = add_u32 b.last 1 }) (mask_index b.last b) pkt

    old : (j : ℕ) → j < used → nth stored j ≡ nth b j
    old j h = ground (arith, here, slot_ne b j used h (omega arith))

    new : nth stored used ≡ pkt
    new = ground (arith, here)

-- One slot is added and given the sequence number `v`.
abbrev add_named : Pktbuf → ℕ → Pktbuf
add_named b v = let (i, b') = pktbuf_enqueue b in set_slot b' i (Layout.set_seq (b'.head i) v)

add_named-Extends :
    (b : Pktbuf) (s v : ℕ)
    → IsRing b
    → pktbuf_used b < b.capacity
    → IsNumbered b s
    → v % 256 ≡ (s + pktbuf_used b) % 256
    → Extends b (add_named b v) s (pktbuf_used b + 1)
add_named-Extends b s v r room numbered e =
    (stored-Extends b s (Layout.set_seq ((pktbuf_enqueue b).1.head (pktbuf_enqueue b).0) v) r room
      numbered e).0

Extends-refl : {b : Pktbuf} {s : ℕ} → IsRing b → IsNumbered b s → Extends b b s (pktbuf_used b)
Extends-refl r numbered = record {
  ring = r;
  used = refl;
  first = refl;
  capacity = refl;
  numbered = numbered;
  kept = λ j h. refl;
}

pub Extends-trans :
    {b b' b'' : Pktbuf} {s n m : ℕ}
    → pktbuf_used b ≤ n
    → Extends b b' s n
    → Extends b' b'' s m
    → Extends b b'' s m
Extends-trans le e f = record {
  ring = f.ring;
  used = f.used;
  first = f.first ∙ e.first;
  capacity = f.capacity ∙ e.capacity;
  numbered = f.numbered;
  kept = λ j h. f.kept j (rw e.used (omega arith)) ∙ e.kept j h;
}

-- `first_seq + pktbuf_used(buf) - 1`, after the slot was added.
abbrev round_seq : Pktbuf → ℕ → ℕ
round_seq b s = sub_u32 (add_u32 s (pktbuf_used (pktbuf_enqueue b).1)) 1

round_added :
    (b : Pktbuf) (s : ℕ)
    → IsRing b
    → pktbuf_used b < b.capacity
    → IsNumbered b s
    → Extends b (add_named b (round_seq b s)) s (pktbuf_used b + 1)
round_added b s r room numbered =
    add_named-Extends b s (round_seq b s) r room numbered (omega (arith, (enqueue-IsRing r room).2))

pub reserve-Extends :
    (fuel : ℕ) (b : Pktbuf) (s offset : ℕ)
    → IsRing b
    → IsNumbered b s
    → offset < b.capacity
    → offset < pktbuf_used b + fuel
    → Extends b (reserve fuel b s offset) s (max (pktbuf_used b) (offset + 1))
unfolding reserve
reserve-Extends zero b s offset r numbered room enough =
    let full : max (pktbuf_used b) (offset + 1) ≡ pktbuf_used b = omega arith in
    rw full (Extends-refl r numbered)
reserve-Extends (suc fuel) b s offset r numbered room enough =
    elim (Bool-cases (ltb offset (pktbuf_used b))) [
      | inl there ↦
          let full : max (pktbuf_used b) (offset + 1) ≡ pktbuf_used b = ground arith in
          rw (there, full) (Extends-refl r numbered)
      | inr missing ↦
          let added = round_added b s r (ground arith) numbered in
          let b' = add_named b (round_seq b s) in
          let rest =
            reserve-Extends fuel b' s offset added.ring added.numbered (rw added.capacity room)
              (rw added.used (ground arith)) in
          let same : max (pktbuf_used b') (offset + 1) ≡ max (pktbuf_used b) (offset + 1) =
            rw added.used (ground arith) in
          rw missing (Extends-trans (omega arith) added (rw same at rest))
    ]

-- An empty buffer is given its first slot.
pub enqueue_seq-Extends :
    (b : Pktbuf) (s : ℕ) → IsRing b → s < 256 → pktbuf_used b ≡ 0 → Extends b (enqueue_seq b s) s 1
unfolding enqueue_seq
enqueue_seq-Extends b s r small empty = rw (ap (λ u. u + 1) empty) at (
    add_named-Extends b s s r (omega (arith, capacity_pos r)) (λ j h. absurd (omega arith))
      (omega arith))
