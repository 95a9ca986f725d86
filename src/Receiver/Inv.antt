-- ===== src/Receiver/Inv.antt =====
-- The receiver's invariant: the buffer begins with `c` packets that are in sequence and not written,
-- and the bits of the mask tell which of its places hold a packet.
use project_transport_protoc.Prelude.{ℕ, zero, suc, ◌+◌, ◌-◌, ◌/◌, ◌%◌, ◌<◌, ◌≤◌, ◌≡◌, refl, arith}
use project_transport_protoc.Prelude.Bits.{bit}
use project_transport_protoc.Pktbuf.{pktbuf_used}
use project_transport_protoc.Pktbuf.Inv.{IsRing}
use project_transport_protoc.Pktbuf.Reserve.{IsNumbered}
use project_transport_protoc.Receiver.{Receiver, in_seq_count, window_size}

-- `base` is the number of the first place.
pub record IsReceiver (base c : ℕ) (s : Receiver) : Type 0 where
  pub ring : IsRing s.recv_buf
  pub small : s.recv_buf.capacity ≤ 32
  pub wide : s.max_window < s.recv_buf.capacity
  pub base_in : base < 256
  pub expected : s.expected_seq ≡ (base + c) % 256
  pub numbered : IsNumbered s.recv_buf base
  pub held : c ≤ pktbuf_used s.recv_buf
  pub ones : (j : ℕ) → j < c → bit j s.oos_mask ≡ 1
  pub gap : bit c s.oos_mask ≡ 0
  pub marks : (j : ℕ) → pktbuf_used s.recv_buf ≤ j → bit j s.oos_mask ≡ 0

-- The loop of `window_size` counts the ones before the first zero.
pub in_seq_count-ones :
    (c fuel mask : ℕ)
    → c ≤ fuel
    → ((j : ℕ) → j < c → bit j mask ≡ 1)
    → bit c mask ≡ 0
    → in_seq_count fuel mask ≡ c
unfolding in_seq_count
in_seq_count-ones zero zero mask le ones gap = refl
in_seq_count-ones zero (suc fuel) mask le ones gap = ground (arith, gap)
in_seq_count-ones (suc c) zero mask le ones gap = absurd (omega arith)
in_seq_count-ones (suc c) (suc fuel) mask le ones gap =
    let rest =
      in_seq_count-ones c fuel (mask / 2) (omega arith) (λ j h. ones (suc j) (omega arith)) gap in
    let first : mask % 2 ≡ 1 = ones 0 (omega arith) in rw (first, rest) (omega arith)

-- With the invariant and at most `max_window` packets in sequence, `window_size` is what these leave
-- of the largest window.
pub window_size-ones :
    {base c : ℕ} {s : Receiver}
    → IsReceiver base c s
    → c ≤ s.max_window
    → window_size s ≡ s.max_window - c
unfolding window_size
window_size-ones {base} {c} {s} v le =
    let counted = in_seq_count-ones c 32 s.oos_mask (omega (arith, v.small, v.wide)) v.ones v.gap in
    rw counted (omega (arith, v.small, v.wide))
