-- ===== src/Pktbuf/Inv.antt =====
-- The representation invariant of the packet buffer, and its slots in order.
use Prim.Native.Nat.{◌∣◌}
use native.Mathlib.Nat.{
  dvd_refl, dvd-mul_left_of_dvd, mod-mod_of_dvd, pow-succ', pow-le-pow_right, mod-eq_of_lt,
  mod-eq-sub-mod, mod-add-mod, mod-mod,
}
use native.Mathlib.Decide.{dec_lt}
use project_transport_protoc.Prelude.{
  ℕ, zero, suc, ◌+◌, ◌-◌, ◌%◌, ◌^◌, ◌≤◌, ◌<◌, ◌≡◌, ◌≢◌, sym, ap, ◌∙◌, bit_and, arith,
}
use project_transport_protoc.Prelude.Bits.{bit_and-mask, pow_pos}
use project_transport_protoc.Packet.Layout.{Pkt}
use project_transport_protoc.Pktbuf.{
  Pktbuf, add_u32, sub_u32, mask_index, first_item, last_item, pktbuf_used,
}

-- The capacity is a power of two of at most 2 ^ 30, and no more slots are used than there are.
pub record IsRing (b : Pktbuf) : Type 0 where
  pub power : ℕ
  pub is_power : b.capacity ≡ 2 ^ power
  pub small : power ≤ 30
  pub first_in : b.first < 2 ^ 32
  pub last_in : b.last < 2 ^ 32
  pub fits : pktbuf_used b ≤ b.capacity

dvd-pow : (k n : ℕ) → k ≤ n → 2 ^ k ∣ 2 ^ n
dvd-pow k zero h = let e : k ≡ 0 = omega arith in rw e (dvd_refl (2 ^ 0))
dvd-pow k (suc n) h = elim (dec_lt n k) [
  | yes p ↦ let e : k ≡ suc n = omega arith in rw e (dvd_refl (2 ^ suc n))
  | no p ↦ rw (pow-succ' 2 n) (dvd-mul_left_of_dvd (2 ^ k) (dvd-pow k n (omega arith)) 2)
]

module _ {b : Pktbuf} (v : IsRing b) where
  pub capacity_pos : 0 < b.capacity
  capacity_pos = rw v.is_power (pow_pos v.power)

  pub capacity_small : b.capacity ≤ 2 ^ 30
  capacity_small = rw v.is_power (pow-le-pow_right {n = 2} (omega arith) v.small)

  -- Reducing a 32-bit counter first makes no difference to the slot.
  pub wrap-mod : (x : ℕ) → x % 2 ^ 32 % b.capacity ≡ x % b.capacity
  wrap-mod x =
      mod-mod_of_dvd b.capacity x (rw v.is_power (dvd-pow v.power 32 (omega (arith, v.small))))

  pub wrap-mod_add : (x j : ℕ) → (x % 2 ^ 32 + j) % b.capacity ≡ (x + j) % b.capacity
  wrap-mod_add x j =
      sym (mod-add-mod (x % 2 ^ 32) b.capacity j)
      ∙ ap (λ r. (r + j) % b.capacity) (wrap-mod x)
      ∙ mod-add-mod x b.capacity j

  pub mask_index-mod : (i : ℕ) → mask_index i b ≡ i % b.capacity
  unfolding mask_index
  mask_index-mod i =
      ap (bit_and i) minus_one ∙ bit_and-mask v.power i ∙ ap (λ c. i % c) (sym v.is_power)
    where
      minus_one : sub_u32 b.capacity 1 ≡ 2 ^ v.power - 1
      minus_one = omega (arith, capacity_pos, capacity_small, v.is_power)

  pub last_slot : b.last % b.capacity ≡ (b.first + pktbuf_used b) % b.capacity
  last_slot = ap (λ c. c % b.capacity) wraps ∙ wrap-mod (b.first + pktbuf_used b)
    where
      wraps : b.last ≡ (b.first + pktbuf_used b) % 2 ^ 32
      wraps = omega (arith, v.first_in, v.last_in)

-- The slot of the `j`th packet, counted from the oldest.
abbrev pub slot : Pktbuf → ℕ → ℕ
slot b j = (b.first + j) % b.capacity

abbrev pub nth : Pktbuf → ℕ → Pkt
nth b j = b.head (slot b j)

-- The ways in which the code names a slot.
module _ {b : Pktbuf} (v : IsRing b) where
  pub first_slot : mask_index (first_item b) b ≡ slot b 0
  first_slot =
      mask_index-mod v (first_item b)
      ∙ ap (λ t. t % b.capacity) (mask_index-mod v b.first)
      ∙ mod-mod b.first b.capacity
      ∙ ap (λ t. t % b.capacity) (omega arith)

  pub newest : 0 < pktbuf_used b → mask_index (last_item b) b ≡ slot b (pktbuf_used b - 1)
  newest left =
      mask_index-mod v (last_item b)
      ∙ ap (λ t. t % b.capacity) (mask_index-mod v (sub_u32 b.last 1))
      ∙ mod-mod (sub_u32 b.last 1) b.capacity
      ∙ ap (λ t. t % b.capacity) wraps
      ∙ wrap-mod v (b.first + (pktbuf_used b - 1))
    where
      wraps : sub_u32 b.last 1 ≡ (b.first + (pktbuf_used b - 1)) % 2 ^ 32
      wraps = omega (arith, v.first_in, v.last_in)

  pub offset_slot : (j : ℕ) → mask_index (add_u32 (first_item b) j) b ≡ slot b j
  offset_slot j =
      mask_index-mod v (add_u32 (first_item b) j)
      ∙ wrap-mod v (first_item b + j)
      ∙ ap (λ t. (t + j) % b.capacity) (mask_index-mod v b.first)
      ∙ mod-add-mod b.first b.capacity j

-- Fewer than `n` steps round a ring of `n` slots do not come back to the start.
step_ne : (r k n : ℕ) → r < n → 0 < k → k < n → (r + k) % n ≢ r
step_ne r k n hr pos lt = elim (dec_lt (r + k) n) [
  | yes p ↦ omega (arith, mod-eq_of_lt p)
  | no p ↦ omega (
    arith,
    mod-eq-sub-mod {n = r + k} {m = n} (omega arith),
    mod-eq_of_lt {n = r + k - n} {m = n} (omega arith),
  )
]

pub slot_ne : (b : Pktbuf) (i j : ℕ) → i < j → j < i + b.capacity → slot b i ≢ slot b j
slot_ne b i j lt near e =
    step_ne ((b.first + i) % b.capacity) (j - i) b.capacity (omega arith) (omega arith)
      (omega arith)
      (mod-add-mod (b.first + i) b.capacity (j - i)
        ∙ ap (λ t. t % b.capacity) (omega arith)
        ∙ sym e)
