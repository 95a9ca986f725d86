-- ===== src/Pktbuf/Create.antt =====
-- `pktbuf_new`: which capacities it accepts.
use native.Mathlib.Nat.{pow-succ', pow-le-pow_right}
use native.Mathlib.Decide.{dec_lt}
use project_transport_protoc.Prelude.{
  ℕ, zero, suc, ◌/◌, ◌%◌, ◌^◌, ◌≤◌, ◌<◌, ◌≡◌, ◌≢◌, refl, ap, ◌↔◌, Bool, true, arith,
}
use project_transport_protoc.Pktbuf.{
  Pktbuf, exit_failure, buffer, pktbuf_used, pktbuf_new, popcount,
}
use project_transport_protoc.Pktbuf.Inv.{IsRing}

-- The ones among the bits below 2 ^ n are none for 0 alone, and one for a power of two alone.
popcount-zero : (n x : ℕ) → x < 2 ^ n → popcount n x ≡ 0 → x ≡ 0
unfolding popcount
popcount-zero zero x h e = omega arith
popcount-zero (suc n) x h e =
    omega (arith, popcount-zero n (x / 2) (omega (arith, pow-succ' 2 n)) (omega arith))

popcount-one : (n x : ℕ) → x < 2 ^ n → popcount n x ≡ 1 → (k : ℕ) × (k < n) × (x ≡ 2 ^ k)
unfolding popcount
popcount-one zero x h e = absurd (omega arith)
popcount-one (suc n) x h e = elim (dec_lt 0 (x % 2)) [
  | yes p ↦ (
    0,
    omega arith,
    omega (arith, popcount-zero n (x / 2) (omega (arith, pow-succ' 2 n)) (omega arith)),
  )
  | no p ↦
      let (k, lt, q) = popcount-one n (x / 2) (omega (arith, pow-succ' 2 n)) (omega arith) in
      (suc k, omega arith, omega (arith, pow-succ' 2 k))
]

popcount_of_zero : (n : ℕ) → popcount n 0 ≡ 0
unfolding popcount
popcount_of_zero zero = refl
popcount_of_zero (suc n) = omega (arith, popcount_of_zero n)

popcount-pow : (n k : ℕ) → k < n → popcount n (2 ^ k) ≡ 1
unfolding popcount
popcount-pow zero k h = absurd (omega arith)
popcount-pow (suc n) zero h = omega (arith, popcount_of_zero n)
popcount-pow (suc n) (suc k) h =
    let half : 2 ^ suc k / 2 ≡ 2 ^ k = omega (arith, pow-succ' 2 k) in
    omega (arith, pow-succ' 2 k, ap (popcount n) half, popcount-pow n k (omega arith))

pow_small : (k : ℕ) → k ≤ 30 → 2 ^ k ≤ 2 ^ 30
pow_small k h = pow-le-pow_right {n = 2} (omega arith) h

power_bound : (k : ℕ) → 2 ^ k < 2 ^ 31 → k ≤ 30
power_bound k h = elim (dec_lt 30 k) [
  | yes p ↦ absurd (omega (arith, pow-le-pow_right {n = 2} (omega arith) {i = 31} {j = k} p))
  | no p ↦ omega arith
]

checks_passed :
    (allocated : Bool) (c : ℕ)
    → pktbuf_new allocated c ≢ exit_failure
    → (popcount 32 c ≡ 1) × (c < 2 ^ 31)
unfolding pktbuf_new
checks_passed allocated c h = ground arith

passes_checks :
    (allocated : Bool) (c : ℕ)
    → popcount 32 c ≡ 1
    → c < 2 ^ 31
    → pktbuf_new allocated c ≢ exit_failure
unfolding pktbuf_new
passes_checks allocated c one lt e = ground arith

-- `pktbuf_new` exits on every capacity but the powers of two up to 2 ^ 30.
pub new-iff-pow :
    (allocated : Bool) (c : ℕ)
    → c < 2 ^ 32
    → (pktbuf_new allocated c ≢ exit_failure) ↔ ((k : ℕ) × (k ≤ 30) × (c ≡ 2 ^ k))
new-iff-pow allocated c h = (
  λ kept.
      let (one, lt) = checks_passed allocated c kept in
      let (k, _, e) = popcount-one 32 c h one in (k, power_bound k (rw (← e) lt), e),
  λ (k, le, e).
      passes_checks allocated c (rw e (popcount-pow 32 k (omega arith)))
        (omega (arith, pow_small k le)),
)

-- On a power of two up to 2 ^ 30, given the memory, `pktbuf_new` returns an empty buffer of that
-- capacity.
pub new-IsRing :
    (k : ℕ)
    → k ≤ 30
    → (b : Pktbuf) × (pktbuf_new true (2 ^ k) ≡ buffer b)
      × IsRing b
      × (pktbuf_used b ≡ 0)
      × (b.capacity ≡ 2 ^ k)
unfolding pktbuf_new
new-IsRing k h = (
  record { first = 0; last = 0; capacity = 2 ^ k; head = λ _ _. 0 },
  ground (arith, popcount-pow 32 k, pow_small k),
  record {
    power = k;
    is_power = refl;
    small = h;
    first_in = omega arith;
    last_in = omega arith;
    fits = omega arith;
  },
  refl,
  refl,
)
