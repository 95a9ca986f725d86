-- ===== src/Prelude/Memory.antt =====
-- The bytes of a C object by their offset, and multi-byte loads and stores on a little-endian host.
use Prim.Native.Nat.{ℕ, zero, suc, ◌+◌, ◌-◌, ◌*◌, ◌/◌, ◌%◌, ◌^◌, ◌≤◌, ◌<◌}
use mathlib.Core.Path.{◌≡◌, refl, ap, ap₂}
use mathlib.Core.Bool.{◌&&◌}
use mathlib.Core.List.{List, [], ◌∷◌}
use native.Mathlib.Omega.{arith}
use project_transport_protoc.Prelude.Lists.{take}
use project_transport_protoc.Prelude.Tests.{◌==◌, ltb, leb, if◌then◌else◌}

abbrev pub Mem : Type 0
Mem = ℕ → ℕ

abbrev pub IsBytes : Mem → Type 0
IsBytes m = (i : ℕ) → m i < 256

abbrev pub store : Mem → ℕ → ℕ → Mem
store m a v i = if i == a then v else m i

-- The `n` bytes from offset `a` on.
abbrev pub slice : Mem → ℕ → ℕ → List ℕ
slice m a zero = []
slice m a (suc n) = m a ∷ slice m (a + 1) n

-- `memcpy(dst + to, src + from, n)` between distinct objects.
abbrev pub copy : Mem → ℕ → Mem → ℕ → ℕ → Mem
copy dst to src from n i = if leb to i && ltb i (to + n) then src (from + (i - to)) else dst i

abbrev pub load16 : Mem → ℕ → ℕ
load16 m a = m a + 256 * m (a + 1)

abbrev pub store16 : Mem → ℕ → ℕ → Mem
store16 m a v = store (store m a (v % 256)) (a + 1) (v / 256 % 256)

abbrev pub load32 : Mem → ℕ → ℕ
load32 m a = m a + 256 * m (a + 1) + 65536 * m (a + 2) + 16777216 * m (a + 3)

abbrev pub store32 : Mem → ℕ → ℕ → Mem
store32 m a v =
    store (store (store (store m a (v % 256)) (a + 1) (v / 256 % 256)) (a + 2) (v / 65536 % 256))
      (a + 3) (v / 16777216 % 256)

-- The byte swaps of <arpa/inet.h> on that host; `ntohs` and `ntohl` are the same functions.
abbrev pub htons : ℕ → ℕ
htons v = v % 256 * 256 + v / 256 % 256

abbrev pub htonl : ℕ → ℕ
htonl v = v % 256 * 16777216 + v / 256 % 256 * 65536 + v / 65536 % 256 * 256 + v / 16777216 % 256

pub htonl-htonl : (v : ℕ) → v < 2 ^ 32 → htonl (htonl v) ≡ v
htonl-htonl v h = omega arith

pub htonl-lt : (v : ℕ) → htonl v < 2 ^ 32
htonl-lt v = omega arith

pub htons-htons : (v : ℕ) → v < 2 ^ 16 → htons (htons v) ≡ v
htons-htons v h = omega arith

pub load32-store32 : (m : Mem) (a v : ℕ) → v < 2 ^ 32 → load32 (store32 m a v) a ≡ v
load32-store32 m a v h = ground arith

-- A store outside a range leaves it.
pub store32_outside : (m : Mem) (a v i : ℕ) → (i < a) → store32 m a v i ≡ m i
store32_outside m a v i h = ground arith

pub take-slice : (m : Mem) (a n : ℕ) → take n (slice m a n) ≡ slice m a n
take-slice m a zero = refl
take-slice m a (suc n) = ap (λ bs. m a ∷ bs) (take-slice m (a + 1) n)

pub slice_congr :
    (m m' : Mem) (a n : ℕ) → ((i : ℕ) → a ≤ i → i < a + n → m i ≡ m' i) → slice m a n ≡ slice m' a n
slice_congr m m' a zero same = refl
slice_congr m m' a (suc n) same =
    ap₂ ◌∷◌ (same a (omega arith) (omega arith))
      (slice_congr m m' (a + 1) n (λ i p q. same i (omega arith) (omega arith)))
