-- ===== src/Packet/Access/Laws.antt =====
-- What the setters change, and what they refuse.
use project_transport_protoc.Prelude.{
  ℕ, ◌+◌, ◌%◌, ◌≤◌, ◌<◌, ◌≡◌, ◌≢◌, refl, inl, inr, ◌⊎◌, leb, ◌==◌, ◌||◌, some, arith, Option,
  Bool-cases, false, true,
}
use project_transport_protoc.Prelude.Memory.{Mem, copy}
use project_transport_protoc.Packet.Layout
use project_transport_protoc.Packet.Layout.{
  Pkt, Status, pkt_ok, e_type, e_tr, e_length, e_window, at_payload,
}
use project_transport_protoc.Packet.Access.{
  pkt_set_type, pkt_set_tr, pkt_set_window, pkt_set_payload,
}

-- `q` is `p` but for its first byte, whose fields are given.
pub record FirstByte (p q : Pkt) (w r t : ℕ) : Type 0 where
  pub window : Layout.window q ≡ w
  pub tr : Layout.tr q ≡ r
  pub type : Layout.type q ≡ t
  pub others : (i : ℕ) → 0 < i → q i ≡ p i

set_window-FirstByte :
    (p : Pkt) (v : ℕ) → v ≤ 31 → FirstByte p (Layout.set_window p v) v (Layout.tr p) (Layout.type p)
set_window-FirstByte p v h = record {
  window = omega arith;
  tr = omega arith;
  type = omega arith;
  others = λ i pos. ground arith;
}

set_tr-FirstByte :
    (p : Pkt) (v : ℕ) → FirstByte p (Layout.set_tr p v) (Layout.window p) (v % 2) (Layout.type p)
set_tr-FirstByte p v = record {
  window = omega arith;
  tr = omega arith;
  type = omega arith;
  others = λ i pos. ground arith;
}

set_type-FirstByte :
    (p : Pkt) (v : ℕ) → v ≤ 3 → FirstByte p (Layout.set_type p v) (Layout.window p) (Layout.tr p) v
set_type-FirstByte p v h = record {
  window = omega arith;
  tr = omega arith;
  type = omega arith;
  others = λ i pos. ground arith;
}

-- `q` is `p` with the `len` bytes of `data` as its payload.
pub record Filled (p q : Pkt) (data' : Mem) (len : ℕ) : Type 0 where
  pub length : Layout.length q ≡ len
  pub payload : (i : ℕ) → i < len → q (at_payload + i) ≡ data' i
  pub header : (i : ℕ) → i < at_payload → i ≢ 2 → i ≢ 3 → q i ≡ p i
  pub behind : (i : ℕ) → at_payload + len ≤ i → q i ≡ p i

-- What a setter answers: PKT_OK with a packet that is as wanted, or an error and the packet as it was.
pub data Sets (p : Pkt) (wanted : Pkt → Type 0) (refused : Type 0) (e : Status)
    : Status × Option Pkt → Type 0 where
  accepted : (q : Pkt) → wanted q → Sets p wanted refused e (pkt_ok, some q)
  rejected : refused → Sets p wanted refused e (e, some p)

-- Each setter of the first byte changes its own field and no other, or refuses the value and changes
-- nothing. `pkt_set_window` refuses exactly the values over 31, `pkt_set_type` exactly 0 and the values
-- over 3, and `pkt_set_tr` exactly the values other than 0 on a packet that is not a data packet; it
-- keeps the lowest bit of any other value.
pub set-FirstByte :
    (p : Pkt) (v : ℕ)
    → Sets p
        (λ q. (v ≤ 31) × FirstByte p q v (Layout.tr p) (Layout.type p))
        (31 < v)
        e_window
        (pkt_set_window (some p) v)
      × Sets p
          (λ q. (0 < v) × (v ≤ 3) × FirstByte p q (Layout.window p) (Layout.tr p) v)
          ((v ≡ 0) ⊎ (3 < v))
          e_type
          (pkt_set_type (some p) v)
      × ((r : Status × Option Pkt) × (pkt_set_tr (some p) v ≡ some r)
          × Sets p
              (λ q.
                ((v ≡ 0) ⊎ (Layout.type p ≡ 1))
                × FirstByte p q (Layout.window p) (v % 2) (Layout.type p))
              ((0 < v) × (Layout.type p ≢ 1))
              e_tr
              r)
set-FirstByte p v = (
  elim (Bool-cases (leb v 31)) [
    | inl t ↦ rw t (accepted _ (ground arith, set_window-FirstByte p v (ground arith)))
    | inr f ↦ rw f (rejected (ground arith))
  ],
  elim (Bool-cases (v == 1 || v == 2 || v == 3)) [
    | inl t ↦ rw t (accepted _ (ground arith, ground arith, set_type-FirstByte p v (ground arith)))
    | inr f ↦ rw f (rejected (type_out v f))
  ],
  elim (Bool-cases (v == 0 || Layout.type p == 1)) [
    | inl t ↦ rw t (_, refl, accepted _ (tr_in p v t, set_tr-FirstByte p v))
    | inr f ↦ rw f (_, refl, rejected (ground arith, ground arith))
  ],
)
  where
    type_out : (v : ℕ) → (v == 1 || v == 2 || v == 3) ≡ false → (v ≡ 0) ⊎ (3 < v)
    type_out v f = ground arith

    tr_in :
        (p : Pkt) (v : ℕ) → (v == 0 || Layout.type p == 1) ≡ true → (v ≡ 0) ⊎ (Layout.type p ≡ 1)
    tr_in p v t = ground arith

-- `pkt_set_payload` answers PKT_OK exactly for at most 512 bytes. It then writes the length and the
-- payload and no other byte of the packet; a longer payload changes nothing.
pub set_payload-Filled :
    (p : Pkt) (data' : Mem) (len : ℕ)
    → Sets p
        (λ q. (len ≤ 512) × Filled p q data' len)
        (512 < len)
        e_length
        (pkt_set_payload (some p) data' len)
set_payload-Filled p data' len = elim (Bool-cases (leb len 512)) [
  | inl t ↦ rw t (accepted _ (ground arith, filled (ground arith)))
  | inr f ↦ rw f (rejected (ground arith))
]
  where
    filled : len ≤ 512 → Filled p (copy (Layout.set_length p len) at_payload data' 0 len) data' len
    filled h = record {
      length = ground arith;
      payload = λ i lt. ground arith;
      header = λ i lt ne ne'. ground arith;
      behind = λ i le. ground arith;
    }
