-- ===== src/Pktbuf.antt =====
-- common/pktbuf.h and common/pktbuf.c: the circular packet buffer. A `pkt_t*` into the buffer is
-- the number of its slot; `none` is NULL for a pointer, and `exit(EXIT_FAILURE)` for a function
-- with an `ASSERT_ALWAYS`. `ASSERT` is empty outside the debug build, and is not modelled.
pub mod Inv
pub mod Create
pub mod Queue
pub mod Reserve
pub mod Slotfor
mod Tests
use project_transport_protoc.Prelude.{
  ℕ, zero, suc, ◌+◌, ◌-◌, ◌*◌, ◌/◌, ◌%◌, ◌^◌, Bool, not, ◌==◌, ltb, leb, if◌then◌else◌, Option,
  none, some, bit_and,
}
use project_transport_protoc.Packet.Layout
use project_transport_protoc.Packet.Layout.{Pkt}

-- `pktbuf_t`
pub record Pktbuf : Type 0 where
  pub first : ℕ
  pub last : ℕ
  pub capacity : ℕ
  pub head : ℕ → Pkt

-- `uint32_t` addition and subtraction
abbrev pub add_u32 : ℕ → ℕ → ℕ
add_u32 a b = (a + b) % 2 ^ 32

abbrev pub sub_u32 : ℕ → ℕ → ℕ
sub_u32 a b = (a + 2 ^ 32 - b) % 2 ^ 32

-- `uint8_t` subtraction
abbrev pub sub_u8 : ℕ → ℕ → ℕ
sub_u8 a b = (a + 256 - b) % 256

unfoldable pub mask_index : ℕ → Pktbuf → ℕ
mask_index i buf = bit_and i (sub_u32 buf.capacity 1)

abbrev pub first_item : Pktbuf → ℕ
first_item buf = mask_index buf.first buf

abbrev pub last_item : Pktbuf → ℕ
last_item buf = mask_index (sub_u32 buf.last 1) buf

abbrev pub pktbuf_empty : Pktbuf → Bool
pktbuf_empty buf = buf.first == buf.last

abbrev pub pktbuf_used : Pktbuf → ℕ
pktbuf_used buf = sub_u32 buf.last buf.first

abbrev pub pktbuf_freeslots : Pktbuf → ℕ
pktbuf_freeslots buf = sub_u32 buf.capacity (pktbuf_used buf)

abbrev pub pktbuf_full : Pktbuf → Bool
pktbuf_full buf = leb buf.capacity (pktbuf_used buf)

-- `*slot = pkt`
abbrev pub set_slot : Pktbuf → ℕ → Pkt → Pktbuf
set_slot buf slot pkt = record buf { head = λ i. if i == slot then pkt else buf.head i }

-- `__builtin_popcount`: the ones among the lowest `n` bits, 32 of them in an `unsigned int`.
unfoldable pub popcount : ℕ → ℕ → ℕ
popcount zero x = 0
popcount (suc n) x = x % 2 + popcount n (x / 2)

-- What `pktbuf_new` ends in.
pub data New : Type 0 where
  exit_failure null : New
  buffer : Pktbuf → New

-- `allocated` tells whether `calloc` gives memory, which is then zeroed.
unfoldable pub pktbuf_new : Bool → ℕ → New
pktbuf_new allocated capacity =
    if not (popcount 32 capacity == 1)
    then exit_failure
    else if not (leb capacity ((2 ^ 32 - 1) / 2))
    then exit_failure
    else if not allocated
    then null
    else buffer (record { first = 0; last = 0; capacity = capacity; head = λ _ _. 0 })

unfoldable pub pktbuf_first : Pktbuf → Option ℕ
pktbuf_first buf = if not (pktbuf_empty buf) then some (mask_index (first_item buf) buf) else none

unfoldable pub pktbuf_last : Pktbuf → Option ℕ
pktbuf_last buf = if not (pktbuf_empty buf) then some (mask_index (last_item buf) buf) else none

unfoldable pub pktbuf_at : Pktbuf → ℕ → Option ℕ
pktbuf_at buf idx =
    if ltb (mask_index idx buf) (pktbuf_used buf) then some (mask_index idx buf) else none

unfoldable pub pktbuf_dequeue : Pktbuf → ℕ × Pktbuf
pktbuf_dequeue buf = (mask_index buf.first buf, record buf { first = add_u32 buf.first 1 })

unfoldable pub pktbuf_enqueue : Pktbuf → ℕ × Pktbuf
pktbuf_enqueue buf = (mask_index buf.last buf, record buf { last = add_u32 buf.last 1 })

-- `pktbuf_enqueue(buf)->seq = seqnum`
unfoldable pub enqueue_seq : Pktbuf → ℕ → Pktbuf
enqueue_seq buf seqnum =
    let (slot, buf') = pktbuf_enqueue buf in
    set_slot buf' slot (Layout.set_seq (buf'.head slot) seqnum)

-- Lines 78 to 82, on fuel: a round adds a slot, and `offset + 1` slots are enough.
unfoldable pub reserve : ℕ → Pktbuf → ℕ → ℕ → Pktbuf
reserve zero buf first_seq offset = buf
reserve (suc fuel) buf first_seq offset =
    let (slot, buf') = pktbuf_enqueue buf in
    let named : Pktbuf =
      set_slot buf' slot
        (Layout.set_seq (buf'.head slot) (sub_u32 (add_u32 first_seq (pktbuf_used buf')) 1)) in
    let rest = reserve fuel named first_seq offset in
    if ltb offset (pktbuf_used buf) then buf else rest

-- Lines 67 to 88, on a buffer that is not empty.
unfoldable pub slot_from_first : Pktbuf → ℕ → Option (ℕ × Pktbuf)
slot_from_first buf seqnum =
    let first_seq : ℕ = Layout.seq (buf.head (mask_index (first_item buf) buf)) in
    let offset : ℕ = sub_u8 seqnum first_seq in
    let extended : Pktbuf = reserve (offset + 1) buf first_seq offset in
    if leb offset buf.capacity
    then some (mask_index (add_u32 (first_item extended) offset) extended, extended)
    else none

unfoldable pub pktbuf_slotfor_seq : Pktbuf → ℕ → Option (ℕ × Pktbuf)
pktbuf_slotfor_seq buf seqnum =
    slot_from_first (if pktbuf_empty buf then enqueue_seq buf seqnum else buf) seqnum
