-- ===== src/Packet/Access.antt =====
-- The getters and setters of common/packet_implem.c. `none` is a NULL pointer.
pub mod Laws
mod Tests
use project_transport_protoc.Prelude.{ℕ, ◌%◌, Bool, not, if◌then◌else◌, Option, none, some}
use project_transport_protoc.Prelude.Memory.{Mem, copy}
use project_transport_protoc.Packet.Layout
use project_transport_protoc.Packet.Layout.{
  Pkt, Status, pkt_ok, e_type, e_tr, e_length, e_window, e_nomem, at_payload, valid_length,
  valid_window, valid_type, valid_tr,
}

-- `allocated` tells whether `calloc` gives memory, which is then zeroed.
abbrev pub pkt_new : Bool → Option Pkt
pkt_new allocated = if allocated then some (λ _. 0) else none

-- `ACCESSOR`
abbrev pub accessor : (Pkt → ℕ) → Option Pkt → ℕ
accessor field none = 0
accessor field (some pkt) = field pkt

abbrev pub pkt_get_type : Option Pkt → ℕ
pkt_get_type = accessor Layout.type

abbrev pub pkt_get_tr : Option Pkt → ℕ
pkt_get_tr = accessor Layout.tr

abbrev pub pkt_get_window : Option Pkt → ℕ
pkt_get_window = accessor Layout.window

abbrev pub pkt_get_seqnum : Option Pkt → ℕ
pkt_get_seqnum = accessor Layout.seq

abbrev pub pkt_get_length : Option Pkt → ℕ
pkt_get_length = accessor Layout.length

abbrev pub pkt_get_timestamp : Option Pkt → ℕ
pkt_get_timestamp = accessor Layout.ts

abbrev pub pkt_get_crc1 : Option Pkt → ℕ
pkt_get_crc1 = accessor Layout.crc1

abbrev pub pkt_get_crc2 : Option Pkt → ℕ
pkt_get_crc2 = accessor Layout.crc2

-- `SETTER`
abbrev pub setter : (Pkt → ℕ → Pkt) → Option Pkt → ℕ → Status × Option Pkt
setter set none val = (e_nomem, none)
setter set (some pkt) val = (pkt_ok, some (set pkt val))

abbrev pub pkt_set_type : Option Pkt → ℕ → Status × Option Pkt
pkt_set_type pkt type =
    if not (valid_type type) then (e_type, pkt) else setter Layout.set_type pkt type

-- The type is read before the test for NULL: `none` is that read.
abbrev pub pkt_set_tr : Option Pkt → ℕ → Option (Status × Option Pkt)
pkt_set_tr none tr = none
pkt_set_tr (some pkt) tr =
    if not (valid_tr (Layout.type pkt) tr)
    then some (e_tr, some pkt)
    else some (setter Layout.set_tr (some pkt) tr)

abbrev pub pkt_set_window : Option Pkt → ℕ → Status × Option Pkt
pkt_set_window pkt window =
    if not (valid_window window) then (e_window, pkt) else setter Layout.set_window pkt window

abbrev pub pkt_set_seqnum : Option Pkt → ℕ → Status × Option Pkt
pkt_set_seqnum = setter Layout.set_seq

abbrev pub pkt_set_length : Option Pkt → ℕ → Status × Option Pkt
pkt_set_length pkt length =
    if not (valid_length length) then (e_length, pkt) else setter Layout.set_length pkt length

abbrev pub pkt_set_timestamp : Option Pkt → ℕ → Status × Option Pkt
pkt_set_timestamp = setter Layout.set_ts

abbrev pub pkt_set_crc1 : Option Pkt → ℕ → Status × Option Pkt
pkt_set_crc1 = setter Layout.set_crc1

abbrev pub pkt_set_crc2 : Option Pkt → ℕ → Status × Option Pkt
pkt_set_crc2 = setter Layout.set_crc2

abbrev pub copy_payload : Mem → ℕ → Status × Option Pkt → Status × Option Pkt
copy_payload data' length (pkt_ok, some pkt) = (pkt_ok, some (copy pkt at_payload data' 0 length))
copy_payload data' length (s, pkt) = (s, pkt)

abbrev pub pkt_set_payload : Option Pkt → Mem → ℕ → Status × Option Pkt
pkt_set_payload pkt data' length = copy_payload data' length (pkt_set_length pkt length)
