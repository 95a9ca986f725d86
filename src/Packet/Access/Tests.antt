-- ===== src/Packet/Access/Tests.antt =====
-- The setters on a packet of zeroes.
use project_transport_protoc.Prelude.{ℕ, ◌≤◌, ◌<◌, ◌≡◌, ◌≢◌, ◌⊎◌, Option, some}
use project_transport_protoc.Packet.Layout.{Pkt, Status, e_type, e_tr, e_length, e_window}
use project_transport_protoc.Packet.Access.{
  pkt_set_type, pkt_set_tr, pkt_set_window, pkt_set_payload,
}
use project_transport_protoc.Packet.Access.Laws.{
  FirstByte, Filled, Sets, set-FirstByte, set_payload-Filled,
}

abbrev zeroes : Pkt
zeroes i = 0

abbrev ones : Pkt
ones i = 1

set-FirstByte_example :
    Sets zeroes
      (λ q. (3 ≤ 31) × FirstByte zeroes q 3 0 0)
      (31 < 3)
      e_window
      (pkt_set_window (some zeroes) 3)
    × Sets zeroes
        (λ q. (0 < 3) × (3 ≤ 3) × FirstByte zeroes q 0 0 3)
        (◌≡◌ {A = ℕ} 3 0 ⊎ (3 < 3))
        e_type
        (pkt_set_type (some zeroes) 3)
    × ((r : Status × Option Pkt) × (pkt_set_tr (some zeroes) 3 ≡ some r)
        × Sets zeroes
            (λ q. (◌≡◌ {A = ℕ} 3 0 ⊎ ◌≡◌ {A = ℕ} 0 1) × FirstByte zeroes q 0 1 0)
            ((0 < 3) × ◌≢◌ {A = ℕ} 0 1)
            e_tr
            r)
set-FirstByte_example = set-FirstByte zeroes 3

set_payload-Filled_example :
    Sets zeroes
      (λ q. (2 ≤ 512) × Filled zeroes q ones 2)
      (512 < 2)
      e_length
      (pkt_set_payload (some zeroes) ones 2)
set_payload-Filled_example = set_payload-Filled zeroes ones 2
