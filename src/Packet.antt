-- ===== src/Packet.antt =====
-- common/packet_interface.h and common/packet_implem.c: the wire format, its accessors and codec.
pub mod Layout
pub mod Access
pub mod Describe
pub mod Codec
pub mod Tests
