-- ===== src/Sender/Stream.antt =====
-- The sender as a stream: the packets made from the chunks of a file, in order, of which the buffer
-- holds those that are not acknowledged.
pub mod Acks
pub mod Reads
use project_transport_protoc.Prelude.{
  ℕ, zero, suc, ◌+◌, ◌%◌, ◌^◌, ◌<◌, ◌≤◌, ◌≡◌, ◌≢◌, refl, sym, ap, ◌∙◌, List, [], ◌∷◌, All, Option,
  none, some, arith,
}
use project_transport_protoc.Prelude.Memory.{Mem, IsBytes}
use project_transport_protoc.Packet.Layout
use project_transport_protoc.Packet.Layout.{Pkt, ptype_data, ptype_ack}
use project_transport_protoc.Packet.Codec.{Zlib}
use project_transport_protoc.Packet.Codec.Encode.{Encoded}
use project_transport_protoc.Packet.Codec.Transfer.{IsSendable}
use project_transport_protoc.Pktbuf.{Pktbuf, pktbuf_used, sub_u8}
use project_transport_protoc.Pktbuf.Inv.{nth}
use project_transport_protoc.Net.{Datagram, Received, net_ok, net_recv_pkt}
use project_transport_protoc.Sender.{Sender}
use project_transport_protoc.Sender.Inv.{IsSender, flight}
use project_transport_protoc.Sender.Send.{on_wire, burst}

-- `pkt` is, in network order, the data packet of number `i` for the `len` bytes of `chunk`.
pub record IsChunk (z : Zlib) (i : ℕ) (chunk : Mem) (len : ℕ) (pkt : Pkt) : Type 0 where
  pub host : Pkt
  pub sendable : IsSendable host
  pub encoded : Encoded z host pkt
  pub bytes : IsBytes pkt
  pub type : Layout.type host ≡ ptype_data
  pub seq : Layout.seq host ≡ i % 256
  pub length : Layout.length host ≡ len
  pub payload : (k : ℕ) → k < len → host (12 + k) ≡ chunk k

-- A datagram of one of the first `total` packets.
abbrev pub OneOf : (ℕ → Pkt) → ℕ → Datagram → Type 0
OneOf packets total d = (i : ℕ) × (i < total) × (d ≡ on_wire (packets i))

-- `read` has answered the first `total` chunks of `file`, of which `acked` are acknowledged.
pub record Streams (z : Zlib) (file : ℕ → Mem × ℕ) (total : ℕ) (s : Sender) : Type 0 where
  pub packets : ℕ → Pkt
  pub acked : ℕ
  pub state : IsSender s
  pub used : acked + pktbuf_used s.send_buf ≡ total
  pub ack : s.last_ack ≡ acked % 256
  pub last : s.send_buf.last ≡ total % 2 ^ 32
  pub made : (i : ℕ) → i < total → IsChunk z i (file i).0 (file i).1 (packets i)
  pub kept : (j : ℕ) → j < pktbuf_used s.send_buf → nth s.send_buf j ≡ packets (acked + j)
  -- A slot below `total` has been filled, also when its packet is acknowledged by now.
  pub filled :
      (j : ℕ)
      → j < total
      → j < s.send_buf.capacity
      → (i : ℕ) × (i < total) × (s.send_buf.head j ≡ packets i)
  pub clean : (j : ℕ) → IsBytes (s.send_buf.head j) × (Layout.tr (s.send_buf.head j) ≡ 0)
  pub trace : All (OneOf packets total) s.sent
  pub fresh : total ≡ 0 → s.last_in_read ≡ none
  pub read : (i : ℕ) → total ≡ suc i → s.last_in_read ≡ some (file i).1
  pub more : (i : ℕ) → suc i < total → (file i).1 ≢ 0

-- What arrives may acknowledge no packet from number `top` on, when `acked` are acknowledged and `used`
-- are in the buffer.
abbrev pub AcksBelow : Zlib → ℕ → ℕ → ℕ → Received → Type 0
AcksBelow z acked used top received =
    (junk p : Pkt) (win : ℕ)
    → IsBytes junk
    → win ≤ used
    → net_recv_pkt z junk received (acked % 256) win ≡ (net_ok, p)
    → Layout.type p ≡ ptype_ack
    → acked + sub_u8 (Layout.seq p) (acked % 256) ≤ top

-- The stream goes on: the packets made before stay, a new one is in the slot of its number, and no
-- packet is acknowledged that was neither before nor may be by what has arrived.
pub record Follows {z : Zlib} {file : ℕ → Mem × ℕ} {total total' : ℕ} {s s' : Sender}
    (may : ℕ → Type 0) (h : Streams z file total s) (h' : Streams z file total' s') : Type 0 where
  pub agree : (i : ℕ) → i < total → h'.packets i ≡ h.packets i
  pub newest : total < total' → h'.packets total ≡ s'.send_buf.head (total % s'.send_buf.capacity)
  pub bound : (top : ℕ) → h.acked ≤ top → may top → h'.acked ≤ top

-- What a handler does that changes neither the buffer nor the acknowledgements.
unfoldable pub Streams-same :
    {z : Zlib} {file : ℕ → Mem × ℕ} {total : ℕ} {s : Sender} (s' : Sender)
    (h : Streams z file total s)
    → IsSender s'
    → s'.send_buf ≡ s.send_buf
    → s'.last_ack ≡ s.last_ack
    → s'.last_in_read ≡ s.last_in_read
    → All (OneOf h.packets total) s'.sent
    → Streams z file total s'
Streams-same s' h v buf ack read trace = record {
  packets = h.packets;
  acked = h.acked;
  state = v;
  used = rw buf h.used;
  ack = ack ∙ h.ack;
  last = rw buf h.last;
  made = h.made;
  kept = rw buf h.kept;
  filled = rw buf h.filled;
  clean = rw buf h.clean;
  trace = trace;
  fresh = λ e. read ∙ h.fresh e;
  read = λ i e. read ∙ h.read i e;
  more = h.more;
}

module _ {z : Zlib} {file : ℕ → Mem × ℕ} {may : ℕ → Type 0} where
  pub Follows-refl : {total : ℕ} {s : Sender} (h : Streams z file total s) → Follows may h h
  Follows-refl h = record {
    agree = λ i lt. refl;
    newest = λ lt. absurd (omega arith);
    bound = λ top le known. le;
  }

  pub same-Follows :
      {total total' : ℕ} {s s1 s2 : Sender} {h : Streams z file total s}
      {h1 : Streams z file total' s1} (v : IsSender s2) (buf : s2.send_buf ≡ s1.send_buf)
      (ack : s2.last_ack ≡ s1.last_ack) (read : s2.last_in_read ≡ s1.last_in_read)
      (trace : All (OneOf h1.packets total') s2.sent)
      → Follows may h h1
      → Follows may h (Streams-same s2 h1 v buf ack read trace)
  unfolding Streams-same
  same-Follows {total} v buf ack read trace f = record {
    agree = f.agree;
    newest = λ lt. f.newest lt ∙ ap (λ b. b.head (total % b.capacity)) (sym buf);
    bound = f.bound;
  }

All-burst :
    (P : Datagram → Type 0) (b : Pktbuf) (i k : ℕ) (ws : List Datagram)
    → ((j : ℕ) → i ≤ j → j < i + k → P (on_wire (nth b j)))
    → All P ws
    → All P (burst b i k ws)
All-burst P b i zero ws each all = all
All-burst P b i (suc k) ws each all =
    All-burst P b (i + 1) k (on_wire (nth b i) ∷ ws) (λ j lo hi. each j (omega arith) (omega arith))
      (each i (omega arith) (omega arith), all)

-- Packets of the buffer that are sent are packets of the stream.
pub burst-OneOf :
    {z : Zlib} {file : ℕ → Mem × ℕ} {total : ℕ} {s : Sender} (h : Streams z file total s) (i k : ℕ)
    → i + k ≤ pktbuf_used s.send_buf
    → All (OneOf h.packets total) (burst s.send_buf i k s.sent)
burst-OneOf {total = total} {s = s} h i k le =
    All-burst (OneOf h.packets total) s.send_buf i k s.sent
      (λ j lo hi. (h.acked + j, omega (arith, h.used), ap on_wire (h.kept j (omega arith)))) h.trace
