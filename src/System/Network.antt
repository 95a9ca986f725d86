-- ===== src/System/Network.antt =====
-- What the network delivers: never data of another chunk, and no acknowledgement of a chunk that was
-- not written.
use project_transport_protoc.Prelude.{
  ℕ, ◌+◌, ◌%◌, ◌<◌, ◌≤◌, ◌≡◌, sym, ap, ◌∙◌, List, [], ◌∷◌, All, arith,
}
use project_transport_protoc.Prelude.Memory.{Mem, IsBytes}
use project_transport_protoc.Packet.Layout
use project_transport_protoc.Packet.Layout.{Pkt, ptype_ack, pkt_len}
use project_transport_protoc.Packet.Codec.{Zlib}
use project_transport_protoc.Packet.Codec.Transfer.{Same, Decoded-Same}
use project_transport_protoc.Pktbuf.{sub_u8}
use project_transport_protoc.Net.{
  net_ok, Datagram, Received, IsReceived, datagram, net_recv_pkt, pkt_len_serial,
}
use project_transport_protoc.Net.Window.{arrived, recv-Accepted}
use project_transport_protoc.Sender.Stream.{AcksBelow}
use project_transport_protoc.Receiver.Replies.{IsReply}
use project_transport_protoc.Transfer.Whole
use project_transport_protoc.Transfer.Whole.{Network, received_first}
use project_transport_protoc.System.{
  FromSender, FromReceiver, whole, spoiled, reply, no_reply, Among, at_head, behind,
}

-- A reply that was sent when `m` chunks were written, of at most `n`.
abbrev pub Told : Zlib → ℕ → ℕ × Datagram → Type 0
Told z n (m, d) = (m ≤ n) × IsReply z m d

pub All-Among : {A : Type 0} (P : A → Type 0) {x : A} {xs : List A} → Among x xs → All P xs → P x
All-Among P at_head (p, all) = p
All-Among P (behind at) (p, all) = All-Among P at all

module _ (z : Zlib) where
  reply_len : (n : ℕ) (d : Datagram) (r : IsReply z n d) → d.plen ≡ pkt_len r.host
  unfolding pkt_len_serial
  reply_len n d r =
      ap (λ (e : Datagram). e.plen) r.here
      ∙ ground (arith, r.empty, r.encoded.length, r.bytes 2, r.bytes 3)

  pub reply_pkt : (n : ℕ) (d : Datagram) (r : IsReply z n d) → d.pkt ≡ r.pkt
  reply_pkt n d r = ap (λ (e : Datagram). e.pkt) r.here

  reply-IsReceived :
      (n : ℕ) (d : Datagram) (r : IsReply z n d) (wire : Mem)
      → IsBytes wire
      → IsReceived (datagram wire d.plen)
  reply-IsReceived n d r wire bytes = (bytes, ground (arith, reply_len n d r, r.sendable.small))

  -- What is decoded from the reply.
  reply-Same :
      (n : ℕ) (d : Datagram) (r : IsReply z n d) (junk p : Pkt) (wire : Mem)
      (expected_seq win_size : ℕ)
      → IsBytes wire
      → ((k : ℕ) → k < d.plen → wire k ≡ d.pkt k)
      → IsBytes junk
      → net_recv_pkt z junk (datagram wire d.plen) expected_seq win_size ≡ (net_ok, p)
      → Same r.host p × (sub_u8 (Layout.seq p) expected_seq ≤ win_size)
  reply-Same n d r junk p wire expected_seq win_size bytes same old ok =
      let a =
        recv-Accepted z junk wire d.plen expected_seq win_size p old
          (reply-IsReceived n d r wire bytes) ok in
      (
        Decoded-Same z (arrived junk wire d.plen) r.sendable r.encoded
            (λ k h. ground (arith, reply_len n d r, same k, ap (λ q. q k) (reply_pkt n d r)))
            a.decoded,
        a.in_window,
      )

  -- When `acked` packets are acknowledged and `used` are in the buffer, a reply acknowledges no more
  -- packets than chunks were written when it was sent.
  pub FromReceiver-AcksBelow :
      (total written acked used : ℕ) (replies : List (ℕ × Datagram)) (r : Received)
      → FromReceiver z total replies r
      → All (Told z written) replies
      → acked + used ≡ total
      → acked ≤ written
      → AcksBelow z acked used written r
  FromReceiver-AcksBelow total written acked used replies r (reply m d wire at bytes same young)
        told sum le junk p win old small ok kind =
      let (most, x) = All-Among (Told z written) at told in
      let (y, near) = reply-Same m d x junk p wire (acked % 256) win bytes same old ok in
      let number : Layout.seq p ≡ m % 256 = y.seq ∙ x.number (sym y.type ∙ kind) in
      omega (arith, number, near)
  FromReceiver-AcksBelow total written acked used replies r (no_reply r' wire never) told sum le
        junk p win old small ok kind =
      absurd (never junk p old (received_first z junk p r _ win ok) kind)

  pub FromReceiver-IsReceived :
      (total written : ℕ) (replies : List (ℕ × Datagram)) (r : Received)
      → FromReceiver z total replies r
      → All (Told z written) replies
      → IsReceived r
  FromReceiver-IsReceived total written replies r (reply m d wire at bytes same young) told =
      let (most, x) = All-Among (Told z written) at told in reply-IsReceived m d x wire bytes
  FromReceiver-IsReceived total written replies r (no_reply r' wire never) told = wire

  -- The packets are not too far ahead of what is written.
  pub FromSender-Network :
      (total written : ℕ) (packets : ℕ → Pkt) (r : Received)
      → total ≤ written + 128
      → FromSender z total packets written r
      → Network z packets total written r
  FromSender-Network total written packets r few (whole i wire lt bytes same young) =
      Whole.whole i wire lt bytes same young (omega arith)
  FromSender-Network total written packets r few (spoiled r' wire never) =
      Whole.spoiled r' wire never

  pub All-Network :
      (total written : ℕ) (packets : ℕ → Pkt) (rs : List Received)
      → total ≤ written + 128
      → All (FromSender z total packets written) rs
      → All (Network z packets total written) rs
  All-Network total written packets [] few all = tt
  All-Network total written packets (r ∷ rs) few (x, all) = (
    FromSender-Network total written packets r few x,
    All-Network total written packets rs few all,
  )
