-- ===== src/Transfer/Whole.antt =====
-- A transfer from the sender's file to the receiver's output.
use native.Mathlib.Decide.{dec_lt}
use project_transport_protoc.Prelude.{
  ℕ, suc, ◌+◌, ◌^◌, ◌<◌, ◌≤◌, ◌≡◌, ◌≢◌, Bool, List, [], ◌∷◌, All, Option, none, some, arith,
}
use project_transport_protoc.Prelude.Memory.{Mem, IsBytes}
use project_transport_protoc.Packet.Layout
use project_transport_protoc.Packet.Layout.{Pkt, ptype_data}
use project_transport_protoc.Packet.Codec.{Zlib}
use project_transport_protoc.Net.{
  net_ok, Link, Received, IsReceived, datagram, net_recvfrom, net_recv_pkt, pkt_len_serial,
}
use project_transport_protoc.Sender.{Sender}
use project_transport_protoc.Sender.Stream.{Streams, IsChunk}
use project_transport_protoc.Receiver.{Receiver, Output, would_block}
use project_transport_protoc.Receiver.Deliver.{Delivers, IsGenuine}
use project_transport_protoc.Receiver.Loop.{
  Poll, error, timeout, ready, Loop, running, completed, start, round,
}
use project_transport_protoc.Receiver.Rounds.{Answers}
use project_transport_protoc.Receiver.Rounds.Runs.{Rounds, Rounds-map, receive_completed}
use project_transport_protoc.Receiver.Rounds.First.{IsFirst, new_buffer}
use project_transport_protoc.Receiver.Rounds.Start.{start-Begins, Begins-Delivers}
use project_transport_protoc.Transfer.{chunk-IsGenuine, chunk-IsReceived, chunk-data}

-- What the network may do, when the receiver has written `n` chunks: deliver one of the `total`
-- packets as it was sent, as often and in whatever order it likes while the packet's number is within
-- 224 of `n`; or a datagram that the decoder drops, or takes for a data packet that was cut.
pub data Network (z : Zlib) (packets : ℕ → Pkt) (total n : ℕ) : Received → Type 0 where
  whole :
      (i : ℕ) (wire : Mem)
      → i < total
      → IsBytes wire
      → ((k : ℕ) → k < pkt_len_serial (packets i) → wire k ≡ packets i k)
      → n ≤ i + 224
      → i ≤ n + 224
      → Network z packets total n (datagram wire (pkt_len_serial (packets i)))
  spoiled :
      (r : Received)
      → IsReceived r
      → ((junk p : Pkt)
          → IsBytes junk
          → net_recvfrom z junk r ≡ (net_ok, p)
          → (Layout.type p ≡ ptype_data) × (0 < Layout.tr p))
      → Network z packets total n r

abbrev pub FromSocket : Zlib → (ℕ → Pkt) → ℕ → ℕ → ℕ → Poll → Type 0
FromSocket z packets total n c error = Unit {0}
FromSocket z packets total n c timeout = Unit {0}
FromSocket z packets total n c (ready none input) = Unit {0}
FromSocket z packets total n c (ready (some r) input) = (c ≡ 0) × Network z packets total n r

module _ (z : Zlib) where
  pub received_first :
      (junk p : Pkt) (r : Received) (expected_seq win_size : ℕ)
      → net_recv_pkt z junk r expected_seq win_size ≡ (net_ok, p)
      → net_recvfrom z junk r ≡ (net_ok, p)
  unfolding net_recv_pkt
  received_first junk p r expected_seq win_size h = ground arith

  module _ {file : ℕ → Mem × ℕ} {total : ℕ} (packets : ℕ → Pkt)
      (made : (i : ℕ) → i < total → IsChunk z i (file i).0 (file i).1 (packets i)) where
    pub Network-IsReceived : (n : ℕ) (r : Received) → Network z packets total n r → IsReceived r
    Network-IsReceived n r (whole i wire lt bytes same old new) =
        chunk-IsReceived z file i (packets i) (made i lt) wire bytes
    Network-IsReceived n r (spoiled r' wire never) = wire

    pub Network-IsGenuine :
        (n : ℕ) (r : Received) → Network z packets total n r → IsGenuine z file n r
    Network-IsGenuine n r (whole i wire lt bytes same old new) junk p win junk_bytes small ok dat
          clear =
        chunk-IsGenuine z file i (packets i) (made i lt) n wire bytes same old new junk p win
          junk_bytes small ok dat clear
    Network-IsGenuine n r (spoiled r' wire never) junk p win bytes small ok dat clear =
        absurd (omega (arith, (never junk p bytes (received_first junk p r _ win ok)).1, clear))

    Network-data :
        (junk p : Pkt) (r : Received)
        → Network z packets total 0 r
        → IsBytes junk
        → net_recvfrom z junk r ≡ (net_ok, p)
        → Layout.type p ≡ ptype_data
    Network-data junk p r (whole i wire lt bytes same old new) old_bytes ok =
        chunk-data z file i (packets i) (made i lt) junk p wire bytes same old_bytes ok
    Network-data junk p r (spoiled r' wire never) old_bytes ok = (never junk p old_bytes ok).0

    Network-IsFirst : (r : Received) → Network z packets total 0 r → IsFirst z file r
    Network-IsFirst r x = record {
      received = Network-IsReceived 0 r x;
      genuine = Network-IsGenuine 0 r x;
      dat = λ junk pkt old ok at. Network-data junk pkt r x old ok;
    }

    pub All-IsFirst :
        (rs : List Received) → All (Network z packets total 0) rs → All (IsFirst z file) rs
    All-IsFirst [] all = tt
    All-IsFirst (r ∷ rs) (x, all) = (Network-IsFirst r x, All-IsFirst rs all)

    pub FromSocket-Answers :
        (n c : ℕ) (p : Poll) → FromSocket z packets total n c p → Answers z file n c p
    FromSocket-Answers n c error x = tt
    FromSocket-Answers n c timeout x = tt
    FromSocket-Answers n c (ready none input) x = tt
    FromSocket-Answers n c (ready (some r) input) (e, x) =
        (e, Network-IsReceived n r x, Network-IsGenuine n r x)

  module _ {file : ℕ → Mem × ℕ} {total : ℕ} {s : Sender} (h : Streams z file total s) where
    -- No chunk but the last is empty.
    all_read : (i : ℕ) → (file i).1 ≡ 0 → total ≤ suc i
    all_read i end = elim (dec_lt (suc i) total) [
      | yes lt ↦ absurd (h.more i lt end)
      | no ge ↦ omega arith
    ]

    -- If the receiver, started on a new buffer of at most 32 slots, more than the largest window, and
    -- given only what the network makes of the sender's packets, leaves its loop, then it has written
    -- the chunks that the sender has read, in order, each once and all of them, to the empty one at
    -- the end. The output must not block, and no datagram may be read while a packet in sequence
    -- waits to be written.
    pub transfer_completed :
        (link : Link) (out : Output) (k max_window : ℕ) (getfd setfd : Option ℕ) (connects : Bool)
        (rs : List Received) {l l' : Loop} (p : Poll) (s' : Receiver)
        → k ≤ 5
        → max_window < 2 ^ k
        → ((ws : List (List ℕ)) (bytes : List ℕ) → out.write ws bytes ≢ would_block)
        → All (Network z h.packets total 0) rs
        → start z getfd setfd connects rs max_window (new_buffer (2 ^ k)) ≡ running l
        → Rounds z link out file (FromSocket z h.packets total) l l'
        → ((n c : ℕ) → Delivers file n c l'.receiver → FromSocket z h.packets total n c p)
        → round z link out p l' ≡ completed s'
        → (i : ℕ) × Delivers file (suc i) 0 s' × ((file i).1 ≡ 0) × (total ≤ suc i)
    transfer_completed link out k max_window getfd setfd connects rs {l} {l'} p s' le wide never
          first begun rounds good e =
        let (c, d) =
          Begins-Delivers
            (start-Begins z file k max_window le wide getfd setfd connects rs
              (All-IsFirst h.packets h.made rs first))
            begun in
        let w =
          receive_completed z link out file never p s' (0, c, d)
            (Rounds-map (FromSocket-Answers h.packets h.made) rounds)
            (λ n c' d'. FromSocket-Answers h.packets h.made n c' p (good n c' d')) e in
        (w.i, w.delivers, w.end, all_read w.i w.end)
