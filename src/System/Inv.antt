-- ===== src/System/Inv.antt =====
-- The invariant of the two programs and the network together.
use native.Mathlib.Nat.{pow-le-pow_right}
use native.Mathlib.Decide.{dec_lt}
use project_transport_protoc.Prelude.{ℕ, suc, ◌+◌, ◌^◌, ◌<◌, ◌≤◌, ◌≡◌, ◌≢◌, refl, All, arith}
use project_transport_protoc.Prelude.Memory.{Mem}
use project_transport_protoc.Packet.Layout.{Pkt}
use project_transport_protoc.Packet.Codec.{Zlib}
use project_transport_protoc.Pktbuf.{pktbuf_used}
use project_transport_protoc.Net.{Link}
use project_transport_protoc.Sender.{Sender}
use project_transport_protoc.Sender.Stream.{IsChunk, Streams}
use project_transport_protoc.Sender.Transmit
use project_transport_protoc.Sender.Rounds.{IsLoop}
use project_transport_protoc.Sender.Rounds.Complete.{first_loop-IsLoop}
use project_transport_protoc.Receiver.Loop
use project_transport_protoc.Receiver.Deliver.{Delivers}
use project_transport_protoc.Transfer.Cut.{cut}
use project_transport_protoc.System.{System, first_system}
use project_transport_protoc.System.Network.{Told}

module _ (z : Zlib) (file : ℕ → Mem × ℕ) where
  -- The sender's loop with the packets of the history, of which only those are freed whose chunks are
  -- written; or it has returned 0, with the file's end read and all chunks written.
  abbrev pub SenderAt : ℕ → (ℕ → Pkt) → ℕ → Transmit.Transfer → Type 0
  SenderAt total packets written (Transmit.running l) =
      (v : IsLoop z file total l) × ((i : ℕ) → i < total → v.stream.packets i ≡ packets i)
      × (v.stream.acked ≤ written)
  SenderAt total packets written (Transmit.completed s) =
      (n : ℕ) × (total ≡ suc n) × ((file n).1 ≡ 0) × (total ≤ written)
  SenderAt total packets written (Transmit.aborted s) = ⊥
  SenderAt total packets written (Transmit.ended r) = ⊥

  -- The receiver before its loop, in it, or behind it with the file's end written.
  abbrev pub ReceiverAt : ℕ → ℕ → Loop.Transfer → Type 0
  ReceiverAt total written Loop.connecting = written ≡ 0
  ReceiverAt total written (Loop.running l) =
      (c : ℕ) × Delivers (cut file total) written c l.receiver
  ReceiverAt total written (Loop.completed s) =
      (i : ℕ) × (written ≡ suc i) × ((file i).1 ≡ 0) × Delivers (cut file total) written 0 s
  ReceiverAt total written t = ⊥

  pub record Inv (sys : System) : Type 0 where
    pub made : (i : ℕ) → i < sys.total → IsChunk z i (file i).0 (file i).1 (sys.packets i)
    pub more : (i : ℕ) → suc i < sys.total → (file i).1 ≢ 0
    pub below : sys.written ≤ sys.total
    pub few : sys.total ≤ sys.written + 128
    pub told : All (Told z sys.written) sys.replies
    pub sender : SenderAt sys.total sys.packets sys.written sys.sender
    pub receiver : ReceiverAt sys.total sys.written sys.receiver

  -- No chunk but the last is empty.
  pub no_more : {sys : System} (v : Inv sys) (i : ℕ) → (file i).1 ≡ 0 → sys.total ≤ suc i
  no_more {sys} v i end = elim (dec_lt (suc i) sys.total) [
    | yes lt ↦ absurd (v.more i lt end)
    | no ge ↦ omega arith
  ]

  -- A power of two below 256.
  pub at_most_128 : (k : ℕ) → 2 ^ k < 256 → 2 ^ k ≤ 128
  at_most_128 k small = elim (dec_lt k 8) [
    | yes lt ↦ pow-le-pow_right {n = 2} (omega arith) {i = k} {j = 7} (omega arith)
    | no ge ↦
        let big : 2 ^ 8 ≤ 2 ^ k =
          pow-le-pow_right {n = 2} (omega arith) {i = 8} {j = k} (omega arith) in
        absurd (omega (arith, big))
  ]

  -- What the buffer of the sender holds.
  pub used_few :
      {total : ℕ} {s : Sender} (h : Streams z file total s) → pktbuf_used s.send_buf ≤ 128
  used_few h =
      let r = h.state.ring in
      let le = at_most_128 r.power (omega (arith, r.is_power, h.state.small)) in
      omega (arith, le, r.is_power, r.fits)

  pub first-Inv : (link : Link) (k : ℕ) → k ≤ 30 → 2 ^ k < 256 → Inv (first_system k)
  first-Inv link k le small = record {
    made = λ i lt. absurd (omega arith);
    more = λ i lt. absurd (omega arith);
    below = omega arith;
    few = omega arith;
    told = tt;
    sender =
        let v = first_loop-IsLoop z link file k le small in
        (v, λ i lt. absurd (omega arith), omega (arith, v.stream.used));
    receiver = refl;
  }
