-- ===== src/System/Progress.antt =====
-- What a round does in which the packet of the next chunk arrives.
use mathlib.Core.Path.{subst}
use project_transport_protoc.Prelude.{
  ℕ, suc, ◌+◌, ◌^◌, ◌<◌, ◌≤◌, ◌≡◌, ◌≢◌, Bool, false, List, some, arith, refl, ap,
}
use project_transport_protoc.Prelude.Memory.{Mem, IsBytes}
use project_transport_protoc.Packet.Codec.{Zlib}
use project_transport_protoc.Net.{Link, datagram, pkt_len_serial}
use project_transport_protoc.Receiver.{Receiver, Output, would_block, rbuf_full, can_empty_rbuf}
use project_transport_protoc.Receiver.Loop
use project_transport_protoc.Receiver.Deliver.{Delivers, output}
use project_transport_protoc.Receiver.Rounds
use project_transport_protoc.Receiver.Rounds.{Outcome}
use project_transport_protoc.Receiver.Rounds.Steps.{nothing_waits}
use project_transport_protoc.Receiver.Rounds.Finish.{next_round-Outcome}
use project_transport_protoc.Transfer.Arrives.{chunk-IsNext}
use project_transport_protoc.Transfer.Cut.{cut, cut-IsChunk}
use project_transport_protoc.Transfer.Whole.{Network-IsReceived, Network-IsGenuine}
use project_transport_protoc.System.{
  System, FromSender, whole, ReceiverGoes, progress, after_round, Step, receives, Reach, output_of,
  later,
}
use project_transport_protoc.System.Network.{FromSender-Network}
use project_transport_protoc.System.Inv.{ReceiverAt}
use project_transport_protoc.System.Safety.{Reach-Inv, output_lem, written_output}

progressed :
    {file : ℕ → Mem × ℕ} (m n : ℕ) (s : Receiver)
    → suc m ≤ n
    → n ≤ suc m + 32
    → Delivers file n 0 s
    → m < progress m s
progressed m n s more near d = omega (arith, d.state.expected)

Outcome-progress :
    {z : Zlib} {file : ℕ → Mem × ℕ} {s : Receiver} {t : Loop.Transfer} (sys : System)
    → Outcome z file (suc sys.written) s t
    → ReceiverGoes t
    → sys.written < (after_round s t sys).written
Outcome-progress sys (Rounds.goes_on n l le near d sent) goes =
    progressed sys.written n l.receiver le near d
Outcome-progress sys (Rounds.finished i s' le near d sent end empty) goes =
    progressed sys.written (suc i) s' le near d
Outcome-progress sys Rounds.gave_up goes = absurd goes

-- The socket gives the packet of the next chunk.
abbrev pub next_arrives : System → Mem → Bool → Loop.Poll
next_arrives sys wire input =
    Loop.ready (some (datagram wire (pkt_len_serial (sys.packets sys.written)))) input

module _ (z : Zlib) (file : ℕ → Mem × ℕ) (slink rlink : Link) (out : Output)
    (never : (ws : List (List ℕ)) (bytes : List ℕ) → out.write ws bytes ≢ would_block) where
  module _ {k r max_window : ℕ} (le : k ≤ 30) (small : 2 ^ k < 256) (few : r ≤ 5)
      (wide : max_window < 2 ^ r) where
    -- In every state that the programs and the network reach with a send buffer of fewer than 256
    -- slots, a receive buffer of at most 32, more than the largest window, and an output that does
    -- not block, by steps in which neither call gives up or ends by an error, no datagram is read
    -- by the receiver while a packet in sequence waits to be written, and what arrives there is
    -- dropped, counts as a cut data packet, or is a packet of the sender whose chunk is not 225 or
    -- more behind the chunks written, and what arrives at the sender is no ACK, or was sent by the
    -- receiver when no more than 255 chunks fewer were written than are read now: while `receive`
    -- runs, with nothing waiting and room in its buffer, its output is the file's first `written`
    -- chunks, and the network may deliver the packet of the next chunk that the sender has read;
    -- after a round in which it does, unless `receive` gives up, the output is the file's first
    -- chunks again, at least one more of them.
    pub next_chunk_written :
        {sys : System} (l : Loop.Loop) (wire : Mem) (input : Bool)
        → Reach z file slink rlink out k r max_window sys
        → sys.receiver ≡ Loop.running l
        → can_empty_rbuf l.receiver ≡ false
        → rbuf_full l.receiver ≡ false
        → sys.written < sys.total
        → IsBytes wire
        → ((i : ℕ)
            → i < pkt_len_serial (sys.packets sys.written)
            → wire i ≡ sys.packets sys.written i)
        → ReceiverGoes (Loop.round z rlink out (next_arrives sys wire input) l)
        → (let sys' =
              after_round l.receiver (Loop.round z rlink out (next_arrives sys wire input) l) sys in
            Step z file slink rlink out r max_window sys sys'
            × (sys.written < sys'.written)
            × (output_of sys.receiver ≡ some (output file sys.written))
            × (output_of sys'.receiver ≡ some (output file sys'.written)))
    next_chunk_written {sys} l wire input reach at idle room lt bytes same goes =
        let v = Reach-Inv z file slink rlink out never le small few wide reach in
        let (c, d) = subst (ReceiverAt z file sys.total sys.written) at v.receiver in
        let d0 : Delivers (cut file sys.total) sys.written 0 l.receiver =
          subst (λ j. Delivers (cut file sys.total) sys.written j l.receiver) (nothing_waits d idle)
            d in
        let made = λ (i : ℕ) (h : i < sys.total). cut-IsChunk file h (v.made i h) in
        let x : FromSender z sys.total sys.packets sys.written
            (datagram wire (pkt_len_serial (sys.packets sys.written))) =
          whole sys.written wire lt bytes same (omega arith) in
        let y = FromSender-Network z sys.total sys.written sys.packets _ v.few x in
        let step = receives (next_arrives sys wire input) l at (idle, x) goes in
        let more =
          Outcome-progress sys
            (next_round-Outcome z (cut file sys.total) rlink out sys.written l _ input never d0 room
              (Network-IsReceived z sys.packets made sys.written _ y)
              (Network-IsGenuine z sys.packets made sys.written _ y)
              (chunk-IsNext z (cut file sys.total) sys.written (sys.packets sys.written)
                (made sys.written lt) l.receiver.max_window wire bytes same))
            goes in
        let v' = Reach-Inv z file slink rlink out never le small few wide (later _ reach step) in
        (
          step,
          more,
          rw at (
              ap some (
                output_lem z file slink rlink out never le small few wide v (Loop.running l) _
                  (c, d) refl)),
          written_output z file slink rlink out never le small few wide v' _ (omega (arith, more))
              v'.receiver,
        )
