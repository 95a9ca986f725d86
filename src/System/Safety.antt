-- ===== src/System/Safety.antt =====
-- What holds in every state that the two programs reach together.
use mathlib.Core.Path.{subst}
use native.Mathlib.Decide.{dec_lt}
use project_transport_protoc.Prelude.{
  ℕ, suc, ◌+◌, ◌^◌, ◌<◌, ◌≤◌, ◌≡◌, ◌≢◌, refl, sym, ap, ◌∙◌, List, some, arith, ◌⊎◌, inl, inr,
}
use project_transport_protoc.Prelude.Memory.{Mem}
use project_transport_protoc.Packet.Codec.{Zlib}
use project_transport_protoc.Pktbuf.{pktbuf_used}
use project_transport_protoc.Net.{Link}
use project_transport_protoc.Sender.{Sender}
use project_transport_protoc.Sender.Transmit
use project_transport_protoc.Receiver.{Receiver, Output, would_block}
use project_transport_protoc.Receiver.Deliver.{output}
use project_transport_protoc.Receiver.Loop
use project_transport_protoc.Transfer.Cut.{output-cut}
use project_transport_protoc.System.{
  System, output_of, Step, sends, starts, receives, lingers, Reach, begin, later,
}
use project_transport_protoc.System.Inv.{Inv, SenderAt, ReceiverAt, first-Inv, no_more}
use project_transport_protoc.System.Sends.{sends-Inv}
use project_transport_protoc.System.Receives.{starts-Inv, receives-Inv, lingers-Inv}

module _ (z : Zlib) (file : ℕ → Mem × ℕ) (slink rlink : Link) (out : Output)
    (never : (ws : List (List ℕ)) (bytes : List ℕ) → out.write ws bytes ≢ would_block) where
  Step-Inv :
      {r max_window : ℕ} {sys sys' : System}
      → r ≤ 5
      → max_window < 2 ^ r
      → Inv z file sys
      → Step z file slink rlink out r max_window sys sys'
      → Inv z file sys'
  Step-Inv few wide v (sends junk p l at old x goes) =
      sends-Inv z file v slink junk p l at old x goes
  Step-Inv {r} {max_window} few wide v (starts getfd setfd connects rs l at arrived begun) =
      starts-Inv z file v r max_window getfd setfd connects rs l few wide at arrived begun
  Step-Inv few wide v (receives p l at x goes) = receives-Inv z file v rlink out p l never at x goes
  Step-Inv few wide v (lingers s s' at run) = lingers-Inv z file v rlink out s s' at run

  module _ {k r max_window : ℕ} (le : k ≤ 30) (small : 2 ^ k < 256) (few : r ≤ 5)
      (wide : max_window < 2 ^ r) where
    -- With a send buffer of fewer than 256 slots, a receive buffer of at most 32, more than the largest
    -- window, and an output that does not block, the invariant holds in every state that the programs
    -- and the network reach.
    pub Reach-Inv :
        {sys : System} → Reach z file slink rlink out k r max_window sys → Inv z file sys
    Reach-Inv begin = first-Inv z file slink k le small
    Reach-Inv (later sys' before step) = Step-Inv few wide (Reach-Inv before) step

    -- The receiver's output, in its loop or behind it, is the file's first chunks.
    pub output_lem :
        {sys : System} (v : Inv z file sys) (t : Loop.Transfer) (ws : List (List ℕ))
        → ReceiverAt z file sys.total sys.written t
        → output_of t ≡ some ws
        → ws ≡ output file sys.written
    output_lem v Loop.connecting ws x e = cc
    output_lem v Loop.aborted ws x e = cc
    output_lem v (Loop.ended r) ws x e = cc
    output_lem {sys} v (Loop.running l) ws (c, d) e =
        let same : l.receiver.written ≡ ws = cc in
        sym same ∙ d.written ∙ output-cut file sys.total sys.written v.below
    output_lem {sys} v (Loop.completed s) ws (i, all, end, d) e =
        let same : s.written ≡ ws = cc in
        sym same ∙ d.written ∙ output-cut file sys.total sys.written v.below

    -- In every state that the programs and the network reach with a send buffer of fewer than 256
    -- slots, a receive buffer of at most 32, more than the largest window, and an output that does
    -- not block, by steps in which neither call gives up or ends by an error, no datagram is read
    -- by the receiver while a packet in sequence waits to be written, and what arrives there is
    -- dropped, counts as a cut data packet, or is a packet of the sender whose chunk is not 225 or
    -- more behind the chunks written, and what arrives at the sender is no ACK, or was sent by the
    -- receiver when no more than 255 chunks fewer were written than are read now: from its first
    -- packet on, the receiver's output is exactly the file's first `written` chunks, each once and
    -- in order, of which the sender has read all, and at most 128 more.
    pub output_in_order :
        {sys : System} (ws : List (List ℕ))
        → Reach z file slink rlink out k r max_window sys
        → output_of sys.receiver ≡ some ws
        → (ws ≡ output file sys.written)
          × (sys.written ≤ sys.total)
          × (sys.total ≤ sys.written + 128)
    output_in_order {sys} ws reach at =
        let v = Reach-Inv reach in (output_lem v sys.receiver ws v.receiver at, v.below, v.few)

    pub written_output :
        {sys : System} (v : Inv z file sys) (t : Loop.Transfer)
        → 0 < sys.written
        → ReceiverAt z file sys.total sys.written t
        → output_of t ≡ some (output file sys.written)
    written_output v Loop.connecting pos x = absurd (omega (arith, x))
    written_output v Loop.aborted pos x = absurd x
    written_output v (Loop.ended r) pos x = absurd x
    written_output v (Loop.running l) pos x =
        ap some (output_lem v (Loop.running l) l.receiver.written x refl)
    written_output v (Loop.completed s) pos x =
        ap some (output_lem v (Loop.completed s) s.written x refl)

    pub output_so_far :
        {sys : System}
        → Inv z file sys
        → (sys.written ≡ 0) ⊎ (output_of sys.receiver ≡ some (output file sys.written))
    output_so_far {sys} v = elim (dec_lt 0 sys.written) [
      | yes pos ↦ inr (written_output v sys.receiver pos v.receiver)
      | no none_yet ↦ inl (omega arith)
    ]

    -- In every state that the programs and the network reach with a send buffer of fewer than 256
    -- slots, a receive buffer of at most 32, more than the largest window, and an output that does
    -- not block, by steps in which neither call gives up or ends by an error, no datagram is read
    -- by the receiver while a packet in sequence waits to be written, and what arrives there is
    -- dropped, counts as a cut data packet, or is a packet of the sender whose chunk is not 225 or
    -- more behind the chunks written, and what arrives at the sender is no ACK, or was sent by the
    -- receiver when no more than 255 chunks fewer were written than are read now: while `transmit`
    -- runs, the chunks that are read and not written are no more than the packets that the sender
    -- still holds, so that none is freed before its chunk is written; the receiver's output is the
    -- file's first `written` chunks, once there is one.
    pub freed_written :
        {sys : System} (l : Transmit.Loop)
        → Reach z file slink rlink out k r max_window sys
        → sys.sender ≡ Transmit.running l
        → (sys.total ≤ sys.written + pktbuf_used l.sender.send_buf)
          × ((sys.written ≡ 0) ⊎ (output_of sys.receiver ≡ some (output file sys.written)))
    freed_written {sys} l reach at =
        let v = Reach-Inv reach in
        let (w, _, le) = subst (SenderAt z file sys.total sys.packets sys.written) at v.sender in
        (omega (arith, w.stream.used, le), output_so_far v)

    -- In every state that the programs and the network reach with a send buffer of fewer than 256
    -- slots, a receive buffer of at most 32, more than the largest window, and an output that does
    -- not block, by steps in which neither call gives up or ends by an error, no datagram is read
    -- by the receiver while a packet in sequence waits to be written, and what arrives there is
    -- dropped, counts as a cut data packet, or is a packet of the sender whose chunk is not 225 or
    -- more behind the chunks written, and what arrives at the sender is no ACK, or was sent by the
    -- receiver when no more than 255 chunks fewer were written than are read now: when `transmit`
    -- has returned 0, it has read the file to an empty chunk, and the receiver's output is the
    -- whole of it.
    pub transmit_delivers :
        {sys : System} (s : Sender)
        → Reach z file slink rlink out k r max_window sys
        → sys.sender ≡ Transmit.completed s
        → (n : ℕ) × (sys.total ≡ suc n)
          × ((file n).1 ≡ 0)
          × (output_of sys.receiver ≡ some (output file (suc n)))
    transmit_delivers {sys} s reach at =
        let v = Reach-Inv reach in
        let (n, all, end, le) =
          subst (SenderAt z file sys.total sys.packets sys.written) at v.sender in
        let same : sys.written ≡ suc n = omega (arith, all, le, v.below) in
        (
          n,
          all,
          end,
          written_output v sys.receiver (omega (arith, same)) v.receiver
              ∙ ap (λ i. some (output file i)) same,
        )

    -- In every state that the programs and the network reach with a send buffer of fewer than 256
    -- slots, a receive buffer of at most 32, more than the largest window, and an output that does
    -- not block, by steps in which neither call gives up or ends by an error, no datagram is read
    -- by the receiver while a packet in sequence waits to be written, and what arrives there is
    -- dropped, counts as a cut data packet, or is a packet of the sender whose chunk is not 225 or
    -- more behind the chunks written, and what arrives at the sender is no ACK, or was sent by the
    -- receiver when no more than 255 chunks fewer were written than are read now: when `receive`
    -- has left its loop, its output is the whole file, which the sender has read to the empty chunk
    -- at the end.
    pub receive_delivers :
        {sys : System} (s : Receiver)
        → Reach z file slink rlink out k r max_window sys
        → sys.receiver ≡ Loop.completed s
        → (n : ℕ) × (sys.total ≡ suc n) × ((file n).1 ≡ 0) × (s.written ≡ output file sys.total)
    receive_delivers {sys} s reach at =
        let v = Reach-Inv reach in
        let (i, all, end, d) = subst (ReceiverAt z file sys.total sys.written) at v.receiver in
        let same : sys.written ≡ sys.total = omega (arith, v.below, all, no_more z file v i end) in
        (
          i,
          sym same ∙ all,
          end,
          d.written ∙ output-cut file sys.total sys.written v.below ∙ ap (output file) same,
        )
