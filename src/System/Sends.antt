-- ===== src/System/Sends.antt =====
-- A round of the sender keeps the invariant.
use mathlib.Core.Path.{subst}
use native.Mathlib.Decide.{dec_lt}
use project_transport_protoc.Prelude.{
  ℕ, suc, ◌+◌, ◌%◌, ◌<◌, ◌≤◌, ◌≡◌, ◌≢◌, refl, sym, ◌∙◌, Bool, true, false, none, some, All, arith,
}
use project_transport_protoc.Prelude.Memory.{Mem, IsBytes}
use project_transport_protoc.Packet.Layout.{Pkt}
use project_transport_protoc.Packet.Codec.{Zlib}
use project_transport_protoc.Pktbuf.{pktbuf_used}
use project_transport_protoc.Net.{Link}
use project_transport_protoc.Sender.{Sender}
use project_transport_protoc.Sender.Stream.{IsChunk, Streams, Follows}
use project_transport_protoc.Sender.Transmit
use project_transport_protoc.Sender.Rounds
use project_transport_protoc.Sender.Rounds.{
  IsLoop, IsInput, PollBelow, Answers, chunks_after, Outcome,
}
use project_transport_protoc.Sender.Rounds.Runs.{round-Outcome}
use project_transport_protoc.Receiver.Loop
use project_transport_protoc.Transfer.Cut.{Delivers-grown}
use project_transport_protoc.System.{System, noted, note, SenderGoes, SenderHears}
use project_transport_protoc.System.Network.{Told, FromReceiver-AcksBelow, FromReceiver-IsReceived}
use project_transport_protoc.System.Inv.{Inv, SenderAt, ReceiverAt, used_few}

chunks_after-bounds :
    (p : Transmit.Poll) (b : Bool) (total : ℕ)
    → (total ≤ chunks_after p b total) × (chunks_after p b total ≤ suc total)
chunks_after-bounds Transmit.error b total = (omega arith, omega arith)
chunks_after-bounds Transmit.timeout b total = (omega arith, omega arith)
chunks_after-bounds (Transmit.ready socket none) true total = (omega arith, omega arith)
chunks_after-bounds (Transmit.ready socket (some none)) true total = (omega arith, omega arith)
chunks_after-bounds (Transmit.ready socket (some (some chunk))) true total =
    (omega arith, omega arith)
chunks_after-bounds (Transmit.ready socket input) false total = (omega arith, omega arith)

module _ (z : Zlib) (file : ℕ → Mem × ℕ) where
  heard-Answers :
      (sys : System) (p : Transmit.Poll)
      → SenderHears z file sys p
      → All (Told z sys.written) sys.replies
      → Answers file sys.total p
  heard-Answers sys Transmit.error x told = tt
  heard-Answers sys Transmit.timeout x told = tt
  heard-Answers sys (Transmit.ready none input) x told = (tt, x)
  heard-Answers sys (Transmit.ready (some r) input) (x, read) told =
      (FromReceiver-IsReceived z sys.total sys.written sys.replies r x told, read)

  heard-PollBelow :
      (sys : System) (p : Transmit.Poll) (acked used : ℕ)
      → SenderHears z file sys p
      → All (Told z sys.written) sys.replies
      → acked + used ≡ sys.total
      → acked ≤ sys.written
      → PollBelow z acked used p sys.written
  heard-PollBelow sys Transmit.error acked used x told sum le = tt
  heard-PollBelow sys Transmit.timeout acked used x told sum le = tt
  heard-PollBelow sys (Transmit.ready none input) acked used x told sum le = tt
  heard-PollBelow sys (Transmit.ready (some r) input) acked used (x, read) told sum le =
      FromReceiver-AcksBelow z sys.total sys.written acked used sys.replies r x told sum le

  -- What an invariant says when the sender has read `total` chunks.
  record Sent (total : ℕ) (packets : ℕ → Pkt) (written : ℕ) (t : Transmit.Transfer) : Type 0 where
    made : (i : ℕ) → i < total → IsChunk z i (file i).0 (file i).1 (packets i)
    more : (i : ℕ) → suc i < total → (file i).1 ≢ 0
    few : total ≤ written + 128
    sender : SenderAt z file total packets written t

  -- The packets of the stream after a round, of which the history knows those from before.
  module _ {total total' : ℕ} {s s' : Sender} {h : Streams z file total s}
      {h' : Streams z file total' s'} {may : ℕ → Type 0} (packets : ℕ → Pkt)
      (agree : (i : ℕ) → i < total → h.packets i ≡ packets i) (f : Follows may h h')
      (one : total' ≤ suc total) where
    noted_agree : (i : ℕ) → i < total' → h'.packets i ≡ noted total packets s'.send_buf i
    noted_agree i lt = elim (dec_lt i total) [
      | yes old ↦
          let here : noted total packets s'.send_buf i ≡ packets i = ground arith in
          f.agree i old ∙ agree i old ∙ sym here
      | no new ↦
          let at : total ≡ i = omega arith in
          let here : noted total packets s'.send_buf i
              ≡ s'.send_buf.head (i % s'.send_buf.capacity) =
            ground arith in
          subst (λ j. h'.packets j ≡ s'.send_buf.head (j % s'.send_buf.capacity)) at
            (f.newest (omega arith))
          ∙ sym here
    ]

    noted_made :
        (i : ℕ) → i < total' → IsChunk z i (file i).0 (file i).1 (noted total packets s'.send_buf i)
    noted_made i lt = subst (IsChunk z i (file i).0 (file i).1) (noted_agree i lt) (h'.made i lt)

  module _ {sys : System} (v : Inv z file sys) where
    Outcome-Sent :
        {p : Transmit.Poll} {l : Transmit.Loop} {t : Transmit.Transfer}
        (w : IsLoop z file sys.total l)
        → ((i : ℕ) → i < sys.total → w.stream.packets i ≡ sys.packets i)
        → w.stream.acked ≤ sys.written
        → PollBelow z w.stream.acked (pktbuf_used l.sender.send_buf) p sys.written
        → Outcome z file sys.total p l w t
        → SenderGoes t
        → Sent (chunks_after p l.poll_file sys.total) (note sys.total sys.packets t) sys.written t
    Outcome-Sent {p} {l} w agree le may (Rounds.goes_on l' w' f) goes =
        let one = (chunks_after-bounds p l.poll_file sys.total).1 in
        let freed = f.bound sys.written le may in
        record {
          made = noted_made sys.packets agree f one;
          more = w'.stream.more;
          few = omega (arith, w'.stream.used, used_few z file w'.stream, freed);
          sender = (w', noted_agree sys.packets agree f one, freed);
        }
    Outcome-Sent {p} {l} w agree le may (Rounds.finished n s' h' e f end empty) goes =
        let one : suc n ≤ suc sys.total =
          omega (arith, e, (chunks_after-bounds p l.poll_file sys.total).1) in
        let freed = f.bound sys.written le may in
        subst
          (λ total.
            Sent total (noted sys.total sys.packets s'.send_buf) sys.written
              (Transmit.completed s'))
          e
          (record {
            made = noted_made sys.packets agree f one;
            more = h'.more;
            few = omega (arith, h'.used, freed, empty);
            sender = (n, refl, end, omega (arith, h'.used, freed, empty));
          })
    Outcome-Sent w agree le may (Rounds.gave_up _) goes = absurd goes
    Outcome-Sent w agree le may (Rounds.null_read _) goes = absurd goes
    Outcome-Sent w agree le may (Rounds.wrapped r _ _) goes = absurd goes

    grown-ReceiverAt :
        (total' : ℕ) (t : Loop.Transfer)
        → sys.total ≤ total'
        → ReceiverAt z file sys.total sys.written t
        → ReceiverAt z file total' sys.written t
    grown-ReceiverAt total' Loop.connecting le x = x
    grown-ReceiverAt total' (Loop.running l) le (c, d) = (c, Delivers-grown file d total' le)
    grown-ReceiverAt total' (Loop.completed s) le (i, at, end, d) =
        (i, at, end, Delivers-grown file d total' le)
    grown-ReceiverAt total' Loop.aborted le x = absurd x
    grown-ReceiverAt total' (Loop.ended r) le x = absurd x

    -- A round of the sender that does not give up.
    pub sends-Inv :
        (link : Link) (junk : Pkt) (p : Transmit.Poll) (l : Transmit.Loop)
        → sys.sender ≡ Transmit.running l
        → IsBytes junk
        → SenderHears z file sys p
        → SenderGoes (Transmit.round z link 257 junk p l)
        → Inv z file (record sys {
          sender = Transmit.round z link 257 junk p l;
          total = chunks_after p l.poll_file sys.total;
          packets = note sys.total sys.packets (Transmit.round z link 257 junk p l);
        })
    sends-Inv link junk p l at old x goes =
        let (w, agree, le) =
          subst (SenderAt z file sys.total sys.packets sys.written) at v.sender in
        let more = (chunks_after-bounds p l.poll_file sys.total).0 in
        let y =
          Outcome-Sent w agree le
            (heard-PollBelow sys p w.stream.acked (pktbuf_used l.sender.send_buf) x v.told
              w.stream.used le)
            (round-Outcome z link file sys.total l junk p w old (heard-Answers sys p x v.told))
            goes in
        record {
          made = y.made;
          more = y.more;
          below = omega (arith, v.below, more);
          few = y.few;
          told = v.told;
          sender = y.sender;
          receiver = grown-ReceiverAt _ sys.receiver more v.receiver;
        }
