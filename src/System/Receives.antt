-- ===== src/System/Receives.antt =====
-- The start of the receiver, its rounds and its last acknowledgements keep the invariant.
use mathlib.Core.Path.{subst}
use project_transport_protoc.Prelude.{
  ℕ, suc, ◌+◌, ◌-◌, ◌^◌, ◌<◌, ◌≤◌, ◌≡◌, ◌≢◌, refl, sym, ap, ◌∙◌, Bool, false, Option, none, some,
  List, [], ◌∷◌, ◌++◌, All, length, length-append, arith,
}
use project_transport_protoc.Prelude.Memory.{Mem}
use project_transport_protoc.Prelude.Run.{Run, ret}
use project_transport_protoc.Packet.Layout.{Pkt}
use project_transport_protoc.Packet.Codec.{Zlib}
use project_transport_protoc.Net.{Link, Datagram, Received}
use project_transport_protoc.Sender.Transmit
use project_transport_protoc.Sender.Stream.{IsChunk}
use project_transport_protoc.Receiver.{Receiver, Output, would_block, send_ack}
use project_transport_protoc.Receiver.Replies.{IsReply, Replied}
use project_transport_protoc.Receiver.Loop
use project_transport_protoc.Receiver.Deliver.{Delivers}
use project_transport_protoc.Receiver.Rounds
use project_transport_protoc.Receiver.Rounds.{Onward, Answers, Outcome}
use project_transport_protoc.Receiver.Rounds.Steps.{nothing_waits, send_ack-Onward}
use project_transport_protoc.Receiver.Rounds.Finish.{receive_round-Outcome}
use project_transport_protoc.Receiver.Rounds.First.{new_buffer}
use project_transport_protoc.Receiver.Rounds.Start.{start-Begins, Begins-Delivers}
use project_transport_protoc.Transfer.Cut.{cut, cut-before, cut-IsChunk, written_below}
use project_transport_protoc.Transfer.Whole.{All-IsFirst, Network-IsReceived, Network-IsGenuine}
use project_transport_protoc.System.{
  System, FromSender, ReceiverHears, ReceiverGoes, progress, tag, tell, moved, after_round,
}
use project_transport_protoc.System.Network.{Told, FromSender-Network, All-Network}
use project_transport_protoc.System.Inv.{Inv, SenderAt, ReceiverAt}

module _ (z : Zlib) where
  tag-Told :
      (n : ℕ) (new old : List Datagram) (replies : List (ℕ × Datagram))
      → All (IsReply z n) new
      → All (Told z n) replies
      → All (Told z n) (tag n (length new) (new ++ old) replies)
  tag-Told n [] old replies all told = told
  tag-Told n (d ∷ new) old replies (x, all) told =
      ((omega arith, x), tag-Told n new old replies all told)

  later-Told :
      (m n : ℕ) (replies : List (ℕ × Datagram))
      → m ≤ n
      → All (Told z m) replies
      → All (Told z n) replies
  later-Told m n [] le told = tt
  later-Told m n ((k, d) ∷ replies) le ((most, x), told) =
      ((omega (arith, most, le), x), later-Told m n replies le told)

  -- What was sent in a round is told from what was sent before.
  tell-Told :
      (m n : ℕ) (s s' : Receiver) (replies : List (ℕ × Datagram))
      → m ≤ n
      → Replied z n s s'
      → All (Told z m) replies
      → All (Told z n) (tell n s s' replies)
  tell-Told m n s s' replies le (new, e, all) told =
      let count : length s'.sent - length s.sent ≡ length new =
        omega (arith, ap length e, length-append new s.sent) in
      subst (λ k. All (Told z n) (tag n k s'.sent replies)) (sym count)
        (subst (λ ds. All (Told z n) (tag n (length new) ds replies)) (sym e)
          (tag-Told n new s.sent replies all (later-Told m n replies le told)))

  module _ (file : ℕ → Mem × ℕ) where
    written-SenderAt :
        (total : ℕ) (packets : ℕ → Pkt) (m n : ℕ) (t : Transmit.Transfer)
        → m ≤ n
        → SenderAt z file total packets m t
        → SenderAt z file total packets n t
    written-SenderAt total packets m n (Transmit.running l) le (v, agree, freed) =
        (v, agree, omega (arith, freed, le))
    written-SenderAt total packets m n (Transmit.completed s) le (i, at, end, all) =
        (i, at, end, omega (arith, all, le))
    written-SenderAt total packets m n (Transmit.aborted s) le x = absurd x
    written-SenderAt total packets m n (Transmit.ended r) le x = absurd x

    module _ {sys : System} (v : Inv z file sys) where
      abbrev sent_file : ℕ → Mem × ℕ
      sent_file = cut file sys.total

      made : (i : ℕ) → i < sys.total → IsChunk z i (sent_file i).0 (sent_file i).1 (sys.packets i)
      made i lt = cut-IsChunk file lt (v.made i lt)

      -- The receiver has gone from `s` to `s'`, with `n` chunks written then.
      moved-Inv :
          (n : ℕ) (s s' : Receiver) (t : Loop.Transfer)
          → sys.written ≤ n
          → n ≤ sys.written + 32
          → Delivers sent_file n 0 s'
          → Replied z n s s'
          → ReceiverAt z file sys.total n t
          → Inv z file (moved t s s' sys)
      moved-Inv n s s' t more near d replied at =
          let now : progress sys.written s' ≡ n = omega (arith, d.state.expected) in
          subst
            (λ k.
              Inv z file
                (record sys { receiver = t; written = k; replies = tell k s s' sys.replies }))
            (sym now)
            (record {
              made = v.made;
              more = v.more;
              below = written_below file d;
              few = omega (arith, v.few, more);
              told = tell-Told sys.written n s s' sys.replies more replied v.told;
              sender =
                  written-SenderAt sys.total sys.packets sys.written n sys.sender more v.sender;
              receiver = at;
            })

      heard-Answers :
          (c : ℕ) (s : Receiver) (p : Loop.Poll)
          → Delivers sent_file sys.written c s
          → ReceiverHears z file sys s p
          → Answers z sent_file sys.written c p
      heard-Answers c s Loop.error d x = tt
      heard-Answers c s Loop.timeout d x = tt
      heard-Answers c s (Loop.ready none input) d x = tt
      heard-Answers c s (Loop.ready (some r) input) d (idle, x) =
          let y = FromSender-Network z sys.total sys.written sys.packets r v.few x in
          (
            nothing_waits d idle,
            Network-IsReceived z sys.packets made sys.written r y,
            Network-IsGenuine z sys.packets made sys.written r y,
          )

      Outcome-Inv :
          {s : Receiver} {t : Loop.Transfer}
          → Outcome z sent_file sys.written s t
          → ReceiverGoes t
          → Inv z file (after_round s t sys)
      Outcome-Inv {s} (Rounds.goes_on n l le near d sent) goes =
          moved-Inv n s l.receiver (Loop.running l) le near d sent (0, d)
      Outcome-Inv {s} (Rounds.finished i s' le near d sent end empty) goes =
          let lt : i < sys.total = written_below file d in
          let end' : (file i).1 ≡ 0 =
            ap (λ (chunk : Mem × ℕ). chunk.1) (sym (cut-before file sys.total i lt)) ∙ end in
          moved-Inv (suc i) s s' (Loop.completed s') le near d sent (i, refl, end', d)
      Outcome-Inv Rounds.gave_up goes = absurd goes

      pub receives-Inv :
          (link : Link) (out : Output) (p : Loop.Poll) (l : Loop.Loop)
          → ((ws : List (List ℕ)) (bytes : List ℕ) → out.write ws bytes ≢ would_block)
          → sys.receiver ≡ Loop.running l
          → ReceiverHears z file sys l.receiver p
          → ReceiverGoes (Loop.round z link out p l)
          → Inv z file (after_round l.receiver (Loop.round z link out p l) sys)
      receives-Inv link out p l never at x goes =
          let (c, d) = subst (ReceiverAt z file sys.total sys.written) at v.receiver in
          Outcome-Inv
            (receive_round-Outcome z sent_file link out sys.written c l p never d
              (heard-Answers c l.receiver p d x))
            goes

      pub starts-Inv :
          (k max_window : ℕ) (getfd setfd : Option ℕ) (connects : Bool) (rs : List Received)
          (l : Loop.Loop)
          → k ≤ 5
          → max_window < 2 ^ k
          → sys.receiver ≡ Loop.connecting
          → All (FromSender z sys.total sys.packets 0) rs
          → Loop.start z getfd setfd connects rs max_window (new_buffer (2 ^ k)) ≡ Loop.running l
          → Inv z file (record sys { receiver = Loop.running l })
      starts-Inv k max_window getfd setfd connects rs l le wide at arrived begun =
          let none_yet : sys.written ≡ 0 =
            subst (ReceiverAt z file sys.total sys.written) at v.receiver in
          let few : sys.total ≤ 0 + 128 = omega (arith, v.few, none_yet) in
          let (c, d) =
            Begins-Delivers
              (start-Begins z sent_file k max_window le wide getfd setfd connects rs (
                All-IsFirst z sys.packets made rs
                  (All-Network z sys.total 0 sys.packets rs few arrived)))
              begun in
          record {
            made = v.made;
            more = v.more;
            below = v.below;
            few = v.few;
            told = v.told;
            sender = v.sender;
            receiver = (c, subst (λ n. Delivers sent_file n c l.receiver) (sym none_yet) d);
          }

      pub lingers-Inv :
          (link : Link) (out : Output) (s s' : Receiver)
          → sys.receiver ≡ Loop.completed s
          → send_ack z link s ≡ ret false s'
          → Inv z file (moved (Loop.completed s') s s' sys)
      lingers-Inv link out s s' at run =
          let (i, all, end, d) = subst (ReceiverAt z file sys.total sys.written) at v.receiver in
          let (d', sent) =
            onward_to s' (send_ack-Onward z sent_file link out s (d, ([], refl, tt))) run in
          moved-Inv sys.written s s' (Loop.completed s') (omega arith) (omega arith) d' sent
            (i, all, end, d')
        where
          onward_to :
              {P : Receiver → Type 0} {r : Run Receiver} (s1 : Receiver)
              → Onward P r
              → r ≡ ret false s1
              → P s1
          onward_to s1 (Rounds.failing s2) e = cc
          onward_to {P} s1 (Rounds.onward s2 p) e = let same : s2 ≡ s1 = cc in subst P same p
