-- ===== src/Sender/Rounds/Silence.antt =====
-- A peer that does not answer any more.
use mathlib.Core.Path.{subst}
use project_transport_protoc.Prelude.{
  ℕ, zero, suc, ◌+◌, ◌<◌, ◌≡◌, refl, ap, ◌∙◌, Bool, true, false, inl, inr, Bool-cases, List, [],
  ◌∷◌, arith, ◌⊎◌,
}
use project_transport_protoc.Prelude.Run.{ret}
use project_transport_protoc.Packet.Layout.{Pkt}
use project_transport_protoc.Packet.Codec.{Zlib}
use project_transport_protoc.Pktbuf.{pktbuf_used, Pktbuf}
use project_transport_protoc.Net.{Link, Datagram}
use project_transport_protoc.Sender.{Sender, handle_retransmission, max_retransmission}
use project_transport_protoc.Sender.Inv.{IsSender, flight}
use project_transport_protoc.Sender.Resend.{retransmission-Resent, gives_up, Resent}
use project_transport_protoc.Pktbuf.Inv.{nth}
use project_transport_protoc.Sender.Send.{on_wire, burst, refuses, Attempts, refused, in_full}
use project_transport_protoc.Sender.Transmit.{
  Poll, timeout, Loop, running, aborted, next, round, while_running, transmit_from,
}

-- `n` timeouts in a row
abbrev pub silence : ℕ → List Poll
silence zero = []
silence (suc n) = timeout ∷ silence n

-- The trace after the first `k` packets of the buffer were sent `n` times.
abbrev pub bursts : Pktbuf → ℕ → ℕ → List Datagram → List Datagram
bursts b k zero sent = sent
bursts b k (suc n) sent = bursts b k n (burst b 0 k sent)

-- The last datagram was not answered by its length.
abbrev pub LastRefused : Link → List Datagram → Type 0
LastRefused link sent =
    (pkt : Pkt) × (before : List Datagram) × (sent ≡ on_wire pkt ∷ before)
    × (refuses link pkt before ≡ true)

-- `s'` is the state in which `transmit` gives up, with `n` timeouts more than in `s` that were answered.
abbrev pub GivesUp : Link → ℕ → Sender → Sender → Type 0
GivesUp link n s s' =
    (s'.retry_count ≡ suc max_retransmission) × (s'.sent ≡ bursts s.send_buf (flight s) n s.sent)
    ⊎ LastRefused link s'.sent

Attempts-LastRefused :
    {link : Link} {b : Pktbuf} {i k : ℕ} {sent : List Datagram}
    → Attempts link b i k sent true
    → LastRefused link (burst b i k sent)
Attempts-LastRefused {b = b} {i = i} {sent = sent} (refused e) = (nth b i, sent, refl, e)
Attempts-LastRefused (in_full e a) = Attempts-LastRefused a

same_flight : {i k : ℕ} {s s' : Sender} → Resent i k s s' → flight s' ≡ flight s
same_flight r = omega (arith, r.last_ack, r.last_sent)

GivesUp-more :
    (link : Link) (n : ℕ) (s s' s'' : Sender)
    → flight s' ≡ flight s
    → s'.send_buf ≡ s.send_buf
    → s'.sent ≡ burst s.send_buf 0 (flight s) s.sent
    → GivesUp link n s' s''
    → GivesUp link (suc n) s s''
GivesUp-more link n s s' s'' same buf trace (inl (six, sent)) = inl (
  six,
  sent
      ∙ ap (λ k. bursts s'.send_buf k n s'.sent) same
      ∙ ap (λ b. bursts b (flight s) n s'.sent) buf
      ∙ ap (λ ds. bursts s.send_buf (flight s) n ds) trace,
)
GivesUp-more link n s s' s'' same buf trace (inr last) = inr last

module _ (z : Zlib) (link : Link) (junk : Pkt) where
  -- With packets in the buffer a timeout runs `handle_retransmission`.
  timeout_lem :
      (fuel : ℕ) (l : Loop)
      → 0 < pktbuf_used l.sender.send_buf
      → round z link fuel junk timeout l
        ≡ next l.poll_file (handle_retransmission z link fuel l.sender)
  unfolding round
  timeout_lem fuel l left = ground arith

  next_stays :
      (poll_file : Bool) (s : Sender)
      → 0 < pktbuf_used s.send_buf
      → next poll_file (ret false s) ≡ running (record { sender = s; poll_file = poll_file })
  unfolding next
  next_stays poll_file s left = ground arith

  next_fails : (poll_file : Bool) (s : Sender) → next poll_file (ret true s) ≡ aborted s
  unfolding next
  next_fails poll_file s = refl

  from_running :
      (fuel : ℕ) (p : Poll) (ps : List Poll) (l l' : Loop)
      → round z link fuel junk p l ≡ running l'
      → transmit_from z link fuel junk (p ∷ ps) l ≡ transmit_from z link fuel junk ps l'
  unfolding transmit_from
  from_running fuel p ps l l' e =
      ap (while_running (λ l''. transmit_from z link fuel junk ps l'')) e

  from_aborted :
      (fuel : ℕ) (p : Poll) (ps : List Poll) (l : Loop) (s : Sender)
      → round z link fuel junk p l ≡ aborted s
      → transmit_from z link fuel junk (p ∷ ps) l ≡ aborted s
  unfolding transmit_from
  from_aborted fuel p ps l s e = ap (while_running (λ l''. transmit_from z link fuel junk ps l'')) e

  -- With the invariant, packets in the buffer and `last_sent` below 255, if `retry_count` is `n` below
  -- five, `transmit` gives up within `n + 1` timeouts in a row. Either it has sent the packets in flight
  -- again at each of the first `n`, and gives up at the last one with `retry_count` six, or the last
  -- write is the one on which it gives up, not answered by the datagram's length.
  pub silence_aborts :
      (n : ℕ) (l : Loop)
      → l.sender.retry_count + n ≡ max_retransmission
      → IsSender l.sender
      → l.sender.last_sent < 255
      → 0 < pktbuf_used l.sender.send_buf
      → (s' : Sender) × (transmit_from z link 257 junk (silence (suc n)) l ≡ aborted s')
        × GivesUp link n l.sender s'
  silence_aborts zero l count v below left = (
    _,
    from_aborted 257 timeout [] l _ (
        timeout_lem 257 l left
        ∙ ap (next l.poll_file) (gives_up z link 257 l.sender (omega arith))
        ∙ next_fails l.poll_file _),
    inl (omega arith, refl),
  )
  silence_aborts (suc n) l count v below left =
      let (bad, k, s', run, r, a, _, all) =
        retransmission-Resent z link l.sender v below (omega arith) in
      let resent = timeout_lem 257 l left ∙ ap (next l.poll_file) run in
      elim (Bool-cases bad) [
        | inl failed ↦ (
          s',
          from_aborted 257 timeout (silence (suc n)) l s'
              (resent ∙ ap (λ b. next l.poll_file (ret b s')) failed ∙ next_fails l.poll_file s'),
          inr (
              rw r.trace (
                Attempts-LastRefused
                  (subst (Attempts link l.sender.send_buf 0 k l.sender.sent) failed a))),
        )
        | inr fine ↦
            let held : 0 < pktbuf_used s'.send_buf = rw r.send_buf left in
            let l' : Loop = record { sender = s'; poll_file = l.poll_file } in
            let (s'', rest, up) =
              silence_aborts n l' (omega (arith, r.retry_count)) r.state
                (omega (arith, r.last_sent)) held in
            (
              s'',
              from_running 257 timeout (silence (suc n)) l l' (
                    resent
                    ∙ ap (λ b. next l.poll_file (ret b s')) fine
                    ∙ next_stays l.poll_file s' held)
                  ∙ rest,
              GivesUp-more link n l.sender s' s'' (same_flight r) r.send_buf
                  (r.trace ∙ ap (λ j. burst l.sender.send_buf 0 j l.sender.sent) (all fine).0) up,
            )
      ]
