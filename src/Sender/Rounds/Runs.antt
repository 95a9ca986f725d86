-- ===== src/Sender/Rounds/Runs.antt =====
-- Every sequence of rounds.
use mathlib.Core.Path.{subst}
use project_transport_protoc.Sender.Stream.{Follows-refl, Follows}
use project_transport_protoc.Prelude.{ℕ, ◌≡◌, inl, inr, Bool-cases}
use project_transport_protoc.Prelude.Memory.{Mem, IsBytes}
use project_transport_protoc.Packet.Layout.{Pkt}
use project_transport_protoc.Packet.Codec.{Zlib}
use project_transport_protoc.Pktbuf.{pktbuf_empty, pktbuf_used}
use project_transport_protoc.Net.{Link}
use project_transport_protoc.Sender.Transmit.{
  Poll, error, timeout, ready, Loop, Transfer, running, round,
}
use project_transport_protoc.Sender.Rounds.{
  IsLoop, Answers, chunks_after, Outcome, goes_on, finished, gave_up, null_read, wrapped,
  next-Outcome, PollBelow,
}
use project_transport_protoc.Sender.Rounds.Ready.{handle_ready-Got, ready-Outcome}
use project_transport_protoc.Sender.Rounds.Timeout.{timeout-Outcome}

module _ (z : Zlib) (link : Link) (file : ℕ → Mem × ℕ) where
  -- With the loop's invariant, every round with fuel 257 in which the socket gives bytes and a read
  -- that succeeds gives the file's next chunk, keeps the invariant, or ends the transfer: completed
  -- with the end of the file read and every packet acknowledged, given up, or by one of the two
  -- errors, a duplicate acknowledgement with an empty buffer and a timeout at `last_sent` = 255. No
  -- loop runs out of fuel but in that last case. The packets made before stay as they are, and none
  -- is freed that what has arrived does not acknowledge.
  pub round-Outcome :
      (total : ℕ) (l : Loop) (junk : Pkt) (p : Poll) (v : IsLoop z file total l)
      → IsBytes junk
      → Answers file total p
      → Outcome z file total p l v (round z link 257 junk p l)
  unfolding round
  round-Outcome total l junk error v old good = gave_up l.sender
  round-Outcome total l junk timeout v old good =
      elim (Bool-cases (pktbuf_empty l.sender.send_buf)) [
        | inl empty ↦ rw empty (
            next-Outcome z file total timeout l v l.poll_file l.sender v.stream
              (Follows-refl v.stream) v.room v.unread)
        | inr left ↦ rw left (timeout-Outcome z link file total l v)
      ]
  round-Outcome total l junk (ready socket input) v old (good, good') =
      ready-Outcome z link file total (ready socket input) l v
        (handle_ready-Got z link file total l junk socket input v old good good')

-- The loop `l'` with `total'` chunks read is reached from `l` by rounds that go on.
pub data Rounds (z : Zlib) (link : Link) (file : ℕ → Mem × ℕ) (total : ℕ) (l : Loop)
    : ℕ → Loop → Type 0 where
  here : Rounds z link file total l total l
  step :
      {total' : ℕ} {l' : Loop} (junk : Pkt) (p : Poll) (l'' : Loop)
      → Rounds z link file total l total' l'
      → IsBytes junk
      → Answers file total' p
      → round z link 257 junk p l' ≡ running l''
      → Rounds z link file total l (chunks_after p l'.poll_file total') l''

module _ (z : Zlib) (link : Link) (file : ℕ → Mem × ℕ) where
  running_inj : {l l' : Loop} → running l ≡ running l' → l ≡ l'
  running_inj e = cc

  kept_on :
      {total : ℕ} {p : Poll} {l l' : Loop} {v : IsLoop z file total l} {t : Transfer}
      → Outcome z file total p l v t
      → t ≡ running l'
      → (v' : IsLoop z file (chunks_after p l.poll_file total) l') × Follows
          (PollBelow z v.stream.acked (pktbuf_used l.sender.send_buf) p)
          v.stream
          v'.stream
  kept_on {total = total} {p = p} {l = l} {v = v} (goes_on l1 v' f) e =
      subst
        (λ l2.
          (w : IsLoop z file (chunks_after p l.poll_file total) l2) × Follows
            (PollBelow z v.stream.acked (pktbuf_used l.sender.send_buf) p) v.stream w.stream)
        (running_inj e) (v', f)
  kept_on (finished n s' _ _ _ _ _) e = cc
  kept_on (gave_up s') e = cc
  kept_on (null_read _) e = cc
  kept_on (wrapped r _ _) e = cc

  -- A round that goes on keeps the packets made so far, and frees none that what has arrived does not
  -- acknowledge.
  pub round-Follows :
      (total : ℕ) {l l' : Loop} (junk : Pkt) (p : Poll) (v : IsLoop z file total l)
      → IsBytes junk
      → Answers file total p
      → round z link 257 junk p l ≡ running l'
      → (v' : IsLoop z file (chunks_after p l.poll_file total) l') × Follows
          (PollBelow z v.stream.acked (pktbuf_used l.sender.send_buf) p)
          v.stream
          v'.stream
  round-Follows total {l} junk p v old good e =
      kept_on (round-Outcome z link file total l junk p v old good) e

  -- The loop's invariant holds in every state that rounds lead to: all that was ever sent are the
  -- packets of the file's first chunks, in network order and numbered in turn, and the buffer holds
  -- those that are not acknowledged.
  pub Rounds-IsLoop :
      {total : ℕ} {l : Loop} {total' : ℕ} {l' : Loop}
      → IsLoop z file total l
      → Rounds z link file total l total' l'
      → IsLoop z file total' l'
  Rounds-IsLoop v here = v
  Rounds-IsLoop v (step {total'} {l'} junk p l'' rounds old good e) =
      (round-Follows total' junk p (Rounds-IsLoop v rounds) old good e).0
