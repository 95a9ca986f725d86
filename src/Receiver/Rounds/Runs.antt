-- ===== src/Receiver/Rounds/Runs.antt =====
-- Every sequence of rounds of `receive`.
use mathlib.Core.Path.{subst}
use project_transport_protoc.Prelude.{ℕ, suc, ◌≡◌, ◌≢◌, List}
use project_transport_protoc.Prelude.Memory.{Mem}
use project_transport_protoc.Packet.Codec.{Zlib}
use project_transport_protoc.Pktbuf.{pktbuf_used}
use project_transport_protoc.Net.{Link}
use project_transport_protoc.Receiver.{Receiver, Output, would_block}
use project_transport_protoc.Receiver.Deliver.{Delivers}
use project_transport_protoc.Receiver.Loop.{Poll, Loop, Transfer, running, completed, round}
use project_transport_protoc.Receiver.Rounds.{Answers, Outcome, goes_on, finished, gave_up}
use project_transport_protoc.Receiver.Rounds.Finish.{receive_round-Outcome}

-- The loop `l'` is reached from `l` by rounds that go on; `may n c p` tells what may arrive when `n`
-- chunks are written and `c` packets wait.
pub data Rounds (z : Zlib) (link : Link) (out : Output) (file : ℕ → Mem × ℕ)
    (may : ℕ → ℕ → Poll → Type 0) (l : Loop) : Loop → Type 0 where
  here : Rounds z link out file may l l
  step :
      {l' : Loop} (p : Poll) (l'' : Loop)
      → Rounds z link out file may l l'
      → ((n c : ℕ) → Delivers file n c l'.receiver → may n c p)
      → round z link out p l' ≡ running l''
      → Rounds z link out file may l l''

-- What may arrive is supposed of less.
pub Rounds-map :
    {z : Zlib} {link : Link} {out : Output} {file : ℕ → Mem × ℕ} {may may' : ℕ → ℕ → Poll → Type 0}
    {l l' : Loop}
    → ((n c : ℕ) (p : Poll) → may n c p → may' n c p)
    → Rounds z link out file may l l'
    → Rounds z link out file may' l l'
Rounds-map each here = here
Rounds-map each (step p l'' rounds good e) =
    step p l'' (Rounds-map each rounds) (λ n c d. each n c p (good n c d)) e

running_inj : {l l' : Loop} → running l ≡ running l' → l ≡ l'
running_inj e = cc

completed_inj : {s s' : Receiver} → completed s ≡ completed s' → s ≡ s'
completed_inj e = cc

-- Some chunks are written.
abbrev pub SomeDelivers : (ℕ → Mem × ℕ) → Receiver → Type 0
SomeDelivers file s = (n : ℕ) × (c : ℕ) × Delivers file n c s

-- The whole file is written, its empty last chunk being number `i`.
pub record Whole (file : ℕ → Mem × ℕ) (s : Receiver) : Type 0 where
  pub i : ℕ
  pub delivers : Delivers file (suc i) 0 s
  pub end : (file i).1 ≡ 0
  pub empty : pktbuf_used s.recv_buf ≡ 0

module _ {file : ℕ → Mem × ℕ} where
  kept_on :
      {z : Zlib} {n : ℕ} {s : Receiver} {l' : Loop} {t : Transfer}
      → Outcome z file n s t
      → t ≡ running l'
      → SomeDelivers file l'.receiver
  kept_on {l' = l'} (goes_on n' l1 le few d sent) e =
      (n', 0, subst (λ l. Delivers file n' 0 l.receiver) (running_inj e) d)
  kept_on (finished i s le few d sent end empty) e = cc
  kept_on gave_up e = cc

  done :
      {z : Zlib} {n : ℕ} {s s' : Receiver} {t : Transfer}
      → Outcome z file n s t
      → t ≡ completed s'
      → Whole file s'
  done (goes_on n' l1 le few d sent) e = cc
  done (finished i s le few d sent end empty) e =
      subst (Whole file) (completed_inj e)
        (record { i = i; delivers = d; end = end; empty = empty })
  done gave_up e = cc

module _ (z : Zlib) (link : Link) (out : Output) (file : ℕ → Mem × ℕ)
    (never : (ws : List (List ℕ)) (bytes : List ℕ) → out.write ws bytes ≢ would_block) where
  -- The invariant holds in every state that rounds lead to.
  pub Rounds-Delivers :
      {l l' : Loop}
      → SomeDelivers file l.receiver
      → Rounds z link out file (Answers z file) l l'
      → SomeDelivers file l'.receiver
  Rounds-Delivers d here = d
  Rounds-Delivers d (step {l'} p l'' rounds good e) =
      let (n, c, d') = Rounds-Delivers d rounds in
      kept_on (receive_round-Outcome z file link out n c l' p never d' (good n c d')) e

  -- With an output that never blocks, if `receive` leaves its loop after rounds in which no whole data
  -- packet of the window carries other data than the chunk of its number, then it has written the
  -- file's chunks in order from the first to an empty one, each once, and the buffer is empty.
  pub receive_completed :
      {l l' : Loop} (p : Poll) (s' : Receiver)
      → SomeDelivers file l.receiver
      → Rounds z link out file (Answers z file) l l'
      → ((n c : ℕ) → Delivers file n c l'.receiver → Answers z file n c p)
      → round z link out p l' ≡ completed s'
      → Whole file s'
  receive_completed {l' = l'} p s' d rounds good e =
      let (n, c, d') = Rounds-Delivers d rounds in
      done (receive_round-Outcome z file link out n c l' p never d' (good n c d')) e
