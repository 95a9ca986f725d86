-- ===== src/Sender/Rounds/Complete.antt =====
-- Whole transfers, from the state in which `transmit` starts.
use mathlib.Core.Path.{subst}
use project_transport_protoc.Prelude.Bits.{pow_pos}
use project_transport_protoc.Prelude.{ℕ, suc, ◌^◌, ◌<◌, ◌≤◌, ◌≡◌, refl, true, arith}
use project_transport_protoc.Prelude.Memory.{Mem, IsBytes}
use project_transport_protoc.Packet.Layout.{Pkt}
use project_transport_protoc.Packet.Codec.{Zlib}
use project_transport_protoc.Pktbuf.{Pktbuf, pktbuf_used}
use project_transport_protoc.Net.{Link}
use project_transport_protoc.Sender.{Sender, initial}
use project_transport_protoc.Sender.Inv.{IsSender}
use project_transport_protoc.Sender.Stream.{Streams}
use project_transport_protoc.Sender.Transmit.{Poll, Loop, Transfer, completed, round}
use project_transport_protoc.Sender.Rounds.{
  IsLoop, Answers, Outcome, goes_on, finished, gave_up, null_read, wrapped,
}
use project_transport_protoc.Sender.Rounds.Runs.{round-Outcome, Rounds, Rounds-IsLoop}

-- The buffer that `pktbuf_new` returns.
abbrev pub new_buffer : ℕ → Pktbuf
new_buffer capacity = record { first = 0; last = 0; capacity = capacity; head = λ _ _. 0 }

-- The state in which `transmit` enters its loop.
abbrev pub first_loop : ℕ → Loop
first_loop capacity = record { sender = initial (new_buffer capacity); poll_file = true }

initial-IsSender : (k : ℕ) → k ≤ 30 → 2 ^ k < 256 → IsSender (initial (new_buffer (2 ^ k)))
initial-IsSender k le small = record {
  ring = record {
    power = k;
    is_power = refl;
    small = le;
    first_in = omega arith;
    last_in = omega arith;
    fits = omega arith;
  };
  small = small;
  ack_in = omega arith;
  sent_in = omega arith;
  chunk_in = omega arith;
  used = omega arith;
  in_flight = omega arith;
  numbered = λ j h. absurd (omega arith);
}

completed_inj : {s s' : Sender} → completed s ≡ completed s' → s ≡ s'
completed_inj e = cc

module _ (z : Zlib) (link : Link) (file : ℕ → Mem × ℕ) where
  pub first_loop-IsLoop : (k : ℕ) → k ≤ 30 → 2 ^ k < 256 → IsLoop z file 0 (first_loop (2 ^ k))
  first_loop-IsLoop k le small = record {
    stream = record {
      packets = λ _ _. 0;
      acked = 0;
      state = initial-IsSender k le small;
      used = refl;
      ack = refl;
      last = refl;
      made = λ i h. absurd (omega arith);
      kept = λ j h. absurd (omega arith);
      filled = λ j h. absurd (omega arith);
      clean = λ j. (λ i. omega arith, refl);
      trace = tt;
      fresh = λ e. refl;
      read = λ i e. absurd (omega arith);
      more = λ i h. absurd (omega arith);
    };
    room = λ e. pow_pos k;
    unread = λ e f. cc;
  }

  done :
      {total : ℕ} {p : Poll} {l : Loop} {v : IsLoop z file total l} {t : Transfer} {s' : Sender}
      → Outcome z file total p l v t
      → t ≡ completed s'
      → (n : ℕ) × Streams z file (suc n) s' × ((file n).1 ≡ 0) × (pktbuf_used s'.send_buf ≡ 0)
  done (goes_on l1 v' f) e = cc
  done {s' = s'} (finished n s1 h _ f end empty) e =
      let same : s1 ≡ s' = completed_inj e in
      (n, subst (Streams z file (suc n)) same h, end, rw (← same) empty)
  done (gave_up s1) e = cc
  done (null_read _) e = cc
  done (wrapped r _ _) e = cc

  -- If `transmit`, begun on a new buffer of fewer than 256 slots, returns 0 after rounds in which the
  -- reads give the file's chunks in turn and the socket gives any bytes, then it has read chunks
  -- 0 to n of which only the last is empty, has made them into the packets 0 to n, has sent no
  -- datagram but these packets, and all of them are acknowledged.
  pub transmit_completed :
      (k : ℕ) {total : ℕ} {l : Loop} (junk : Pkt) (p : Poll) (s' : Sender)
      → k ≤ 30
      → 2 ^ k < 256
      → Rounds z link file 0 (first_loop (2 ^ k)) total l
      → IsBytes junk
      → Answers file total p
      → round z link 257 junk p l ≡ completed s'
      → (n : ℕ) × Streams z file (suc n) s' × ((file n).1 ≡ 0) × (pktbuf_used s'.send_buf ≡ 0)
  transmit_completed k {total} {l} junk p s' le small rounds old good e =
      done
        (round-Outcome z link file total l junk p
          (Rounds-IsLoop z link file (first_loop-IsLoop k le small) rounds) old good)
        e
