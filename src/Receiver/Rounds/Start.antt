-- ===== src/Receiver/Rounds/Start.antt =====
-- `receive` up to its loop.
use mathlib.Core.Path.{subst}
use project_transport_protoc.Receiver.Replies.{aside}
use project_transport_protoc.Prelude.{
  ℕ, ◌+◌, ◌^◌, ◌<◌, ◌≤◌, ◌≡◌, refl, ◌⊎◌, inl, inr, Bool, true, false, List, All, Option, Bool-cases,
  arith,
}
use project_transport_protoc.Prelude.Memory.{Mem}
use project_transport_protoc.Prelude.Run.{ret}
use project_transport_protoc.Packet.Layout
use project_transport_protoc.Packet.Layout.{Pkt, ptype_data}
use project_transport_protoc.Packet.Codec.{Zlib}
use project_transport_protoc.Pktbuf.{sub_u8}
use project_transport_protoc.Pktbuf.Inv.{slot}
use project_transport_protoc.Net.{
  net_ok, net_error, net_drop, Received, Connected, waiting, answered, net_wait_and_connect,
  max_retries,
}
use project_transport_protoc.Net.Connect.{Hears, connect-iff-Hears}
use project_transport_protoc.Receiver.{Receiver, initial, process_incoming_pkt}
use project_transport_protoc.Receiver.Holds.{Leaves, Stores}
use project_transport_protoc.Receiver.Put.{put}
use project_transport_protoc.Receiver.Store.Ahead.{process-cases}
use project_transport_protoc.Receiver.Keeps.{Keeps, put-AllBytes, process-Keeps}
use project_transport_protoc.Receiver.Deliver.{Delivers, Carries}
use project_transport_protoc.Receiver.Deliver.Arrivals.{left-Delivers, stored-Delivers}
use project_transport_protoc.Receiver.Loop.{
  Loop, Transfer, connecting, aborted, running, unblock_out_file, after_connect, start,
}
use project_transport_protoc.Receiver.Rounds.{others-Delivers}
use project_transport_protoc.Receiver.Rounds.First.{
  IsFirst, new_buffer, blank, opened, Processed, Opening, Hears-Opening, opened_lem,
  initial-Delivers, stored_first, noted_first,
}

running_inj : {l l' : Loop} → running l ≡ running l' → l ≡ l'
running_inj e = cc

-- How the call stands before the first round: `pkt` is the packet that `net_wait_and_connect` has
-- found in `rs`.
pub data Begins (z : Zlib) (file : ℕ → Mem × ℕ) (connects : Bool) (rs : List Received)
    : Transfer → Type 0 where
  waits : Begins z file connects rs connecting
  gave_up : Begins z file connects rs aborted
  begins :
      (pkt : Pkt) (rest : List Received) (c : ℕ) (l : Loop)
      → Hears z 0 pkt rest max_retries blank rs
      → Processed pkt c l.receiver
      → Delivers file 0 c l.receiver
      → Begins z file connects rs (running l)

module _ (z : Zlib) (file : ℕ → Mem × ℕ) (k max_window : ℕ) (le : k ≤ 5)
    (wide : max_window < 2 ^ k) where
  begun :
      (pkt : Pkt)
      → Opening z file pkt
      → (c : ℕ) × (s' : Receiver) × (process_incoming_pkt
            (slot (opened k) 0)
            (initial max_window (put (opened k) 0 pkt))
          ≡ ret false s')
        × Delivers file 0 c s'
        × Processed pkt c (record s' { need_ack = true })
  begun pkt o = by_cases (
      process-cases (initial-Delivers k le file max_window wide).state pkt (omega arith)
        (omega (arith, o.number)) (omega (arith, o.number)))
    where
      kept :
          (s' : Receiver)
          → process_incoming_pkt (slot (opened k) 0) (initial max_window (put (opened k) 0 pkt))
            ≡ ret false s'
          → Keeps (aside (initial max_window (opened k))) (ret false s')
      kept s' run = subst (Keeps (aside (initial max_window (opened k)))) run (
          process-Keeps (slot (opened k) 0) (initial max_window (put (opened k) 0 pkt))
            (put-AllBytes (opened k) (slot (opened k) 0) pkt (λ i j. omega arith) o.bytes))

      by_cases :
          ((c : ℕ) × (s' : Receiver) × (process_incoming_pkt
                (slot (opened k) 0)
                (initial max_window (put (opened k) 0 pkt))
              ≡ ret false s')
            × ((Layout.tr pkt ≡ 0)
                  × Stores 0 (sub_u8 (Layout.seq pkt) 0) c pkt (initial max_window (opened k)) s'
                ⊎ (0 < Layout.tr pkt) × Leaves 0 (initial max_window (opened k)) s'))
          → (c : ℕ) × (s' : Receiver) × (process_incoming_pkt
                (slot (opened k) 0)
                (initial max_window (put (opened k) 0 pkt))
              ≡ ret false s')
            × Delivers file 0 c s'
            × Processed pkt c (record s' { need_ack = true })
      by_cases (c, s', run, inl (whole, x)) =
          let (bytes, len) = kept s' run in
          let here : 0 ≡ 0 + sub_u8 (Layout.seq pkt) 0 = omega (arith, o.number) in
          (
            c,
            s',
            run,
            stored-Delivers z (initial-Delivers k le file max_window wide) _ c pkt s' x
                (subst (λ i. Carries (file i) pkt) here (o.carries whole)) bytes len,
            stored_first k max_window pkt c s' (omega (arith, o.number)) whole x,
          )
      by_cases (c, s', run, inr (cut, x)) =
          let (bytes, len) = kept s' run in
          (
            0,
            s',
            run,
            left-Delivers z (initial-Delivers k le file max_window wide) s' x bytes len,
            noted_first k max_window pkt s' (omega (arith, o.number)) cut run,
          )

  entered-Begins :
      (connects : Bool) (rs : List Received) (pkt : Pkt) (rest : List Received)
      → Hears z 0 pkt rest max_retries blank rs
      → Opening z file pkt
      → Begins z file connects rs
          (after_connect (slot (opened k) 0) max_window (opened k) (answered net_ok pkt rest))
  entered-Begins connects rs pkt rest x o =
      let (c, s', run, d, first) = begun pkt o in
      rw run (
        begins pkt rest c _ x first
          (others-Delivers true s'.need_nack s'.ack_pkt s'.nack_pkt s'.sent d d.acks d.nacks))

  after_connect-Begins :
      (connects : Bool) (rs : List Received) (a : Connected)
      → All (IsFirst z file) rs
      → net_wait_and_connect z connects ((opened k).head (slot (opened k) 0)) rs 0 ≡ a
      → Begins z file connects rs (after_connect (slot (opened k) 0) max_window (opened k) a)
  after_connect-Begins connects rs waiting good e = waits
  after_connect-Begins connects rs (answered net_ok pkt rest) good e =
      let (_, x) =
        (connect-iff-Hears z connects 0 ((opened k).head (slot (opened k) 0)) pkt rs rest).0 e in
      entered-Begins connects rs pkt rest x (Hears-Opening z file x (λ i. omega arith) good)
  after_connect-Begins connects rs (answered net_error pkt rest) good e = gave_up
  after_connect-Begins connects rs (answered net_drop pkt rest) good e = gave_up

  -- On a new buffer of at most 32 slots, more than the largest window, and if no datagram is a whole
  -- data packet with other data than its chunk's, nor one of another type numbered 0, `receive` waits
  -- for the first packet, gives up, or enters its loop with the invariant and an acknowledgement wanted.
  -- The first packet is then the one that `net_wait_and_connect` has found among the first five
  -- datagrams: whole, it waits in the first place to be written, alone in sequence; cut, none waits
  -- and a NACK for number 0 is wanted. The call never exits.
  pub start-Begins :
      (getfd setfd : Option ℕ) (connects : Bool) (rs : List Received)
      → All (IsFirst z file) rs
      → Begins z file connects rs (start z getfd setfd connects rs max_window (new_buffer (2 ^ k)))
  unfolding start
  start-Begins getfd setfd connects rs good =
      rw (opened_lem k le) (elim (Bool-cases (unblock_out_file getfd setfd)) [
        | inl broken ↦ rw broken gave_up
        | inr fine ↦ rw fine (after_connect-Begins connects rs _ good refl)
      ])

pub Begins-Delivers :
    {z : Zlib} {file : ℕ → Mem × ℕ} {connects : Bool} {rs : List Received} {t : Transfer} {l : Loop}
    → Begins z file connects rs t
    → t ≡ running l
    → (c : ℕ) × Delivers file 0 c l.receiver
Begins-Delivers waits e = cc
Begins-Delivers gave_up e = cc
Begins-Delivers {file} {l = l} (begins pkt rest c l' x first d) e =
    let same : l' ≡ l = running_inj e in (c, subst (λ m. Delivers file 0 c m.receiver) same d)
