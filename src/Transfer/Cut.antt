-- ===== src/Transfer/Cut.antt =====
-- The file as far as the sender has read it: no packet carries a chunk from number `total` on.
use mathlib.Core.Path.{subst}
use native.Mathlib.Decide.{dec_lt}
use project_transport_protoc.Prelude.{
  ℕ, zero, suc, ◌+◌, ◌<◌, ◌≤◌, ◌≡◌, refl, sym, ap, ap₂, ◌∙◌, ltb, if◌then◌else◌, some, arith,
}
use project_transport_protoc.Prelude.Memory.{Mem, IsBytes}
use project_transport_protoc.Packet.Layout.{Pkt}
use project_transport_protoc.Packet.Codec.{Zlib}
use project_transport_protoc.Sender.Stream.{IsChunk}
use project_transport_protoc.Receiver.{Receiver}
use project_transport_protoc.Receiver.Deliver.{Carries, Delivers, add, output}

-- A chunk that is longer than the length field of a packet can say stands for those to come.
abbrev pub cut : (ℕ → Mem × ℕ) → ℕ → ℕ → Mem × ℕ
cut file total i = if ltb i total then file i else ((λ k. 0), 65536)

module _ (file : ℕ → Mem × ℕ) where
  pub cut-before : (total i : ℕ) → i < total → cut file total i ≡ file i
  cut-before total i lt = ground arith

  cut-after : (total i : ℕ) → total ≤ i → (cut file total i).1 ≡ 65536
  cut-after total i le = ground arith

  pub carried_below :
      (total i : ℕ) (pkt : Pkt) → IsBytes pkt → Carries (cut file total i) pkt → i < total
  carried_below total i pkt bytes c = elim (dec_lt i total) [
    | yes lt ↦ lt
    | no ge ↦ absurd (ground (arith, c.length, cut-after total i (omega arith), bytes 2, bytes 3))
  ]

  pub cut-IsChunk :
      {z : Zlib} {total i : ℕ} {pkt : Pkt}
      → i < total
      → IsChunk z i (file i).0 (file i).1 pkt
      → IsChunk z i (cut file total i).0 (cut file total i).1 pkt
  cut-IsChunk {z} {total} {i} {pkt} lt c =
      subst (λ chunk. IsChunk z i chunk.0 chunk.1 pkt) (sym (cut-before total i lt)) c

  grown : (total total' i : ℕ) → i < total → total ≤ total' → cut file total i ≡ cut file total' i
  grown total total' i lt le = cut-before total i lt ∙ sym (cut-before total' i (omega arith))

  output-grown :
      (total total' n : ℕ)
      → n ≤ total
      → total ≤ total'
      → output (cut file total) n ≡ output (cut file total') n
  output-grown total total' zero le more = refl
  output-grown total total' (suc n) le more =
      ap₂ add (grown total total' n (omega arith) more)
        (output-grown total total' n (omega arith) more)

  pub output-cut : (total n : ℕ) → n ≤ total → output (cut file total) n ≡ output file n
  output-cut total zero le = refl
  output-cut total (suc n) le =
      ap₂ add (cut-before total n (omega arith)) (output-cut total n (omega arith))

  module _ {total n c : ℕ} {s : Receiver} (d : Delivers (cut file total) n c s) where
    -- What is written and what waits has been read.
    pub written_below : n ≤ total
    written_below = by_count n refl
      where
        by_count : (m : ℕ) → m ≡ n → n ≤ total
        by_count zero at = omega (arith, at)
        by_count (suc i) at =
            let (pkt, bytes, carries) = d.carried i (omega (arith, at)) in
            omega (arith, at, carried_below total i pkt bytes carries)

    -- The sender reads on.
    pub Delivers-grown : (total' : ℕ) → total ≤ total' → Delivers (cut file total') n c s
    Delivers-grown total' le = record {
      state = d.state;
      bytes = d.bytes;
      holds = λ j pkt h.
          let bytes : IsBytes pkt = subst IsBytes h.1 (d.bytes _) in
          move (n + j) pkt bytes (d.holds j pkt h);
      written = d.written ∙ output-grown total total' n written_below le;
      carried = λ i lt.
          let (pkt, bytes, carries) = d.carried i lt in (pkt, bytes, move i pkt bytes carries);
      fresh = d.fresh;
      last_len = λ i e.
          d.last_len i e
          ∙ ap (λ chunk. some chunk.1) (grown total total' i (omega (arith, e, written_below)) le);
      acks = d.acks;
      nacks = d.nacks;
    }
      where
        move :
            (i : ℕ) (pkt : Pkt)
            → IsBytes pkt
            → Carries (cut file total i) pkt
            → Carries (cut file total' i) pkt
        move i pkt bytes carries =
            subst (λ chunk. Carries chunk pkt)
              (grown total total' i (carried_below total i pkt bytes carries) le) carries
