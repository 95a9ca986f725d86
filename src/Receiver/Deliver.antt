-- ===== src/Receiver/Deliver.antt =====
-- The receiver as a stream: the chunks of a file, in order, of which the first `n` are written.
pub mod Arrivals
use mathlib.Core.Path.{subst}
use native.Mathlib.Decide.{dec_lt}
use project_transport_protoc.Receiver.Replies.{answers, aside, aside-len, aside-answers, IsTemplate}
use project_transport_protoc.Prelude.{
  ℕ, zero, suc, ◌+◌, ◌%◌, ◌-◌, ◌≤◌, ◌<◌, ◌≡◌, ◌≢◌, refl, sym, ap, ap₂, ◌∙◌, inl, inr, ◌==◌, true,
  false, if◌then◌else◌, Bool, List, [], ◌∷◌, none, some, Bool-cases, ==_iff, arith,
}
use project_transport_protoc.Prelude.Memory.{Mem, IsBytes, slice}
use project_transport_protoc.Prelude.Run.{Run, ret}
use project_transport_protoc.Packet.Layout
use project_transport_protoc.Packet.Layout.{Pkt, ptype_data, ptype_ack, ptype_nack}
use project_transport_protoc.Packet.Codec.{Zlib}
use project_transport_protoc.Pktbuf.{sub_u8}
use project_transport_protoc.Pktbuf.Inv.{nth, slot}
use project_transport_protoc.Net.{net_ok, Received, IsReceived, net_recv_pkt}
use project_transport_protoc.Receiver.{Receiver, do_receive_data}
use project_transport_protoc.Receiver.Inv.{IsReceiver}
use project_transport_protoc.Receiver.Holds.{Holds, Leaves, Stores}
use project_transport_protoc.Receiver.Bytes.{AllBytes}
use project_transport_protoc.Receiver.Keeps.{Keeps, receive-Keeps}
use project_transport_protoc.Receiver.Empty.{append, chunks, Emptied}
use project_transport_protoc.Receiver.Receive.{
  Receipt, broken, dropped, other_type, truncated, stored, do_receive_data-Receipt,
}

-- The packet's payload is the chunk, of `len` bytes.
pub record Carries (chunk : Mem × ℕ) (pkt : Pkt) : Type 0 where
  pub length : Layout.length pkt ≡ chunk.1
  pub payload : (i : ℕ) → i < chunk.1 → pkt (12 + i) ≡ chunk.0 i

-- The trace after a chunk was written; there is no write of an empty one.
abbrev pub add : Mem × ℕ → List (List ℕ) → List (List ℕ)
add (m, len) ws = if len == 0 then ws else slice m 0 len ∷ ws

-- The trace after the first chunks of the file were written, newest first.
abbrev pub output : (ℕ → Mem × ℕ) → ℕ → List (List ℕ)
output file zero = []
output file (suc n) = add (file n) (output file n)

-- The first `n` chunks are written, each from a packet that carried it, the next `c` are in sequence,
-- and every place that holds a packet holds the one for its chunk.
pub record Delivers (file : ℕ → Mem × ℕ) (n c : ℕ) (s : Receiver) : Type 0 where
  pub state : IsReceiver (n % 256) c s
  pub bytes : AllBytes s.recv_buf
  pub holds : (j : ℕ) (pkt : Pkt) → Holds s j pkt → Carries (file (n + j)) pkt
  pub written : s.written ≡ output file n
  pub carried : (i : ℕ) → i < n → (pkt : Pkt) × IsBytes pkt × Carries (file i) pkt
  pub fresh : n ≡ 0 → s.last_written_len ≡ none
  pub last_len : (i : ℕ) → n ≡ suc i → s.last_written_len ≡ some (file i).1
  pub acks : IsTemplate ptype_ack s.ack_pkt
  pub nacks : IsTemplate ptype_nack s.nack_pkt

-- What the network may deliver when `n` chunks are written: anything but a whole data packet of the
-- window that carries other data than the chunk of its number.
abbrev pub IsGenuine : Zlib → (ℕ → Mem × ℕ) → ℕ → Received → Type 0
IsGenuine z file n received =
    (junk p : Pkt) (win : ℕ)
    → IsBytes junk
    → win < 32
    → net_recv_pkt z junk received (n % 256) win ≡ (net_ok, p)
    → Layout.type p ≡ ptype_data
    → Layout.tr p ≡ 0
    → Carries (file (n + sub_u8 (Layout.seq p) (n % 256))) p

-- The network delivers the packet that comes next after `n` chunks.
abbrev pub IsNext : Zlib → ℕ → ℕ → Received → Type 0
IsNext z n win received =
    (junk : Pkt)
    → IsBytes junk
    → (p : Pkt) × (net_recv_pkt z junk received (n % 256) win ≡ (net_ok, p))
      × (Layout.type p ≡ ptype_data)
      × (Layout.tr p ≡ 0)
      × (sub_u8 (Layout.seq p) (n % 256) ≡ 0)

slice_moved :
    (m m' : Mem) (a b n : ℕ)
    → ((i : ℕ) → i < n → m (a + i) ≡ m' (b + i))
    → slice m a n ≡ slice m' b n
slice_moved m m' a b zero same = refl
slice_moved m m' a b (suc n) same =
    ap₂ ◌∷◌ (ground (arith, same 0 (omega arith)))
      (slice_moved m m' (a + 1) (b + 1) n (λ i h. ground (arith, same (suc i) (omega arith))))

append-add :
    (chunk : Mem × ℕ) (pkt : Pkt) (ws : List (List ℕ))
    → Carries chunk pkt
    → append pkt ws ≡ add chunk ws
append-add (m, len) pkt ws c =
    let same : slice pkt 12 len ≡ slice m 0 len =
      slice_moved pkt m 12 0 len (λ i h. ground (arith, c.payload i h)) in
    rw (c.length, same) refl

chunks-output :
    (file : ℕ → Mem × ℕ) (k n m : ℕ) (pkts : ℕ → Pkt) (ws : List (List ℕ))
    → m ≡ n + k
    → ws ≡ output file n
    → ((j : ℕ) → j < k → Carries (file (n + j)) (pkts j))
    → chunks pkts k ws ≡ output file m
chunks-output file zero n m pkts ws at e carry =
    let same : n ≡ m = omega (arith, at) in e ∙ ap (output file) same
chunks-output file (suc k) n m pkts ws at e carry =
    chunks-output file k (suc n) m (λ j. pkts (suc j)) (append (pkts 0) ws) (omega (arith, at))
      (append-add (file n) (pkts 0) ws (moved n (carry 0 (omega arith)) (omega arith))
        ∙ ap (add (file n)) e)
      (λ j h. moved (suc n + j) (carry (suc j) (omega arith)) (omega arith))
  where
    moved : {i : ℕ} {pkt : Pkt} (i' : ℕ) → Carries (file i) pkt → i ≡ i' → Carries (file i') pkt
    moved {pkt = pkt} i' c same = subst (λ j. Carries (file j) pkt) same c

module _ {file : ℕ → Mem × ℕ} {n c : ℕ} {s s' : Receiver} (d : Delivers file n c s)
    (e : Emptied (n % 256) c c s s') where
  none_left : e.left ≡ 0
  none_left = omega (arith, e.count)

  after_last : (k i : ℕ) → c ≡ k → n + c ≡ suc i → s'.last_written_len ≡ some (file i).1
  after_last zero i at f = e.same_len none_left at ∙ d.last_len i (omega arith)
  after_last (suc m) i more f =
      let at : n + m ≡ i = omega (arith, more) in
      e.last_len none_left m more
      ∙ ap some ((d.holds m (nth s.recv_buf m) (d.state.ones m (omega arith), refl)).length)
      ∙ ap (λ j. some (file j).1) at

  place : (i : ℕ) → n ≤ i → i < n + c → (j : ℕ) × (j < c) × (n + j ≡ i)
  place i lo hi = (i - n, omega arith, omega arith)

  in_turn :
      (i : ℕ) → (j : ℕ) × (j < c) × (n + j ≡ i) → (pkt : Pkt) × IsBytes pkt × Carries (file i) pkt
  in_turn i (j, lt, at) =
      let pkt : Pkt = nth s.recv_buf j in
      (
        pkt,
        d.bytes (slot s.recv_buf j),
        subst (λ k. Carries (file k) pkt) at (d.holds j pkt (d.state.ones j lt, refl)),
      )

  all_carried : (i : ℕ) → i < n + c → (pkt : Pkt) × IsBytes pkt × Carries (file i) pkt
  all_carried i lt = elim (dec_lt i n) [
    | yes older ↦ d.carried i older
    | no new ↦ in_turn i (place i (omega arith) lt)
  ]

  -- All packets in sequence are written.
  pub emptied-Delivers : Delivers file (n + c) 0 s'
  emptied-Delivers = record {
    state =
        let at : e.next ≡ (n + c) % 256 = e.next_base ∙ omega arith in
        subst (λ b. IsReceiver b 0 s') at (subst (λ l. IsReceiver e.next l s') none_left e.state);
    bytes = λ i. rw e.head (d.bytes i);
    holds = λ j pkt (b, same).
        let at : n + (c + j) ≡ n + c + j = omega arith in
        subst (λ i. Carries (file i) pkt) at
          (d.holds (c + j) pkt (sym (e.marks j) ∙ b, sym (e.kept j) ∙ same));
    written =
        e.written
        ∙ chunks-output file c n (n + c) (nth s.recv_buf) s.written refl d.written
            (λ j h. d.holds j (nth s.recv_buf j) (d.state.ones j h, refl));
    carried = all_carried;
    fresh = λ f. e.same_len none_left (omega arith) ∙ d.fresh (omega arith);
    last_len = λ i f. after_last c i refl f;
    acks = subst (IsTemplate ptype_ack) (sym (ap (λ (a, b, c). a) e.answers)) d.acks;
    nacks = subst (IsTemplate ptype_nack) (sym (ap (λ (a, b, c). b) e.answers)) d.nacks;
  }
