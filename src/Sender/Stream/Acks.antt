-- ===== src/Sender/Stream/Acks.antt =====
-- What arrives on the socket frees packets of the stream, or sends some of them again.
use mathlib.Core.Path.{subst}
use project_transport_protoc.Prelude.{
  ℕ, ◌+◌, ◌%◌, ◌<◌, ◌≤◌, ◌≡◌, refl, ap, ◌∙◌, ◌⊎◌, inl, inr, Bool, true, false, ◌==◌, if◌then◌else◌,
  Bool-cases, ==_iff, arith, sym,
}
use project_transport_protoc.Prelude.Memory.{Mem, IsBytes}
use project_transport_protoc.Prelude.Run.{Run, ret, undefined}
use project_transport_protoc.Packet.Layout
use project_transport_protoc.Packet.Layout.{Pkt, ptype_ack}
use project_transport_protoc.Packet.Codec.{Zlib}
use project_transport_protoc.Pktbuf.{sub_u8, pktbuf_used}
use project_transport_protoc.Pktbuf.Inv.{nth}
use project_transport_protoc.Net.{Link, Received, IsReceived, net_ok, net_recv_pkt}
use project_transport_protoc.Sender.{
  Sender, add_u8, max_dup_ack, process_nack, process_ack, process_dup_ack, handle_socket_read,
}
use project_transport_protoc.Sender.Inv.{IsSender-others, flight}
use project_transport_protoc.Sender.Send.{on_wire, fails, sending, send_lem, sending-IsSender}
use project_transport_protoc.Sender.Ack.{Acked, process_ack-Acked}
use project_transport_protoc.Sender.Nack.{process_nack-cases, dup_ack_third}
use project_transport_protoc.Sender.Events.{handle_socket_read-Handled}
use project_transport_protoc.Sender.Stream.{
  Streams, Streams-same, Follows, Follows-refl, same-Follows, AcksBelow,
}

-- How a handler of the socket ends: with the same stream, no more packets in the buffer, or by
-- reading NULL with an empty buffer.
pub data Keeps {z : Zlib} {file : ℕ → Mem × ℕ} {total : ℕ} {s : Sender} (may : ℕ → Type 0)
    (h : Streams z file total s) : Run Sender → Type 0 where
  kept :
      (bad : Bool) (s' : Sender) (h' : Streams z file total s')
      → Follows may h h'
      → pktbuf_used s'.send_buf ≤ pktbuf_used s.send_buf
      → s'.send_buf.capacity ≡ s.send_buf.capacity
      → s'.last_in_read ≡ s.last_in_read
      → Keeps may h (ret bad s')
  null_on_empty : pktbuf_used s.send_buf ≡ 0 → Keeps may h undefined

module _ (z : Zlib) (link : Link) (file : ℕ → Mem × ℕ) (total : ℕ) where
  -- Other variables of the sender change.
  Streams-others :
      {s : Sender} (win dup retry : ℕ)
      → Streams z file total s
      → Streams z file total (record s { last_win = win; dup_ack = dup; retry_count = retry })
  Streams-others {s} win dup retry h =
      Streams-same _ h (IsSender-others win dup retry s.last_in_read s.sent h.state) refl refl refl
        h.trace

  set-Follows :
      {may : ℕ → Type 0} {s : Sender} (win dup retry : ℕ) (h : Streams z file total s)
      → Follows may h (Streams-others win dup retry h)
  unfolding Streams-others
  set-Follows win dup retry h = same-Follows _ refl refl refl _ (Follows-refl h)

  -- What follows after the change follows before it.
  others-Follows :
      {may : ℕ → Type 0} {s s' : Sender} (win dup retry : ℕ) (h : Streams z file total s)
      (h' : Streams z file total s')
      → Follows may (Streams-others win dup retry h) h'
      → Follows may h h'
  unfolding Streams-others Streams-same
  others-Follows win dup retry h h' f = record {
    agree = f.agree;
    newest = f.newest;
    bound = f.bound;
  }

  Acked-Streams :
      {n : ℕ} {s s' : Sender}
      → Streams z file total s
      → Acked n s s'
      → s'.last_ack ≡ (s.last_ack + n) % 256
      → Streams z file total s'
  Acked-Streams {n} {s} {s'} h a e = record {
    packets = h.packets;
    acked = h.acked + n;
    state = a.state;
    used = omega (arith, h.used, a.used);
    ack = omega (arith, e, h.ack);
    last = rw a.last h.last;
    made = h.made;
    kept = λ j lt. a.kept j ∙ h.kept (n + j) (omega (arith, a.used)) ∙ ap h.packets (omega arith);
    filled = rw (a.head, a.capacity) h.filled;
    clean = rw a.head h.clean;
    trace = rw a.sent h.trace;
    fresh = λ z. a.last_in_read ∙ h.fresh z;
    read = λ i z. a.last_in_read ∙ h.read i z;
    more = h.more;
  }

  Acked-Follows :
      {may : ℕ → Type 0} {n : ℕ} {s s' : Sender} (h : Streams z file total s) (a : Acked n s s')
      (e : s'.last_ack ≡ (s.last_ack + n) % 256)
      → ((top : ℕ) → may top → h.acked + n ≤ top)
      → Follows may h (Acked-Streams h a e)
  unfolding Acked-Streams
  Acked-Follows h a e known = record {
    agree = λ i lt. refl;
    newest = λ lt. absurd (omega arith);
    bound = λ top le may. known top may;
  }

  send-Keeps :
      {may : ℕ → Type 0} (s : Sender) (i : ℕ) (pkt : Pkt) (dup : ℕ) (h : Streams z file total s)
      → i < total
      → pkt ≡ h.packets i
      → Keeps may h (ret (fails link pkt s) (sending pkt (record s { dup_ack = dup })))
  send-Keeps s i pkt dup h lt e =
      kept _ _
        (Streams-same _ h
          (sending-IsSender z link pkt
            (IsSender-others s.last_win dup s.retry_count s.last_in_read s.sent h.state))
          refl refl refl ((i, lt, ap on_wire e), h.trace))
        (same-Follows _ refl refl refl _ (Follows-refl h)) (omega arith) refl refl

  process_nack-Keeps :
      {may : ℕ → Type 0} (nack : ℕ) (s : Sender) (h : Streams z file total s)
      → Keeps may h (process_nack z link nack s)
  process_nack-Keeps nack s h = elim (process_nack-cases z link nack s h.state) [
    | inl e ↦ rw e (kept false s h (Follows-refl h) (omega arith) refl refl)
    | inr (j, lt, e) ↦
        let (i, below, same) =
          h.filled j (omega (arith, h.used)) (omega (arith, h.state.ring.fits)) in
        rw (e, send_lem z link (s.send_buf.head j) s)
          (send-Keeps s i (s.send_buf.head j) s.dup_ack h below same)
  ]

  process_ack-Keeps :
      {may : ℕ → Type 0} (ack : ℕ) (s : Sender) (h : Streams z file total s)
      → ack < 256
      → sub_u8 ack s.last_ack ≤ flight s
      → ((top : ℕ) → may top → h.acked + sub_u8 ack s.last_ack ≤ top)
      → Keeps may h (process_ack z link ack s)
  process_ack-Keeps ack s h small le known =
      let (s', run, a, last, _) = process_ack-Acked z link ack s h.state small le in
      let at : s'.last_ack ≡ (s.last_ack + sub_u8 ack s.last_ack) % 256 =
        last ∙ omega (arith, h.state.ack_in) in
      rw run (
        kept false s' (Acked-Streams h a at) (Acked-Follows h a at known) (omega (arith, a.used))
          a.capacity a.last_in_read)

  process_dup_ack-Keeps :
      {may : ℕ → Type 0} (ack : ℕ) (s : Sender) (h : Streams z file total s)
      → Keeps may h (process_dup_ack z link ack s)
  unfolding process_dup_ack
  process_dup_ack-Keeps {may} ack s h = elim (Bool-cases (add_u8 s.dup_ack 1 == max_dup_ack)) [
    | inr few ↦
        rw (few, process_dup_ack)
          (kept false _ (Streams-others s.last_win (add_u8 s.dup_ack 1) s.retry_count h)
            (set-Follows s.last_win (add_u8 s.dup_ack 1) s.retry_count h) (omega arith) refl refl)
    | inl third ↦
        rw (dup_ack_third z link ack s h.state ((==_iff _ _).0 third))
          (third_sent (Bool-cases (pktbuf_used s.send_buf == 0)))
  ]
    where
      third_sent :
          (pktbuf_used s.send_buf == 0) ≡ true ⊎ (pktbuf_used s.send_buf == 0) ≡ false
          → Keeps may h (
              if pktbuf_used s.send_buf == 0
              then undefined
              else ret
                  (fails link (nth s.send_buf 0) s)
                  (sending (nth s.send_buf 0) (record s { dup_ack = 0 })))
      third_sent (inl none_left) = rw none_left (null_on_empty ((==_iff _ _).0 none_left))
      third_sent (inr left) =
          let some_left : 0 < pktbuf_used s.send_buf = ground arith in
          rw left (
            send-Keeps s (h.acked + 0) (nth s.send_buf 0) 0 h (omega (arith, h.used))
              (h.kept 0 some_left))

  -- The number of an acknowledgement, which may only be of what has arrived.
  abbrev From : {s : Sender} → Pkt → Received → Streams z file total s → ℕ → Type 0
  From {s} junk received h ack =
      (p : Pkt) × (net_recv_pkt z junk received s.last_ack
          (add_u8 (sub_u8 s.last_sent s.last_ack) 1)
        ≡ (net_ok, p))
      × (Layout.type p ≡ ptype_ack)
      × (Layout.seq p ≡ ack)

  From-AcksBelow :
      {s : Sender} (junk : Pkt) (received : Received) (h : Streams z file total s) (ack top : ℕ)
      → IsBytes junk
      → From junk received h ack
      → AcksBelow z h.acked (pktbuf_used s.send_buf) top received
      → h.acked + sub_u8 ack s.last_ack ≤ top
  From-AcksBelow {s} junk received h ack top old (p, e, kind, same) may =
      let win : ℕ = add_u8 (sub_u8 s.last_sent s.last_ack) 1 in
      let e' : net_recv_pkt z junk received (h.acked % 256) win ≡ (net_ok, p) =
        subst (λ b. net_recv_pkt z junk received b win ≡ (net_ok, p)) h.ack e in
      let le =
        may junk p win old (omega (arith, h.state.in_flight, h.state.sent_in, h.state.ack_in)) e'
          kind in
      subst (λ b. h.acked + sub_u8 ack b ≤ top) (sym h.ack)
        (subst (λ q. h.acked + sub_u8 q (h.acked % 256) ≤ top) same le)

  others-Keeps :
      {may : ℕ → Type 0} {s : Sender} {r : Run Sender} (win dup retry : ℕ)
      (h : Streams z file total s)
      → Keeps may (Streams-others win dup retry h) r
      → Keeps may h r
  others-Keeps win dup retry h (kept bad s' x f le cap read) =
      kept bad s' x (others-Follows win dup retry h x f) le cap read
  others-Keeps win dup retry h (null_on_empty e) = null_on_empty e

  others-acked :
      {s : Sender} (win dup retry : ℕ) (h : Streams z file total s)
      → (Streams-others win dup retry h).acked ≡ h.acked
  unfolding Streams-others Streams-same
  others-acked win dup retry h = refl

  -- Whatever arrives, the stream is kept.
  pub handle_socket_read-Keeps :
      (junk : Pkt) (received : Received) (s : Sender) (h : Streams z file total s)
      → IsBytes junk
      → IsReceived received
      → Keeps
          (λ top. AcksBelow z h.acked (pktbuf_used s.send_buf) top received)
          h
          (handle_socket_read z link junk received s)
  handle_socket_read-Keeps junk received s h old good =
      handle_socket_read-Handled z link (Keeps may h) (From junk received h) junk received s h.state
        old good (λ p e kind. (p, e, kind, refl))
        (record {
          broken = kept true _ (h' s.last_win) (same s.last_win) (omega arith) refl refl;
          ignored = kept false _ (h' s.last_win) (same s.last_win) (omega arith) refl refl;
          nack = λ nack win. others-Keeps win s.dup_ack 0 h (process_nack-Keeps nack _ (h' win));
          dup_ack =
              λ ack win. others-Keeps win s.dup_ack 0 h (process_dup_ack-Keeps ack _ (h' win));
          ack = λ ack win small le from. others-Keeps win s.dup_ack 0 h (
              process_ack-Keeps ack _ (h' win) small le (λ top known.
                rw (others-acked win s.dup_ack 0 h)
                  (From-AcksBelow junk received h ack top old from known)));
        })
    where
      may : ℕ → Type 0
      may top = AcksBelow z h.acked (pktbuf_used s.send_buf) top received

      h' : (win : ℕ) → Streams z file total (record s { last_win = win; retry_count = 0 })
      h' win = Streams-others win s.dup_ack 0 h

      same : (win : ℕ) → Follows may h (h' win)
      same win = set-Follows win s.dup_ack 0 h
