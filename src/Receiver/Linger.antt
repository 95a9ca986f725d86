-- ===== src/Receiver/Linger.antt =====
-- The last acknowledgements of `receive`, after its loop.
use mathlib.Core.Path.{subst}
use project_transport_protoc.Prelude.{
  ℕ, zero, suc, ◌%◌, ◌<◌, ◌≤◌, ◌≡◌, refl, sym, ap, ◌∙◌, Bool, true, false, List, [], ◌∷◌, ◌++◌, All,
  length, length-append, snoc-append, All-snoc, arith,
}
use project_transport_protoc.Prelude.Run.{Run, ret, and_then}
use project_transport_protoc.Packet.Layout.{Pkt, ptype_ack}
use project_transport_protoc.Packet.Codec.{Zlib, pkt_encode_inline}
use project_transport_protoc.Net.{Link, Datagram, net_send}
use project_transport_protoc.Receiver.{Receiver, Output, fill_answer, not_ok, send_ack}
use project_transport_protoc.Receiver.Loop.{Poll, error, timeout, ready, linger}
use project_transport_protoc.Receiver.Replies.{
  IsTemplate, IsAckOf, ack-IsTemplate, ack-IsAckOf, net_send-sent,
}
use project_transport_protoc.Sender.Send.{on_wire}

module _ (z : Zlib) (link : Link) (n : ℕ) where
  -- The call has returned with `s'`, after at most `left` more ACKs for `n` chunks.
  pub record Lingered (left : ℕ) (s : Receiver) (r : Run Receiver) : Type 0 where
    pub bad : Bool
    pub s' : Receiver
    pub new : List Datagram
    pub returns : r ≡ ret bad s'
    pub sent : s'.sent ≡ new ++ s.sent
    pub few : length new ≤ left
    pub replies : All (IsAckOf z n) new
    pub written : s'.written ≡ s.written

  none_sent : (left : ℕ) (bad : Bool) (s : Receiver) → Lingered left s (ret bad s)
  none_sent left bad s = record {
    bad = bad;
    s' = s;
    new = [];
    returns = refl;
    sent = refl;
    few = omega arith;
    replies = tt;
    written = refl;
  }

  acked : Receiver → Receiver
  acked s =
      let pkt : Pkt = pkt_encode_inline z (fill_answer s.ack_pkt s.expected_seq s) in
      record s { ack_pkt = pkt; sent = (net_send link s.sent pkt).1 }

  send_ack_lem : (s : Receiver) → (bad : Bool) × (send_ack z link s ≡ ret bad (acked s))
  unfolding send_ack acked
  send_ack_lem s =
      let pkt : Pkt = pkt_encode_inline z (fill_answer s.ack_pkt s.expected_seq s) in
      (not_ok (net_send link s.sent pkt).0, refl)

  acked_sent :
      (s : Receiver)
      → (acked s).sent
        ≡ on_wire (pkt_encode_inline z (fill_answer s.ack_pkt s.expected_seq s)) ∷ s.sent
  unfolding acked
  acked_sent s =
      net_send-sent z link s.sent (pkt_encode_inline z (fill_answer s.ack_pkt s.expected_seq s))

  acked_kept :
      (s : Receiver)
      → ((acked s).written ≡ s.written)
        × ((acked s).expected_seq ≡ s.expected_seq)
        × ((acked s).ack_pkt ≡ pkt_encode_inline z (fill_answer s.ack_pkt s.expected_seq s))
  unfolding acked
  acked_kept s = (refl, refl, refl)

  one_sent :
      (left : ℕ) (bad : Bool) (s : Receiver)
      → IsTemplate ptype_ack s.ack_pkt
      → s.expected_seq ≡ n % 256
      → Lingered (suc left) s (ret bad (acked s))
  one_sent left bad s t e = record {
    bad = bad;
    s' = acked s;
    new = on_wire (pkt_encode_inline z (fill_answer s.ack_pkt s.expected_seq s)) ∷ [];
    returns = refl;
    sent = acked_sent s;
    few = omega arith;
    replies = (ack-IsAckOf z s n t e, tt);
    written = (acked_kept s).0;
  }

  more_sent :
      (left : ℕ) (s : Receiver) {r : Run Receiver}
      → IsTemplate ptype_ack s.ack_pkt
      → s.expected_seq ≡ n % 256
      → Lingered left (acked s) r
      → Lingered (suc left) s r
  more_sent left s t e x =
      let d : Datagram = on_wire (pkt_encode_inline z (fill_answer s.ack_pkt s.expected_seq s)) in
      record {
        bad = x.bad;
        s' = x.s';
        new = x.new ++ (d ∷ []);
        returns = x.returns;
        sent = x.sent ∙ ap (λ ds. x.new ++ ds) (acked_sent s) ∙ sym (snoc-append x.new d s.sent);
        few = omega (arith, x.few, length-append x.new (d ∷ []));
        replies = All-snoc (IsAckOf z n) x.new d x.replies (ack-IsAckOf z s n t e);
        written = x.written ∙ (acked_kept s).0;
      }

  -- With `ack_pkt` an ACK without payload and `expected_seq` the number `n` modulo 256, if `poll`
  -- answers more than `left` times, the loop returns; whatever the answers are, it has sent at most
  -- `left` datagrams more, all of them encoded ACKs without payload and with the number `n`
  -- modulo 256, and written nothing.
  pub linger-Lingered :
      (out : Output) (left : ℕ) (ps : List Poll) (s : Receiver)
      → left < length ps
      → IsTemplate ptype_ack s.ack_pkt
      → s.expected_seq ≡ n % 256
      → Lingered left s (linger z link out left ps s)
  unfolding linger
  linger-Lingered out left [] s enough t e = absurd (omega arith)
  linger-Lingered out zero (timeout ∷ ps) s enough t e = none_sent zero false s
  linger-Lingered out zero (error ∷ ps) s enough t e = none_sent zero false s
  linger-Lingered out zero (ready socket file ∷ ps) s enough t e = none_sent zero false s
  linger-Lingered out (suc left) (timeout ∷ ps) s enough t e = none_sent (suc left) false s
  linger-Lingered out (suc left) (error ∷ ps) s enough t e = none_sent (suc left) true s
  linger-Lingered out (suc left) (ready socket file ∷ ps) s enough t e =
      let (bad, run) = send_ack_lem s in
      let (_, same, pkt) = acked_kept s in
      let t' : IsTemplate ptype_ack (acked s).ack_pkt =
        subst (IsTemplate ptype_ack) (sym pkt) (ack-IsTemplate z s s.expected_seq t) in
      rw run (
        by_result bad (linger-Lingered out left ps (acked s) (omega (arith, enough)) t' (same ∙ e)))
    where
      by_result :
          (bad : Bool)
          → Lingered left (acked s) (linger z link out left ps (acked s))
          → Lingered
              (suc left)
              s
              (and_then (ret bad (acked s)) (λ s'. linger z link out left ps s'))
      by_result true x = one_sent left true s t e
      by_result false x = more_sent left s t e x
