-- ===== src/Receiver/Deliver/Arrivals.antt =====
-- What arrives is stored for the chunk of its number.
use mathlib.Core.Path.{subst}
use project_transport_protoc.Receiver.Replies.{answers, aside, aside-len, aside-answers, IsTemplate}
use project_transport_protoc.Prelude.{
  ℕ, ◌+◌, ◌%◌, ◌<◌, ◌≡◌, ◌≢◌, refl, sym, ap, ◌∙◌, inl, inr, ◌==◌, true, false, Bool, Bool-cases,
  ==_iff, arith,
}
use project_transport_protoc.Prelude.Memory.{Mem}
use project_transport_protoc.Prelude.Run.{Run, ret}
use project_transport_protoc.Packet.Layout
use project_transport_protoc.Packet.Layout.{Pkt, ptype_data, ptype_ack, ptype_nack}
use project_transport_protoc.Packet.Codec.{Zlib}
use project_transport_protoc.Pktbuf.{sub_u8}
use project_transport_protoc.Pktbuf.Inv.{nth}
use project_transport_protoc.Net.{Received, IsReceived}
use project_transport_protoc.Receiver.{Receiver, do_receive_data}
use project_transport_protoc.Receiver.Holds.{Leaves, Stores}
use project_transport_protoc.Receiver.Bytes.{AllBytes}
use project_transport_protoc.Receiver.Keeps.{Keeps, receive-Keeps}
use project_transport_protoc.Receiver.Receive.{
  Receipt, broken, dropped, other_type, truncated, stored, do_receive_data-Receipt,
}
use project_transport_protoc.Receiver.Deliver.{Carries, Delivers, IsGenuine, IsNext}

module _ (z : Zlib) {file : ℕ → Mem × ℕ} {n : ℕ} {s : Receiver} (d : Delivers file n 0 s) where
  pub left-Delivers :
      (s' : Receiver)
      → Leaves (n % 256) s s'
      → AllBytes s'.recv_buf
      → aside s' ≡ aside s
      → Delivers file n 0 s'
  left-Delivers s' l bytes same = record {
    state = l.state;
    bytes = bytes;
    holds = λ j pkt h. d.holds j pkt ((l.held j pkt).1 h);
    written = l.written ∙ d.written;
    carried = d.carried;
    fresh = λ f. aside-len s s' same ∙ d.fresh f;
    last_len = λ i f. aside-len s s' same ∙ d.last_len i f;
    acks =
        subst (IsTemplate ptype_ack) (sym (ap (λ (a, b, c). a) (aside-answers s s' same))) d.acks;
    nacks =
        subst (IsTemplate ptype_nack) (sym (ap (λ (a, b, c). b) (aside-answers s s' same))) d.nacks;
  }

  pub stored-Delivers :
      (g c : ℕ) (p : Pkt) (s' : Receiver)
      → Stores (n % 256) g c p s s'
      → Carries (file (n + g)) p
      → AllBytes s'.recv_buf
      → aside s' ≡ aside s
      → Delivers file n c s'
  stored-Delivers g c p s' x carry bytes same = record {
    state = x.state;
    bytes = bytes;
    holds = λ j pkt h. elim (Bool-cases (j == g)) [
      | inl at ↦
          let e : g ≡ j = sym ((==_iff _ _).0 at) in
          let q : p ≡ pkt = sym x.here.1 ∙ ap (nth s'.recv_buf) e ∙ h.1 in
          subst (Carries (file (n + j))) q (subst (λ i. Carries (file (n + i)) p) e carry)
      | inr off ↦ let ne : j ≢ g = ground arith in d.holds j pkt ((x.others j pkt ne).1 h)
    ];
    written = x.written ∙ d.written;
    carried = d.carried;
    fresh = λ f. aside-len s s' same ∙ d.fresh f;
    last_len = λ i f. aside-len s s' same ∙ d.last_len i f;
    acks =
        subst (IsTemplate ptype_ack) (sym (ap (λ (a, b, c). a) (aside-answers s s' same))) d.acks;
    nacks =
        subst (IsTemplate ptype_nack) (sym (ap (λ (a, b, c). b) (aside-answers s s' same))) d.nacks;
  }

  -- `do_receive_data` returns with the first `n` chunks written, whatever arrives of what the network
  -- may deliver.
  receipt-Delivers :
      (received : Received) (r : Run Receiver)
      → Receipt z (n % 256) received s r
      → Keeps (aside s) r
      → IsGenuine z file n received
      → (bad : Bool) × (c : ℕ) × (s' : Receiver) × (r ≡ ret bad s')
        × Delivers file n c s'
        × (answers s' ≡ answers s)
  receipt-Delivers received r (broken junk p s' old e l) (bytes, same) good =
      (true, 0, s', refl, left-Delivers s' l bytes same, aside-answers s s' same)
  receipt-Delivers received r (dropped junk p s' old e l) (bytes, same) good =
      (false, 0, s', refl, left-Delivers s' l bytes same, aside-answers s s' same)
  receipt-Delivers received r (other_type junk p s' old e t l) (bytes, same) good =
      (false, 0, s', refl, left-Delivers s' l bytes same, aside-answers s s' same)
  receipt-Delivers received r (truncated junk p s' old e t l) (bytes, same) good =
      (false, 0, s', refl, left-Delivers s' l bytes same, aside-answers s s' same)
  receipt-Delivers received r (stored junk p c s' old e dat whole x) (bytes, same) good = (
    false,
    c,
    s',
    refl,
    stored-Delivers _ c p s' x
        (good junk p s.max_window old (omega (arith, d.state.wide, d.state.small)) e dat whole)
        bytes same,
    aside-answers s s' same,
  )

  pub receive-Delivers :
      (received : Received)
      → IsReceived received
      → IsGenuine z file n received
      → (bad : Bool) × (c : ℕ) × (s' : Receiver) × (do_receive_data z received s ≡ ret bad s')
        × Delivers file n c s'
        × (answers s' ≡ answers s)
  receive-Delivers received wire good =
      receipt-Delivers received _ (do_receive_data-Receipt z d.state received d.bytes wire)
        (receive-Keeps z received s d.bytes wire) good

  -- The packet that comes next is stored in sequence.
  receipt-next :
      (received : Received) (r : Run Receiver)
      → Receipt z (n % 256) received s r
      → Keeps (aside s) r
      → IsGenuine z file n received
      → IsNext z n s.max_window received
      → (c : ℕ) × (s' : Receiver) × (r ≡ ret false s')
        × (0 < c)
        × Delivers file n c s'
        × (answers s' ≡ answers s)
  receipt-next received r (broken junk p s' old e l) kept good here =
      let (q, ok, _, _, _) = here junk old in absurd (cc (e, ok))
  receipt-next received r (dropped junk p s' old e l) kept good here =
      let (q, ok, _, _, _) = here junk old in absurd (cc (e, ok))
  receipt-next received r (other_type junk p s' old e t l) kept good here =
      let (q, ok, dat, _, _) = here junk old in
      let same : q ≡ p = cc (e, ok) in absurd (t (ap Layout.type (sym same) ∙ dat))
  receipt-next received r (truncated junk p s' old e t l) kept good here =
      let (q, ok, _, whole, _) = here junk old in
      let same : q ≡ p = cc (e, ok) in absurd (omega (arith, t, ap Layout.tr same, whole))
  receipt-next received r (stored junk p c s' old e dat whole x) (bytes, same) good here =
      let (q, ok, _, _, first) = here junk old in
      let at : q ≡ p = cc (e, ok) in
      let gap : sub_u8 (Layout.seq p) (n % 256) ≡ 0 =
        ap (λ k. sub_u8 (Layout.seq k) (n % 256)) (sym at) ∙ first in
      (
        c,
        s',
        refl,
        x.in_order.1 gap,
        stored-Delivers _ c p s' x
            (good junk p s.max_window old (omega (arith, d.state.wide, d.state.small)) e dat whole)
            bytes same,
        aside-answers s s' same,
      )

  pub next-Delivers :
      (received : Received)
      → IsReceived received
      → IsGenuine z file n received
      → IsNext z n s.max_window received
      → (c : ℕ) × (s' : Receiver) × (do_receive_data z received s ≡ ret false s')
        × (0 < c)
        × Delivers file n c s'
        × (answers s' ≡ answers s)
  next-Delivers received wire good here =
      receipt-next received _ (do_receive_data-Receipt z d.state received d.bytes wire)
        (receive-Keeps z received s d.bytes wire) good here
