-- ===== src/Receiver/Replies.antt =====
-- The acknowledgements that the receiver sends: packets without payload, made in two static packets
-- that are used again and again.
use project_transport_protoc.Prelude.{
  ℕ, ◌%◌, ◌≡◌, refl, ◌∙◌, ap, ◌⊎◌, inl, inr, List, ◌∷◌, ◌++◌, All, Option, arith,
}
use project_transport_protoc.Prelude.Memory.{IsBytes}
use project_transport_protoc.Packet.Layout
use project_transport_protoc.Packet.Layout.{Pkt, ptype_ack, ptype_nack}
use project_transport_protoc.Packet.Codec.{Zlib, pkt_encode_inline}
use project_transport_protoc.Packet.Codec.Encode.{Encoded, encode-Encoded}
use project_transport_protoc.Packet.Codec.RoundTrip.{encode-IsBytes}
use project_transport_protoc.Packet.Codec.Transfer.{IsSendable}
use project_transport_protoc.Net.{Datagram, Link, net_send}
use project_transport_protoc.Receiver.{Receiver, fill_answer}
use project_transport_protoc.Sender.Send.{on_wire}

-- What only `send_ack` and `send_nack` change.
abbrev pub answers : Receiver → Pkt × Pkt × List Datagram
answers s = (s.ack_pkt, s.nack_pkt, s.sent)

-- What `do_receive_data` leaves as it is.
pub record Aside : Type 0 where
  pub last_written_len : Option ℕ
  pub ack_pkt : Pkt
  pub nack_pkt : Pkt
  pub sent : List Datagram

abbrev pub aside : Receiver → Aside
aside s = record {
  last_written_len = s.last_written_len;
  ack_pkt = s.ack_pkt;
  nack_pkt = s.nack_pkt;
  sent = s.sent;
}

pub aside-answers : (s s' : Receiver) → aside s' ≡ aside s → answers s' ≡ answers s
aside-answers s s' e = ap (λ (a : Aside). (a.ack_pkt, a.nack_pkt, a.sent)) e

pub aside-len : (s s' : Receiver) → aside s' ≡ aside s → s'.last_written_len ≡ s.last_written_len
aside-len s s' e = ap (λ (a : Aside). a.last_written_len) e

-- A packet of the type `kind`, whole and without payload, in either order of the bytes.
pub record IsTemplate (kind : ℕ) (pkt : Pkt) : Type 0 where
  pub bytes : IsBytes pkt
  pub type : Layout.type pkt ≡ kind
  pub whole : Layout.tr pkt ≡ 0
  pub empty : Layout.length pkt ≡ 0

-- An encoded packet without payload; if it is an ACK, its number is that of chunk `n`.
pub record IsReply (z : Zlib) (n : ℕ) (d : Datagram) : Type 0 where
  pub host : Pkt
  pub pkt : Pkt
  pub sendable : IsSendable host
  pub encoded : Encoded z host pkt
  pub bytes : IsBytes pkt
  pub here : d ≡ on_wire pkt
  pub empty : Layout.length host ≡ 0
  pub number : Layout.type host ≡ ptype_ack → Layout.seq host ≡ n % 256

-- An encoded ACK without payload whose number is that of chunk `n`.
abbrev pub IsAckOf : Zlib → ℕ → Datagram → Type 0
IsAckOf z n d = (r : IsReply z n d) × (Layout.type r.host ≡ ptype_ack)

-- The datagrams that `s'` has sent and `s` has not are replies for `n` chunks.
abbrev pub Replied : Zlib → ℕ → Receiver → Receiver → Type 0
Replied z n s s' = (new : List Datagram) × (s'.sent ≡ new ++ s.sent) × All (IsReply z n) new

module _ (z : Zlib) where
  filled-IsSendable :
      (kind seq : ℕ) (pkt : Pkt) (s : Receiver)
      → (kind ≡ 2) ⊎ (kind ≡ 3)
      → IsTemplate kind pkt
      → IsSendable (fill_answer pkt seq s)
  filled-IsSendable kind seq pkt s known t = record {
    bytes = λ i. ground (arith, t.bytes i, t.bytes 0);
    kind = inr (ground (arith, known, t.type));
    whole = ground (arith, t.whole);
    small = ground (arith, t.empty);
    empty = inr (ground (arith, t.empty));
  }

  -- The packet that is sent serves again for the next.
  encoded-IsTemplate :
      (kind seq : ℕ) (pkt : Pkt) (s : Receiver)
      → (kind ≡ 2) ⊎ (kind ≡ 3)
      → IsTemplate kind pkt
      → IsTemplate kind (pkt_encode_inline z (fill_answer pkt seq s))
  encoded-IsTemplate kind seq pkt s known t =
      let x = filled-IsSendable kind seq pkt s known t in
      let e = encode-Encoded z (fill_answer pkt seq s) x.bytes in
      let bytes = encode-IsBytes z (fill_answer pkt seq s) x.bytes in
      record {
        bytes = bytes;
        type = ap (λ b. Layout.type (λ i. b)) e.first ∙ ground (arith, t.type);
        whole = ap (λ b. Layout.tr (λ i. b)) e.first ∙ x.whole;
        empty = ground (arith, e.length, t.empty, bytes 2, bytes 3);
      }

  encoded-IsReply :
      (kind seq n : ℕ) (pkt : Pkt) (s : Receiver)
      → (kind ≡ 2) ⊎ (kind ≡ 3)
      → IsTemplate kind pkt
      → (kind ≡ 2 → seq ≡ n % 256)
      → IsReply z n (on_wire (pkt_encode_inline z (fill_answer pkt seq s)))
  encoded-IsReply kind seq n pkt s known t number =
      let x = filled-IsSendable kind seq pkt s known t in
      record {
        host = fill_answer pkt seq s;
        pkt = pkt_encode_inline z (fill_answer pkt seq s);
        sendable = x;
        encoded = encode-Encoded z (fill_answer pkt seq s) x.bytes;
        bytes = encode-IsBytes z (fill_answer pkt seq s) x.bytes;
        here = refl;
        empty = ground (arith, t.empty);
        number = λ e. ground (arith, number, t.type, e);
      }

  pub net_send-sent :
      (link : Link) (sent : List Datagram) (pkt : Pkt)
      → (net_send link sent pkt).1 ≡ on_wire pkt ∷ sent
  unfolding net_send
  net_send-sent link sent pkt = ground arith

  pub send-Replied :
      (n : ℕ) (s s' s'' : Receiver) (link : Link) (pkt : Pkt)
      → Replied z n s s'
      → IsReply z n (on_wire pkt)
      → s''.sent ≡ (net_send link s'.sent pkt).1
      → Replied z n s s''
  send-Replied n s s' s'' link pkt (new, e, all) r same = (
    on_wire pkt ∷ new,
    same ∙ net_send-sent link s'.sent pkt ∙ ap (λ ds. on_wire pkt ∷ ds) e,
    (r, all),
  )

  pub ack-IsTemplate :
      (s : Receiver) (seq : ℕ)
      → IsTemplate ptype_ack s.ack_pkt
      → IsTemplate ptype_ack (pkt_encode_inline z (fill_answer s.ack_pkt seq s))
  ack-IsTemplate s seq t = encoded-IsTemplate 2 seq s.ack_pkt s (inl refl) t

  pub nack-IsTemplate :
      (s : Receiver) (seq : ℕ)
      → IsTemplate ptype_nack s.nack_pkt
      → IsTemplate ptype_nack (pkt_encode_inline z (fill_answer s.nack_pkt seq s))
  nack-IsTemplate s seq t = encoded-IsTemplate 3 seq s.nack_pkt s (inr refl) t

  pub ack-IsReply :
      (s : Receiver) (n : ℕ)
      → IsTemplate ptype_ack s.ack_pkt
      → s.expected_seq ≡ n % 256
      → IsReply z n (on_wire (pkt_encode_inline z (fill_answer s.ack_pkt s.expected_seq s)))
  ack-IsReply s n t e = encoded-IsReply 2 s.expected_seq n s.ack_pkt s (inl refl) t (λ k. e)

  pub ack-IsAckOf :
      (s : Receiver) (n : ℕ)
      → IsTemplate ptype_ack s.ack_pkt
      → s.expected_seq ≡ n % 256
      → IsAckOf z n (on_wire (pkt_encode_inline z (fill_answer s.ack_pkt s.expected_seq s)))
  unfolding ack-IsReply encoded-IsReply
  ack-IsAckOf s n t e = (ack-IsReply s n t e, ground (arith, t.type))

  pub nack-IsReply :
      (s : Receiver) (seq n : ℕ)
      → IsTemplate ptype_nack s.nack_pkt
      → IsReply z n (on_wire (pkt_encode_inline z (fill_answer s.nack_pkt seq s)))
  nack-IsReply s seq n t =
      encoded-IsReply 3 seq n s.nack_pkt s (inr refl) t (λ k. absurd (omega (arith, k)))
