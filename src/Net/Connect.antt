-- ===== src/Net/Connect.antt =====
-- `net_wait_and_connect`: which packet it waits for.
use mathlib.Core.Path.{subst}
use project_transport_protoc.Prelude.{
  ℕ, zero, suc, sym, ◌≡◌, ◌≢◌, refl, ap, ◌∙◌, ◌⊎◌, inl, inr, ◌↔◌, Bool, true, false, ◌==◌,
  if◌then◌else◌, List, [], ◌∷◌, Bool-cases, ==_iff, arith,
}
use project_transport_protoc.Packet.Layout
use project_transport_protoc.Packet.Layout.{Pkt}
use project_transport_protoc.Packet.Codec.{Zlib}
use project_transport_protoc.Net.{
  NetStatus, net_ok, net_error, net_drop, Received, Connected, answered, max_retries, net_recvfrom,
  first_packet, wait_loop, net_wait_and_connect,
}

-- Among the next `left` answers of `recvfrom` one is the packet `pkt` of number `seq`; those before it
-- are dropped or carry other numbers, and `rest` are those behind it.
pub data Hears (z : Zlib) (seq : ℕ) (pkt : Pkt) (rest : List Received)
    : ℕ → Pkt → List Received → Type 0 where
  heard :
      {left : ℕ} (rbuf : Pkt) (r : Received)
      → net_recvfrom z rbuf r ≡ (net_ok, pkt)
      → Layout.seq pkt ≡ seq
      → Hears z seq pkt rest (suc left) rbuf (r ∷ rest)
  skipped :
      {left : ℕ} (rbuf rbuf' : Pkt) (r : Received) (rs : List Received)
      → (net_recvfrom z rbuf r ≡ (net_drop, rbuf'))
        ⊎ ((net_recvfrom z rbuf r ≡ (net_ok, rbuf')) × (Layout.seq rbuf' ≢ seq))
      → Hears z seq pkt rest left rbuf' rs
      → Hears z seq pkt rest (suc left) rbuf (r ∷ rs)

answered_inj :
    {e e' : NetStatus} {p p' : Pkt} {rs rs' : List Received}
    → answered e p rs ≡ answered e' p' rs'
    → (e ≡ e') × (p ≡ p') × (rs ≡ rs')
answered_inj h = (cc, cc, cc)

-- Either the loop goes on, or this is the packet.
data Step (connects : Bool) (seq : ℕ) (pkt : Pkt) (rs rest : List Received)
    (retry : Pkt → Connected) (a : NetStatus × Pkt) : Type 0 where
  went_on :
      (rbuf : Pkt)
      → (a ≡ (net_drop, rbuf)) ⊎ ((a ≡ (net_ok, rbuf)) × (Layout.seq rbuf ≢ seq))
      → retry rbuf ≡ answered net_ok pkt rest
      → Step connects seq pkt rs rest retry a
  found :
      a ≡ (net_ok, pkt)
      → Layout.seq pkt ≡ seq
      → connects ≡ true
      → rs ≡ rest
      → Step connects seq pkt rs rest retry a

module _ (connects : Bool) (seq : ℕ) (pkt : Pkt) (rs rest : List Received)
    (retry : Pkt → Connected) where
  connected-Step :
      (b : Bool) (rbuf : Pkt)
      → connects ≡ b
      → Layout.seq rbuf ≡ seq
      → (if b then answered net_ok rbuf rs else answered net_error rbuf rs)
        ≡ answered net_ok pkt rest
      → Step connects seq pkt rs rest retry (net_ok, rbuf)
  connected-Step true rbuf c at h =
      let (_, same, more) = answered_inj h in
      found (ap (λ p. (net_ok, p)) same) (ap Layout.seq (sym same) ∙ at) c more
  connected-Step false rbuf c at h = let (e, _, _) = answered_inj h in cc

  first_packet-Step :
      (a : NetStatus × Pkt)
      → first_packet connects seq rs retry a ≡ answered net_ok pkt rest
      → Step connects seq pkt rs rest retry a
  first_packet-Step (net_drop, rbuf) h = went_on rbuf (inl refl) h
  first_packet-Step (net_error, rbuf) h = let (e, _, _) = answered_inj h in cc
  first_packet-Step (net_ok, rbuf) h = elim (Bool-cases (Layout.seq rbuf == seq)) [
    | inl at ↦ connected-Step connects rbuf refl ((==_iff _ _).0 at) (rw at at h)
    | inr off ↦ went_on rbuf (inr (refl, ground arith)) (rw off at h)
  ]

  heard_lem :
      {a : NetStatus × Pkt}
      → a ≡ (net_ok, pkt)
      → Layout.seq pkt ≡ seq
      → connects ≡ true
      → first_packet connects seq rs retry a ≡ answered net_ok pkt rs
  heard_lem e at c =
      let same : (Layout.seq pkt == seq) ≡ true = (==_iff _ _).1 at in rw (e, same, c) refl

  skipped_lem :
      {a : NetStatus × Pkt} {rbuf : Pkt}
      → (a ≡ (net_drop, rbuf)) ⊎ ((a ≡ (net_ok, rbuf)) × (Layout.seq rbuf ≢ seq))
      → first_packet connects seq rs retry a ≡ retry rbuf
  skipped_lem (inl e) = rw e refl
  skipped_lem {rbuf = rbuf} (inr (e, ne)) =
      let off : (Layout.seq rbuf == seq) ≡ false = ground arith in rw (e, off) refl

module _ (z : Zlib) (connects : Bool) (seq : ℕ) where
  Step-Hears :
      {left : ℕ} {rbuf pkt : Pkt} {r : Received} {rs rest : List Received} {retry : Pkt → Connected}
      → Step connects seq pkt rs rest retry (net_recvfrom z rbuf r)
      → ((rbuf' : Pkt)
          → retry rbuf' ≡ answered net_ok pkt rest
          → (connects ≡ true) × Hears z seq pkt rest left rbuf' rs)
      → (connects ≡ true) × Hears z seq pkt rest (suc left) rbuf (r ∷ rs)
  Step-Hears {rbuf = rbuf} {r = r} {rs = rs} (went_on rbuf' e h) later =
      let (c, x) = later rbuf' h in (c, skipped rbuf rbuf' r rs e x)
  Step-Hears {left = left} {rbuf = rbuf} {pkt = pkt} {r = r} {rest = rest} (found e at c same)
        later =
      (c, subst (λ l. Hears z seq pkt rest (suc left) rbuf (r ∷ l)) (sym same) (heard rbuf r e at))

  wait_loop-Hears :
      (left : ℕ) (rbuf pkt : Pkt) (rs rest : List Received)
      → wait_loop z connects left seq rbuf rs ≡ answered net_ok pkt rest
      → (connects ≡ true) × Hears z seq pkt rest left rbuf rs
  unfolding wait_loop
  wait_loop-Hears zero rbuf pkt rs rest h = let (e, _, _) = answered_inj h in cc
  wait_loop-Hears (suc left) rbuf pkt [] rest h = cc
  wait_loop-Hears (suc left) rbuf pkt (r ∷ rs) rest h =
      Step-Hears (first_packet-Step connects seq pkt rs rest _ (net_recvfrom z rbuf r) h)
        (λ rbuf' h'. wait_loop-Hears left rbuf' pkt rs rest h')

  Hears-wait_loop :
      {pkt : Pkt} {rest : List Received} {left : ℕ} {rbuf : Pkt} {rs : List Received}
      → connects ≡ true
      → Hears z seq pkt rest left rbuf rs
      → wait_loop z connects left seq rbuf rs ≡ answered net_ok pkt rest
  unfolding wait_loop
  Hears-wait_loop {pkt = pkt} {rest = rest} c (heard rbuf r e at) =
      heard_lem connects seq pkt rest rest _ e at c
  Hears-wait_loop {pkt = pkt} {rest = rest} c (skipped rbuf rbuf' r rs e x) =
      skipped_lem connects seq pkt rs rest _ e ∙ Hears-wait_loop c x

  -- `net_wait_and_connect` answers NET_OK with a packet exactly if `connect` succeeds and the packet is,
  -- among the first five datagrams, the first that is decoded with the expected number; every one
  -- before it is dropped or carries another number.
  pub connect-iff-Hears :
      (rbuf pkt : Pkt) (rs rest : List Received)
      → (net_wait_and_connect z connects rbuf rs seq ≡ answered net_ok pkt rest)
        ↔ ((connects ≡ true) × Hears z seq pkt rest max_retries rbuf rs)
  unfolding net_wait_and_connect
  connect-iff-Hears rbuf pkt rs rest =
      (λ h. wait_loop-Hears max_retries rbuf pkt rs rest h, λ (c, x). Hears-wait_loop c x)
