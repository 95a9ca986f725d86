-- ===== src/Pktbuf/Queue.antt =====
-- The buffer as a queue of packets, oldest first.
use project_transport_protoc.Prelude.{
  ℕ, zero, suc, ◌+◌, ◌-◌, ◌%◌, ◌<◌, ◌≡◌, refl, sym, ap, ap₂, ◌∙◌, List, [], ◌∷◌, ◌++◌, none, some,
  ◌==◌, arith, if◌then◌else◌,
}
use project_transport_protoc.Packet.Layout.{Pkt}
use project_transport_protoc.Pktbuf.{
  Pktbuf, add_u32, sub_u32, set_slot, mask_index, pktbuf_used, pktbuf_enqueue, pktbuf_dequeue,
  pktbuf_first, pktbuf_last,
}
use project_transport_protoc.Pktbuf.Inv.{
  IsRing, capacity_pos, capacity_small, mask_index-mod, wrap-mod_add, last_slot, slot, first_slot,
  newest, nth, slot_ne,
}

abbrev pub tabulate {ℓ} : {A : Type ℓ} → ℕ → (ℕ → A) → List A
tabulate zero f = []
tabulate (suc n) f = f 0 ∷ tabulate n (λ i. f (suc i))

module _ {ℓ} {A : Type ℓ} where
  pub tabulate-snoc : (n : ℕ) (f : ℕ → A) → tabulate (suc n) f ≡ tabulate n f ++ (f n ∷ [])
  tabulate-snoc zero f = refl
  tabulate-snoc (suc n) f = ap (λ l. f 0 ∷ l) (tabulate-snoc n (λ i. f (suc i)))

  pub tabulate_congr :
      (n : ℕ) (f g : ℕ → A) → ((i : ℕ) → i < n → f i ≡ g i) → tabulate n f ≡ tabulate n g
  tabulate_congr zero f g same = refl
  tabulate_congr (suc n) f g same =
      ap₂ ◌∷◌ (same 0 (omega arith))
        (tabulate_congr n (λ i. f (suc i)) (λ i. g (suc i)) (λ i h. same (suc i) (omega arith)))

abbrev pub contents : Pktbuf → List Pkt
contents b = tabulate (pktbuf_used b) (nth b)

-- `pktbuf_enqueue` hands out a slot of the array, and keeps the invariant if there is room.
pub enqueue-IsRing :
    {b : Pktbuf}
    → IsRing b
    → pktbuf_used b < b.capacity
    → let (i, b') = pktbuf_enqueue b in
      IsRing b' × (i < b.capacity) × (pktbuf_used b' ≡ pktbuf_used b + 1)
unfolding pktbuf_enqueue
enqueue-IsRing {b} v room = (
  record {
    power = v.power;
    is_power = v.is_power;
    small = v.small;
    first_in = v.first_in;
    last_in = omega arith;
    fits = omega (arith, capacity_small v);
  },
  rw (mask_index-mod v b.last) (omega (arith, capacity_pos v)),
  omega (arith, capacity_small v),
)

enqueue_slot : {b : Pktbuf} → IsRing b → (pktbuf_enqueue b).0 ≡ slot b (pktbuf_used b)
unfolding pktbuf_enqueue
enqueue_slot {b} v = mask_index-mod v b.last ∙ last_slot v

-- A packet that is stored in the slot from `pktbuf_enqueue` is appended to the contents.
pub enqueue_refines :
    {b : Pktbuf} (pkt : Pkt)
    → IsRing b
    → pktbuf_used b < b.capacity
    → let (i, b') = pktbuf_enqueue b in contents (set_slot b' i pkt) ≡ contents b ++ (pkt ∷ [])
unfolding pktbuf_enqueue
enqueue_refines {b} pkt v room =
    ap (λ n. tabulate n stored) one_more
    ∙ tabulate-snoc used stored
    ∙ ap₂ (λ l p. l ++ (p ∷ [])) (tabulate_congr used stored (nth b) (λ j h. old j h)) new
  where
    used : ℕ
    used = pktbuf_used b

    i : ℕ
    i = mask_index b.last b

    stored : ℕ → Pkt
    stored j = if slot b j == i then pkt else nth b j

    here : i ≡ slot b used
    here = mask_index-mod v b.last ∙ last_slot v

    one_more : sub_u32 (add_u32 b.last 1) b.first ≡ suc used
    one_more = omega (arith, v.first_in, v.last_in, capacity_small v)

    old : (j : ℕ) → j < used → stored j ≡ nth b j
    old j h = ground (arith, here, slot_ne b j used h (omega arith))

    new : stored used ≡ pkt
    new = ground (arith, here)

-- What `pktbuf_dequeue` does, slot by slot.
pub dequeue-nth : {b : Pktbuf} (j : ℕ) → IsRing b → nth (pktbuf_dequeue b).1 j ≡ nth b (suc j)
unfolding pktbuf_dequeue
dequeue-nth {b} j v =
    ap b.head (wrap-mod_add v (b.first + 1) j ∙ ap (λ t. t % b.capacity) (omega arith))

pub dequeue-used :
    {b : Pktbuf}
    → IsRing b
    → 0 < pktbuf_used b
    → pktbuf_used b ≡ suc (pktbuf_used (pktbuf_dequeue b).1)
unfolding pktbuf_dequeue
dequeue-used v left = omega (arith, v.first_in, v.last_in)

pub dequeue-IsRing : {b : Pktbuf} → IsRing b → 0 < pktbuf_used b → IsRing (pktbuf_dequeue b).1
unfolding pktbuf_dequeue
dequeue-IsRing {b} v left = record {
  power = v.power;
  is_power = v.is_power;
  small = v.small;
  first_in = omega arith;
  last_in = v.last_in;
  fits = omega (arith, capacity_small v, v.fits, v.first_in, v.last_in);
}

pub dequeue-slot : {b : Pktbuf} → IsRing b → (pktbuf_dequeue b).0 ≡ slot b 0
unfolding pktbuf_dequeue
dequeue-slot {b} v = mask_index-mod v b.first ∙ ap (λ t. t % b.capacity) (omega arith)

-- `pktbuf_dequeue` returns the slot of the oldest packet and removes it.
pub dequeue_refines :
    {b : Pktbuf}
    → IsRing b
    → 0 < pktbuf_used b
    → let (i, b') = pktbuf_dequeue b in
      IsRing b' × (i < b.capacity) × (contents b ≡ b.head i ∷ contents b')
dequeue_refines {b} v some_left = (
  dequeue-IsRing v some_left,
  rw (dequeue-slot v) (omega (arith, capacity_pos v)),
  ap (λ n. tabulate n (nth b)) (dequeue-used v some_left)
      ∙ ap₂ ◌∷◌ (ap b.head (sym (dequeue-slot v)))
          (tabulate_congr _ _ _ (λ j h. sym (dequeue-nth j v))),
)

-- `pktbuf_first` is NULL exactly for an empty buffer, and else the slot of the oldest packet.
pub first-slot :
    {b : Pktbuf}
    → IsRing b
    → pktbuf_first b ≡ (if pktbuf_used b == 0 then none else some (slot b 0))
unfolding pktbuf_first
first-slot {b} v = ground (arith, first_slot v, v.first_in, v.last_in)

-- `pktbuf_last` is NULL exactly for an empty buffer, and else the slot of the newest packet.
pub last-slot :
    {b : Pktbuf}
    → IsRing b
    → pktbuf_last b ≡ (if pktbuf_used b == 0 then none else some (slot b (pktbuf_used b - 1)))
unfolding pktbuf_last
last-slot {b} v = ground (arith, newest v, v.first_in, v.last_in)
