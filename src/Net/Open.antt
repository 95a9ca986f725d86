-- ===== src/Net/Open.antt =====
-- `net_open_socket`: which address it stops at, and what it closes.
use mathlib.Core.Path.{subst}
use project_transport_protoc.Prelude.{
  ℕ, ◌≡◌, refl, ap, ◌⊎◌, inl, inr, Bool, true, false, not, ◌&&◌, if◌then◌else◌, List, [], ◌∷◌, ◌++◌,
  All, Option, none, some, Bool-cases, Option-cases,
}
use project_transport_protoc.Net.{NetStatus, net_ok, net_error, Address, open_loop, net_open_socket}

-- Whether all calls for an address succeed, once it has a socket.
abbrev pub works : Address → Bool
works a = a.reuse && (a.only_ipv6 && a.test_addr)

-- No socket, or a call fails.
abbrev pub Fails : Address → Type 0
Fails a = (a.socket ≡ none) ⊎ ((fd : ℕ) × (a.socket ≡ some fd) × (works a ≡ false))

-- The descriptors that `socket` answers, newest first, before those of `closed`.
abbrev pub opened : List Address → List ℕ → List ℕ
opened [] closed = closed
opened (a ∷ others) closed = elim a.socket [
  | none ↦ opened others closed
  | some fd ↦ opened others (fd ∷ closed)
]

-- The loop ends behind the last address, or at the first that works.
pub data Ends (addrs : List Address) (closed : List ℕ) : List ℕ × Option ℕ → Type 0 where
  all_fail : All Fails addrs → Ends addrs closed (opened addrs closed, none)
  stops :
      (before : List Address) (a : Address) (after : List Address) (fd : ℕ)
      → addrs ≡ before ++ (a ∷ after)
      → All Fails before
      → a.socket ≡ some fd
      → works a ≡ true
      → Ends addrs closed (opened before closed, some fd)

-- An address that fails is passed over, and its descriptor is closed.
Ends-more :
    {a : Address} {others : List Address} {closed closed' : List ℕ} {r : List ℕ × Option ℕ}
    → Fails a
    → ((addrs : List Address) → opened (a ∷ addrs) closed ≡ opened addrs closed')
    → Ends others closed' r
    → Ends (a ∷ others) closed r
Ends-more {a} {others} {closed} {closed'} f same (all_fail fs) =
    subst (λ c. Ends (a ∷ others) closed (c, none)) (same others) (all_fail (f, fs))
Ends-more {a} {others} {closed} {closed'} f same (stops before b after fd e fs s w) =
    subst (λ c. Ends (a ∷ others) closed (c, some fd)) (same before)
      (stops (a ∷ before) b after fd (ap (λ l. a ∷ l) e) (f, fs) s w)

loop_none :
    (a : Address) (others : List Address) (closed : List ℕ)
    → a.socket ≡ none
    → open_loop (a ∷ others) closed ≡ open_loop others closed
unfolding open_loop
loop_none a others closed e = rw e refl

all_pass :
    {A : Type 0} (r o t : Bool) (x y : A)
    → (if not r then y else if not o then y else if t then x else y)
      ≡ (if r && (o && t) then x else y)
all_pass false o t x y = refl
all_pass true false t x y = refl
all_pass true true t x y = refl

loop_some :
    (a : Address) (others : List Address) (closed : List ℕ) (fd : ℕ)
    → a.socket ≡ some fd
    → open_loop (a ∷ others) closed
      ≡ (if works a then (closed, some fd) else open_loop others (fd ∷ closed))
unfolding open_loop
loop_some a others closed fd e = rw e (all_pass a.reuse a.only_ipv6 a.test_addr _ _)

open_loop-Ends :
    (addrs : List Address) (closed : List ℕ) → Ends addrs closed (open_loop addrs closed)
open_loop-Ends [] closed = unfold open_loop in all_fail tt
open_loop-Ends (a ∷ others) closed = elim (Option-cases a.socket) [
  | inl e ↦
      rw (loop_none a others closed e)
        (Ends-more (inl e) (λ addrs. rw e refl) (open_loop-Ends others closed))
  | inr (fd, e) ↦ elim (Bool-cases (works a)) [
    | inl w ↦ rw (loop_some a others closed fd e, w) (stops [] a others fd refl tt e w)
    | inr w ↦
        rw (loop_some a others closed fd e, w)
          (Ends-more (inr (fd, e, w)) (λ addrs. rw e refl) (open_loop-Ends others (fd ∷ closed)))
  ]
]

-- How `net_open_socket` ends: the status, the new `net_fd`, and the descriptors that it has closed.
pub data Opens (addrs : List Address) (net_fd : Option ℕ)
    : NetStatus × Option ℕ × List ℕ → Type 0 where
  nowhere : All Fails addrs → Opens addrs net_fd (net_error, net_fd, opened addrs [])
  bound :
      (before : List Address) (a : Address) (after : List Address) (fd : ℕ)
      → addrs ≡ before ++ (a ∷ after)
      → All Fails before
      → a.socket ≡ some fd
      → works a ≡ true
      → Opens addrs net_fd (net_ok, some fd, opened before [])

Ends-Opens :
    {addrs : List Address} (net_fd : Option ℕ) (r : List ℕ × Option ℕ)
    → Ends addrs [] r
    → Opens addrs net_fd
        (elim r.1 [ none ↦ (net_error, net_fd, r.0) | some fd ↦ (net_ok, some fd, r.0) ])
Ends-Opens net_fd r (all_fail fs) = nowhere fs
Ends-Opens net_fd r (stops before a after fd e fs s w) = bound before a after fd e fs s w

-- `net_open_socket` keeps the socket of the first address for which every call succeeds, and answers
-- NET_OK, or fails at every address, leaves `net_fd` and answers NET_ERROR; either way it closes every
-- other descriptor that it has opened, once.
pub open_socket-Opens :
    (addrs : List Address) (net_fd : Option ℕ)
    → Opens addrs net_fd (net_open_socket (some addrs) net_fd)
unfolding net_open_socket
open_socket-Opens addrs net_fd = Ends-Opens net_fd (open_loop addrs []) (open_loop-Ends addrs [])
