-- ===== src/Programs/Laws.antt =====
-- What the programs give back, and what their success means.
use mathlib.Core.Path.{subst}
use project_transport_protoc.Prelude.{
  ℕ, ◌≤◌, ◌≡◌, ◌≢◌, ◌⊎◌, inl, inr, Bool, false, List, Option, none, arith,
}
use project_transport_protoc.Prelude.Run.{ret}
use project_transport_protoc.Packet.Layout.{Pkt}
use project_transport_protoc.Packet.Codec.{Zlib}
use project_transport_protoc.Pktbuf.{Pktbuf, null, buffer, pktbuf_new}
use project_transport_protoc.Net.{net_ok, Received, Link, Address, net_open_socket}
use project_transport_protoc.Sender.{Sender}
use project_transport_protoc.Sender.Transmit
use project_transport_protoc.Receiver.{Receiver, Output}
use project_transport_protoc.Receiver.Loop
use project_transport_protoc.Programs.{
  Answer, Options, parsed, parse_options, success, enet, after_transmit, after_receive, after_open,
  defaults, transmit, sender_main, receive, receiver_main,
}
use project_transport_protoc.Programs.Ends.{
  fopens, Ends, may_open, parse-Reads, Bounded, parse-Bounded, at_most_31, new-Ends, open-Ends,
  transmit-Ends, receive-Ends, options-Ends,
}

module _ (z : Zlib) (link : Link) (fuel : ℕ) (junk : Pkt) (polls : List Transmit.Poll)
    (answers : List Answer) (allocated : Bool) (addrs : Option (List Address)) where
  -- The buffer that was asked for is made, and the transfer over it is completed.
  pub record Transmitted : Type 0 where
    pub options : Options
    pub reads : parse_options (λ n. n) answers (defaults 32) ≡ parsed options
    pub buf : Pktbuf
    pub made : pktbuf_new allocated options.size ≡ buffer buf
    pub last : Sender
    pub done : transmit z link fuel junk polls buf ≡ Transmit.completed last

  -- Given the option `f` at most once, the sender's `main` returns only with every file closed, the
  -- buffer freed and the socket closed; it returns 0 only after a completed transfer, or when
  -- `pktbuf_new` has returned NULL.
  pub sender_main-Ends :
      fopens answers ≤ 1
      → Ends
          (((o : Options) × (pktbuf_new allocated o.size ≡ null)) ⊎ Transmitted)
          (sender_main z link fuel junk polls answers allocated addrs)
  unfolding sender_main
  sender_main-Ends once =
      options-Ends _ _
        (parse-Reads (λ n. n) answers (defaults 32) (may_open 32 (fopens answers) once))
        (λ o reads t.
          new-Ends
            (λ b h.
              after_open enet
                (λ net_fd h'. after_transmit o.file net_fd h' (transmit z link fuel junk polls b))
                o.file h (net_open_socket addrs none))
            (pktbuf_new allocated o.size) t (λ e. inl (o, e))
            (λ b made.
              open-Ends enet
                (λ net_fd h'. after_transmit o.file net_fd h' (transmit z link fuel junk polls b))
                (net_open_socket addrs none) t (λ ne e. cc)
                (λ net_fd. transmit-Ends net_fd (transmit z link fuel junk polls b) t (λ s' e.
                  inr (record {
                    options = o;
                    reads = reads;
                    buf = b;
                    made = made;
                    last = s';
                    done = e;
                  })))))

module _ (z : Zlib) (link : Link) (out : Output) (getfd setfd : Option ℕ) (connects : Bool)
    (rs : List Received) (polls : List Loop.Poll) (answers : List Answer) (allocated : Bool)
    (addrs : Option (List Address)) where
  -- The transfer over a buffer of 32 slots has returned 0.
  pub record Finished : Type 0 where
    pub window : ℕ
    pub within : window ≤ 31
    pub buf : Pktbuf
    pub made : pktbuf_new allocated 32 ≡ buffer buf
    pub last : Receiver
    pub done :
        receive z link out getfd setfd connects rs polls window buf ≡ Loop.ended (ret false last)

  -- Given the option `f` at most once, the receiver's `main` returns only with every file closed, the
  -- buffer freed and the socket closed; it returns 0 only after a transfer that has returned 0 with a
  -- window of at most 31, or when the buffer or the socket could not be had.
  pub receiver_main-Ends :
      fopens answers ≤ 1
      → Ends
          ((pktbuf_new allocated 32 ≡ null) ⊎ ((net_open_socket addrs none).0 ≢ net_ok) ⊎ Finished)
          (receiver_main z link out getfd setfd connects rs polls answers allocated addrs)
  unfolding receiver_main
  receiver_main-Ends once =
      options-Ends _ _ (parse-Reads _ answers (defaults 31) (may_open 31 (fopens answers) once))
        (λ o reads t.
          new-Ends
            (λ b h.
              after_open success
                (λ net_fd h'.
                  after_receive o.file net_fd h'
                    (receive z link out getfd setfd connects rs polls o.size b))
                o.file h (net_open_socket addrs none))
            (pktbuf_new allocated 32) t (λ e. inl e)
            (λ b made.
              open-Ends success
                (λ net_fd h'.
                  after_receive o.file net_fd h'
                    (receive z link out getfd setfd connects rs polls o.size b))
                (net_open_socket addrs none) t (λ ne e. inr (inl ne))
                (λ net_fd.
                  receive-Ends net_fd (receive z link out getfd setfd connects rs polls o.size b) t
                    (λ s' e. inr (
                      inr (record {
                        window = o.size;
                        within =
                            subst Bounded reads
                              (parse-Bounded _ answers (defaults 31) at_most_31 (omega arith));
                        buf = b;
                        made = made;
                        last = s';
                        done = e;
                      }))))))
