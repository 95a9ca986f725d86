-- ===== src/Programs.antt =====
-- sender/main.c and receiver/main.c: the options, the set-up, and what is given back. The host and the
-- port only reach getaddrinfo, whose answer is an argument.
pub mod Ends
pub mod Laws
mod Tests
use project_transport_protoc.Prelude.{
  ℕ, suc, ◌%◌, ◌^◌, List, [], ◌∷◌, Bool, true, false, ltb, if◌then◌else◌, Option, none, some,
}
use project_transport_protoc.Prelude.Run.{Run, ret, exit_failure, undefined, out_of_fuel}
use project_transport_protoc.Packet.Layout.{Pkt, max_window_size}
use project_transport_protoc.Packet.Codec.{Zlib}
use project_transport_protoc.Pktbuf
use project_transport_protoc.Pktbuf.{Pktbuf, New, null, buffer, pktbuf_new}
use project_transport_protoc.Net.{
  NetStatus, net_ok, net_error, net_drop, Received, Link, Address, remove, net_open_socket,
  net_close_socket,
}
use project_transport_protoc.Sender
use project_transport_protoc.Sender.Transmit
use project_transport_protoc.Receiver.{Output}
use project_transport_protoc.Receiver.Loop

-- What `getopt_long` answers before -1: `f`, with the file that `fopen` opens or with errno less one
-- if it fails, which is then not 0; `b`, with the value of `atoi`; or anything else.
pub data Answer : Type 0 where
  opt_f no_file opt_b : ℕ → Answer
  opt_other : Answer

-- `none` is stdin or stdout; `opened` are the files of all options, newest first.
pub record Options : Type 0 where
  pub file : Option ℕ
  pub size : ℕ
  pub opened : List ℕ

-- `refused` is a return of errno, which is one more, and `usage` ends in `exit(EXIT_SUCCESS)`.
pub data Parsed : Type 0 where
  parsed : Options → Parsed
  refused : ℕ → Options → Parsed
  usage : Parsed

-- `set` is what the option `b` does with its value, cut to an `unsigned int`.
unfoldable pub parse_options : (ℕ → ℕ) → List Answer → Options → Parsed
parse_options set [] o = parsed o
parse_options set (opt_f file ∷ more) o =
    parse_options set more (record o { file = some file; opened = file ∷ o.opened })
parse_options set (no_file e ∷ more) o = refused e o
parse_options set (opt_b n ∷ more) o = parse_options set more (record o { size = set (n % 2 ^ 32) })
parse_options set (opt_other ∷ more) o = usage

-- What a program holds: the open files, whether the buffer is allocated, and the open sockets.
pub record Held : Type 0 where
  pub files : List ℕ
  pub allocated : Bool
  pub sockets : List ℕ

-- What `main` returns: 0, an errno, which is one more, NET_ERROR, or -ECONNABORTED.
pub data Code : Type 0 where
  success enet econnaborted : Code
  errno : ℕ → Code

-- How `main` stands: it waits in a system call, has called `exit`, has met undefined behaviour or a
-- loop without end, or returns.
pub data Main : Type 0 where
  waits crashed : Main
  exits : (ok : Bool) → Main
  returns : Code → Held → Main

-- `err_options` and `err_file`: the file of the last option is closed.
abbrev pub close_file : Option ℕ → Code → Held → Main
close_file none code h = returns code h
close_file (some file) code h = returns code (record h { files = remove file h.files })

-- `err_buffer` and `err_buf`
abbrev pub free_buffer : Option ℕ → Code → Held → Main
free_buffer file code h = close_file file code (record h { allocated = false })

-- The call of `net_close_socket`, and what follows.
abbrev pub close_socket : Option ℕ → Option ℕ → Code → Held → Main
close_socket file net_fd code h =
    free_buffer file code (record h { sockets = net_close_socket net_fd h.sockets })

abbrev pub socket_list : Option ℕ → List ℕ
socket_list none = []
socket_list (some fd) = fd ∷ []

-- What `transmit` ends in.
abbrev pub after_transmit : Option ℕ → Option ℕ → Held → Transmit.Transfer → Main
after_transmit file net_fd h (Transmit.running l) = waits
after_transmit file net_fd h (Transmit.completed s) = close_socket file net_fd success h
after_transmit file net_fd h (Transmit.aborted s) = close_socket file net_fd econnaborted h
after_transmit file net_fd h (Transmit.ended exit_failure) = exits false
after_transmit file net_fd h (Transmit.ended r) = crashed

-- What `receive` ends in; `linger` that has used up the answers of `poll` waits.
abbrev pub after_receive : Option ℕ → Option ℕ → Held → Loop.Transfer → Main
after_receive file net_fd h (Loop.ended (ret false s)) = close_socket file net_fd success h
after_receive file net_fd h (Loop.ended (ret true s)) = close_socket file net_fd econnaborted h
after_receive file net_fd h (Loop.ended exit_failure) = exits false
after_receive file net_fd h (Loop.ended undefined) = crashed
after_receive file net_fd h (Loop.ended out_of_fuel) = waits
after_receive file net_fd h Loop.aborted = close_socket file net_fd econnaborted h
after_receive file net_fd h Loop.connecting = waits
after_receive file net_fd h (Loop.running l) = waits
after_receive file net_fd h (Loop.completed s) = waits

-- What `net_open_socket` answers decides whether `transfer` is called.
abbrev pub after_open :
    Code → (Option ℕ → Held → Main) → Option ℕ → Held → NetStatus × Option ℕ × List ℕ → Main
after_open failed transfer file h (net_ok, net_fd, closed) =
    transfer net_fd (record h { sockets = socket_list net_fd })
after_open failed transfer file h (net_error, net_fd, closed) = free_buffer file failed h
after_open failed transfer file h (net_drop, net_fd, closed) = free_buffer file failed h

-- What `pktbuf_new` answers decides whether the socket is opened.
abbrev pub after_new : (Pktbuf → Held → Main) → Option ℕ → Held → New → Main
after_new connect file h Pktbuf.exit_failure = exits false
after_new connect file h null = close_file file success h
after_new connect file h (buffer b) = connect b (record h { allocated = true })

abbrev pub files_held : Options → Held
files_held o = record { files = o.opened; allocated = false; sockets = [] }

-- What `parse_options` answers decides whether the buffer is made.
abbrev pub after_options : (Options → Main) → Parsed → Main
after_options set_up usage = exits true
after_options set_up (refused e o) = returns (errno e) (files_held o)
after_options set_up (parsed o) = set_up o

-- The options' values before `parse_options`.
abbrev pub defaults : ℕ → Options
defaults size = record { file = none; size = size; opened = [] }

-- `parse_options` of sender/main.c
abbrev pub sender_options : List Answer → Parsed
sender_options answers = parse_options (λ n. n) answers (defaults 32)

-- `parse_options` of receiver/main.c: the value of `b` becomes `max_window`.
abbrev pub receiver_options : List Answer → Parsed
receiver_options answers =
    parse_options (λ n. if ltb max_window_size n then max_window_size else n) answers
      (defaults max_window_size)

-- sender/main.c: with what `calloc` and the calls of `net_open_socket` answer, and those in `transmit`.
module _ (z : Zlib) (link : Link) (fuel : ℕ) (junk : Pkt) (polls : List Transmit.Poll) where
  abbrev pub transmit : Pktbuf → Transmit.Transfer
  transmit b =
      Transmit.transmit_from z link fuel junk polls
        (record { sender = Sender.initial b; poll_file = true })

  unfoldable pub sender_main : List Answer → Bool → Option (List Address) → Main
  sender_main answers allocated addrs =
      after_options
        (λ o.
          after_new
            (λ b h.
              after_open enet (λ net_fd h'. after_transmit o.file net_fd h' (transmit b)) o.file h
                (net_open_socket addrs none))
            o.file (files_held o) (pktbuf_new allocated o.size))
        (sender_options answers)

-- receiver/main.c: the buffer has 32 slots.
module _ (z : Zlib) (link : Link) (out : Output) (getfd setfd : Option ℕ) (connects : Bool)
    (rs : List Received) (polls : List Loop.Poll) where
  abbrev pub receive_started : Loop.Transfer → Loop.Transfer
  receive_started (Loop.running l) = Loop.receive_from z link out polls l
  receive_started t = t

  unfoldable pub receive : ℕ → Pktbuf → Loop.Transfer
  receive max_window b = receive_started (Loop.start z getfd setfd connects rs max_window b)

  unfoldable pub receiver_main : List Answer → Bool → Option (List Address) → Main
  receiver_main answers allocated addrs =
      after_options
        (λ o.
          after_new
            (λ b h.
              after_open success (λ net_fd h'. after_receive o.file net_fd h' (receive o.size b))
                o.file h (net_open_socket addrs none))
            o.file (files_held o) (pktbuf_new allocated 32))
        (receiver_options answers)
