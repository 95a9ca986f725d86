-- ===== src/Programs/Ends.antt =====
-- The parts of both programs, from the end of `main` to its options, and what each leaves behind.
use project_transport_protoc.Prelude.{
  ℕ, ltb, ◌%◌, ◌^◌, if◌then◌else◌, suc, ◌≤◌, ◌≡◌, ◌≢◌, refl, Bool, true, false, List, [], ◌∷◌,
  Option, none, some, ◌==◌, ==_iff, arith,
}
use project_transport_protoc.Prelude.Run.{ret, exit_failure, undefined, out_of_fuel}
use project_transport_protoc.Packet.Layout.{max_window_size}
use project_transport_protoc.Pktbuf
use project_transport_protoc.Pktbuf.{Pktbuf, New, null, buffer, pktbuf_new}
use project_transport_protoc.Net.{NetStatus, net_ok, net_error, net_drop}
use project_transport_protoc.Sender.{Sender}
use project_transport_protoc.Sender.Transmit
use project_transport_protoc.Receiver.{Receiver}
use project_transport_protoc.Receiver.Loop
use project_transport_protoc.Programs.{
  Answer, opt_f, no_file, opt_b, opt_other, Options, Parsed, parsed, refused, usage, parse_options,
  Held, Code, success, enet, econnaborted, errno, Main, waits, crashed, exits, returns, close_file,
  close_socket, socket_list, after_transmit, after_receive, after_open, after_new, after_options,
}

-- How often the option `f` is given.
abbrev pub fopens : List Answer → ℕ
fopens [] = 0
fopens (opt_f file ∷ more) = suc (fopens more)
fopens (no_file e ∷ more) = suc (fopens more)
fopens (opt_b n ∷ more) = fopens more
fopens (opt_other ∷ more) = fopens more

abbrev pub nothing : Held
nothing = record { files = []; allocated = false; sockets = [] }

-- If `main` returns, it holds nothing any more; it returns 0 only with `Q`.
pub data Ends (Q : Type 0) : Main → Type 0 where
  waiting : Ends Q waits
  crashing : Ends Q crashed
  exited : (ok : Bool) → Ends Q (exits ok)
  succeeded : Q → Ends Q (returns success nothing)
  failed : (code : Code) → code ≢ success → Ends Q (returns code nothing)

-- No file is open, or the one of the only option.
pub data Tidy : Option ℕ → List ℕ → Type 0 where
  no_file_open : Tidy none []
  one_open : (f : ℕ) → Tidy (some f) (f ∷ [])

-- What `parse_options` answers when `f` is given at most once.
pub data Reads : Parsed → Type 0 where
  used : Reads usage
  refused_first : (e : ℕ) (o : Options) → o.opened ≡ [] → Reads (refused e o)
  read : (o : Options) → Tidy o.file o.opened → Reads (parsed o)

-- How many more files may be opened.
pub data May : Options → ℕ → Type 0 where
  may_open : (size n : ℕ) → n ≤ 1 → May (record { file = none; size = size; opened = [] }) n
  has_open : (size f n : ℕ) → n ≡ 0 → May (record { file = some f; size = size; opened = f ∷ [] }) n

pub parse-Reads :
    (set : ℕ → ℕ) (answers : List Answer) (o : Options)
    → May o (fopens answers)
    → Reads (parse_options set answers o)
unfolding parse_options
parse-Reads set [] o (may_open size n le) = read _ no_file_open
parse-Reads set [] o (has_open size f n e) = read _ (one_open f)
parse-Reads set (opt_f file ∷ more) o (may_open size n le) =
    parse-Reads set more _ (has_open size file (fopens more) (omega arith))
parse-Reads set (opt_f file ∷ more) o (has_open size f n e) = absurd (omega arith)
parse-Reads set (no_file e ∷ more) o (may_open size n le) = refused_first e _ refl
parse-Reads set (no_file e ∷ more) o (has_open size f n z) = absurd (omega arith)
parse-Reads set (opt_b n ∷ more) o (may_open size m le) =
    parse-Reads set more _ (may_open _ (fopens more) le)
parse-Reads set (opt_b n ∷ more) o (has_open size f m e) =
    parse-Reads set more _ (has_open _ f (fopens more) e)
parse-Reads set (opt_other ∷ more) o m = used

abbrev pub Bounded : Parsed → Type 0
Bounded usage = Unit {0}
Bounded (refused e o) = Unit {0}
Bounded (parsed o) = o.size ≤ 31

pub parse-Bounded :
    (set : ℕ → ℕ) (answers : List Answer) (o : Options)
    → ((n : ℕ) → set n ≤ 31)
    → o.size ≤ 31
    → Bounded (parse_options set answers o)
unfolding parse_options
parse-Bounded set [] o small le = le
parse-Bounded set (opt_f file ∷ more) o small le = parse-Bounded set more _ small le
parse-Bounded set (no_file e ∷ more) o small le = tt
parse-Bounded set (opt_b n ∷ more) o small le = parse-Bounded set more _ small (small (n % 2 ^ 32))
parse-Bounded set (opt_other ∷ more) o small le = tt

pub at_most_31 : (n : ℕ) → (if ltb max_window_size n then max_window_size else n) ≤ 31
at_most_31 n = ground arith

module _ {Q : Type 0} where
  returned-Ends : (code : Code) → (code ≡ success → Q) → Ends Q (returns code nothing)
  returned-Ends success q = succeeded (q refl)
  returned-Ends enet q = failed enet (λ e. cc)
  returned-Ends econnaborted q = failed econnaborted (λ e. cc)
  returned-Ends (errno n) q = failed (errno n) (λ e. cc)

  close-Ends :
      {file : Option ℕ} {fs : List ℕ} (code : Code)
      → Tidy file fs
      → (code ≡ success → Q)
      → Ends Q (close_file file code (record { files = fs; allocated = false; sockets = [] }))
  close-Ends code no_file_open q = returned-Ends code q
  close-Ends code (one_open f) q =
      let same : (f == f) ≡ true = (==_iff f f).1 refl in rw same (returned-Ends code q)

  socket-Ends :
      {file : Option ℕ} {fs : List ℕ} (net_fd : Option ℕ) (code : Code)
      → Tidy file fs
      → (code ≡ success → Q)
      → Ends Q (
          close_socket file net_fd code
            (record { files = fs; allocated = true; sockets = socket_list net_fd }))
  socket-Ends none code t q = close-Ends code t q
  socket-Ends (some fd) code t q =
      let same : (fd == fd) ≡ true = (==_iff fd fd).1 refl in rw same (close-Ends code t q)

  pub new-Ends :
      {file : Option ℕ} {fs : List ℕ} (connect : Pktbuf → Held → Main) (new : New)
      → Tidy file fs
      → (new ≡ null → Q)
      → ((b : Pktbuf)
          → new ≡ buffer b
          → Ends Q (connect b (record { files = fs; allocated = true; sockets = [] })))
      → Ends Q (after_new connect file (record { files = fs; allocated = false; sockets = [] }) new)
  new-Ends connect Pktbuf.exit_failure t q each = exited false
  new-Ends connect null t q each = close-Ends success t (λ e. q refl)
  new-Ends connect (buffer b) t q each = each b refl

  pub open-Ends :
      {file : Option ℕ} {fs : List ℕ} (code : Code) (transfer : Option ℕ → Held → Main)
      (r : NetStatus × Option ℕ × List ℕ)
      → Tidy file fs
      → (r.0 ≢ net_ok → code ≡ success → Q)
      → ((net_fd : Option ℕ)
          → Ends Q (
              transfer net_fd
                (record { files = fs; allocated = true; sockets = socket_list net_fd })))
      → Ends Q
          (after_open code transfer file (record { files = fs; allocated = true; sockets = [] }) r)
  open-Ends code transfer (net_ok, net_fd, closed) t q each = each net_fd
  open-Ends code transfer (net_error, net_fd, closed) t q each = close-Ends code t (q (λ e. cc))
  open-Ends code transfer (net_drop, net_fd, closed) t q each = close-Ends code t (q (λ e. cc))

  pub transmit-Ends :
      {file : Option ℕ} {fs : List ℕ} (net_fd : Option ℕ) (r : Transmit.Transfer)
      → Tidy file fs
      → ((s' : Sender) → r ≡ Transmit.completed s' → Q)
      → Ends Q (
          after_transmit file net_fd
            (record { files = fs; allocated = true; sockets = socket_list net_fd })
            r)
  transmit-Ends net_fd (Transmit.running l) t q = waiting
  transmit-Ends net_fd (Transmit.completed s) t q = socket-Ends net_fd success t (λ e. q s refl)
  transmit-Ends net_fd (Transmit.aborted s) t q = socket-Ends net_fd econnaborted t (λ e. cc)
  transmit-Ends net_fd (Transmit.ended (ret b s)) t q = crashing
  transmit-Ends net_fd (Transmit.ended exit_failure) t q = exited false
  transmit-Ends net_fd (Transmit.ended undefined) t q = crashing
  transmit-Ends net_fd (Transmit.ended out_of_fuel) t q = crashing

  pub receive-Ends :
      {file : Option ℕ} {fs : List ℕ} (net_fd : Option ℕ) (r : Loop.Transfer)
      → Tidy file fs
      → ((s' : Receiver) → r ≡ Loop.ended (ret false s') → Q)
      → Ends Q (
          after_receive file net_fd
            (record { files = fs; allocated = true; sockets = socket_list net_fd })
            r)
  receive-Ends net_fd (Loop.ended (ret false s)) t q = socket-Ends net_fd success t (λ e. q s refl)
  receive-Ends net_fd (Loop.ended (ret true s)) t q = socket-Ends net_fd econnaborted t (λ e. cc)
  receive-Ends net_fd (Loop.ended exit_failure) t q = exited false
  receive-Ends net_fd (Loop.ended undefined) t q = crashing
  receive-Ends net_fd (Loop.ended out_of_fuel) t q = waiting
  receive-Ends net_fd Loop.aborted t q = socket-Ends net_fd econnaborted t (λ e. cc)
  receive-Ends net_fd Loop.connecting t q = waiting
  receive-Ends net_fd (Loop.running l) t q = waiting
  receive-Ends net_fd (Loop.completed s) t q = waiting

  pub options-Ends :
      (set_up : Options → Main) (p : Parsed)
      → Reads p
      → ((o : Options) → p ≡ parsed o → Tidy o.file o.opened → Ends Q (set_up o))
      → Ends Q (after_options set_up p)
  options-Ends set_up usage x each = exited true
  options-Ends set_up (refused e o) (refused_first n o' none_opened) each =
      rw none_opened (failed (errno e) (λ f. cc))
  options-Ends set_up (parsed o) (read o' t) each = each o refl t
