-- ===== src/Net.antt =====
-- src/net.rs and src/multi_thread/net.rs, which are the same but for the pointer to the reactor: TCP
-- listeners and streams over non-blocking sockets. Addresses are numbers, and an error is its
-- `errno`.
pub mod Pending
pub mod Descriptors
mod Examples
use Prim.Native.Nat.{bit_or}
use mini_async_runtime.Base.{
  ℕ, ◌==◌, Bool, true, false, List, if◌then◌else◌, Poll, ready, pending, Result, ok, err,
}
use mini_async_runtime.Reactor.Epoll.{Kernel}
use mini_async_runtime.Reactor.{Reactor, register, register_readable, register_writable, deregister}

-- What the code calls of `std::net` and `libc::fcntl`. A socket is its descriptor.
pub record Sockets : Type 1 where
  pub State : Type 0
  pub bind : State → ℕ → State × Result ℕ ℕ
  pub connect : State → ℕ → State × Result ℕ ℕ
  pub accept : State → ℕ → State × Result (ℕ × ℕ) ℕ
  pub read : State → ℕ → ℕ → State × Result (List ℕ) ℕ
  pub write : State → ℕ → List ℕ → State × Result ℕ ℕ
  pub getfl : State → ℕ → Result ℕ ℕ
  pub setfl : State → ℕ → ℕ → State × Result (Unit {0}) ℕ
  pub close : State → ℕ → State
  pub local_addr : State → ℕ → Result ℕ ℕ
  pub peer_addr : State → ℕ → Result ℕ ℕ

-- EAGAIN, the error that `io::ErrorKind::WouldBlock` stands for.
abbrev pub eagain : ℕ
eagain = 11

abbrev pub o_nonblock : ℕ
o_nonblock = 0x800

-- The sockets and the reactor that the listeners and streams have a pointer to.
pub record Net (S : Sockets) (K : Kernel) (W : Type 0) : Type 0 where
  pub sockets : S.State
  pub reactor : Reactor K W

module _ (S : Sockets) where
  open S use {State, bind, connect, accept, read, write, getfl, setfl, close}

  unfoldable pub set_nonblocking : State → ℕ → State × Result (Unit {0}) ℕ
  set_nonblocking s fd = elim (getfl s fd) [
    | err e ↦ (s, err e)
    | ok flags ↦ setfl s fd (bit_or flags o_nonblock)
  ]

  -- A socket in non-blocking mode. Where that fails, the early return drops the socket.
  unfoldable pub nonblocking : State → ℕ → State × Result ℕ ℕ
  unfolding set_nonblocking
  nonblocking s fd =
      let (t, set) = set_nonblocking s fd in
      elim set [ ok _ ↦ (t, ok fd) | err e ↦ (close t fd, err e) ]

  unfoldable pub opened : State × Result ℕ ℕ → State × Result ℕ ℕ
  unfolding nonblocking
  opened (s, ok fd) = nonblocking s fd
  opened (s, err e) = (s, err e)

  -- `TcpListener::bind_with_reactor` and `TcpStream::connect_with_reactor`.
  unfoldable pub bind_with_reactor : State → ℕ → State × Result ℕ ℕ
  unfolding opened
  bind_with_reactor s addr = opened (bind s addr)

  unfoldable pub connect_with_reactor : State → ℕ → State × Result ℕ ℕ
  unfolding opened
  connect_with_reactor s addr = opened (connect s addr)

  -- `Runtime::tcp_listen`, and the poll of the future that `Runtime::tcp_connect` gives.
  unfoldable pub tcp_listen : State → ℕ → State × Result ℕ ℕ
  unfolding bind_with_reactor
  tcp_listen s addr = bind_with_reactor s addr

  unfoldable pub tcp_connect : State → ℕ → State × Result ℕ ℕ
  unfolding connect_with_reactor
  tcp_connect s addr = connect_with_reactor s addr

module _ (S : Sockets) (K : Kernel) {W : Type 0} where
  open S use {State, accept, read, write}

  -- `register(fd, waker)?` and then Pending.
  unfoldable pub waits :
      {A : Type 0} → Reactor K W × Result (Unit {0}) ℕ → Reactor K W × Poll (Result A ℕ)
  waits (r, ok _) = (r, pending)
  waits (r, err e) = (r, ready (err e))

  -- The arms for an error, where `is_read` says which registration it is.
  unfoldable pub on_error :
      {A : Type 0} → Reactor K W → ℕ → W → Bool → ℕ → Reactor K W × Poll (Result A ℕ)
  unfolding waits
  on_error r fd waker is_read e =
      if e == eagain then waits (register K r fd waker is_read) else (r, ready (err e))

  -- `AsyncRead::poll`, `AsyncWrite::poll` and `Accept::poll`, by what the system call gives.
  unfoldable pub after_io :
      {A : Type 0} → Reactor K W → ℕ → W → Bool → State × Result A ℕ → Net S K W × Poll (Result A ℕ)
  unfolding on_error
  after_io r fd waker is_read (s, ok a) = (record { sockets = s; reactor = r }, ready (ok a))
  after_io r fd waker is_read (s, err e) =
      let (r', p) = on_error r fd waker is_read e in (record { sockets = s; reactor = r' }, p)

  unfoldable pub poll_read : Net S K W → ℕ → ℕ → W → Net S K W × Poll (Result (List ℕ) ℕ)
  unfolding after_io
  poll_read net fd size waker = after_io net.reactor fd waker true (read net.sockets fd size)

  unfoldable pub poll_write : Net S K W → ℕ → List ℕ → W → Net S K W × Poll (Result ℕ ℕ)
  unfolding after_io
  poll_write net fd buf waker = after_io net.reactor fd waker false (write net.sockets fd buf)

  -- The accepted stream and the address of its peer. A failure to make the stream non-blocking is
  -- returned, whatever its kind.
  unfoldable pub after_accept :
      Reactor K W → ℕ → W → State × Result (ℕ × ℕ) ℕ → Net S K W × Poll (Result (ℕ × ℕ) ℕ)
  unfolding after_io nonblocking
  after_accept r fd waker (s, err e) = after_io r fd waker true (s, err e)
  after_accept r fd waker (s, ok (stream, addr)) =
      let (t, set) = nonblocking S s stream in
      elim set [
        | ok _ ↦ (record { sockets = t; reactor = r }, ready (ok (stream, addr)))
        | err e ↦ (record { sockets = t; reactor = r }, ready (err e))
      ]

  unfoldable pub poll_accept : Net S K W → ℕ → W → Net S K W × Poll (Result (ℕ × ℕ) ℕ)
  unfolding after_accept
  poll_accept net fd waker = after_accept net.reactor fd waker (accept net.sockets fd)

  -- The drop of a listener or a stream: it is deregistered, and then closed.
  unfoldable pub drop : Net S K W → ℕ → Net S K W
  drop net fd = record { sockets = S.close net.sockets fd; reactor = deregister K net.reactor fd }

  pub local_addr : Net S K W → ℕ → Result ℕ ℕ
  local_addr net fd = S.local_addr net.sockets fd

  pub peer_addr : Net S K W → ℕ → Result ℕ ℕ
  peer_addr net fd = S.peer_addr net.sockets fd
