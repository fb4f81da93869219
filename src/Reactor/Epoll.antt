-- ===== src/Reactor/Epoll.antt =====
-- What src/reactor.rs calls of `libc`: epoll and eventfd. File descriptors that calls return are
-- not negative, and an error is its `errno`.
use mini_async_runtime.Base.{ℕ, Option, List, Result}

pub data CtlOp : Type 0 where
  add modify delete : CtlOp

-- `epoll_event`: its bits, and the descriptor that `register` stored in its data.
pub record Event : Type 0 where
  pub fd : ℕ
  pub events : ℕ

abbrev pub epollin : ℕ
epollin = 0x1

abbrev pub epollout : ℕ
epollout = 0x4

abbrev pub epollerr : ℕ
epollerr = 0x8

abbrev pub epollhup : ℕ
epollhup = 0x10

abbrev pub epolloneshot : ℕ
epolloneshot = 0x4000_0000

abbrev pub epollet : ℕ
epollet = 0x8000_0000

abbrev pub eintr : ℕ
eintr = 4

-- The state of the kernel, and the calls on the epoll instance and the eventfd of one reactor.
-- `none` as a timeout is -1: no limit.
pub record Kernel : Type 1 where
  pub State : Type 0
  pub epoll_create : State → State × Result (Unit {0}) ℕ
  pub eventfd : State → State × Result ℕ ℕ
  pub epoll_ctl : State → CtlOp → ℕ → ℕ → State × Result (Unit {0}) ℕ
  pub epoll_wait : State → ℕ → Option ℕ → State × Result (List Event) ℕ
  pub eventfd_write : State → State
  pub eventfd_read : State → State
  pub close_epoll : State → State
  pub close : State → ℕ → State
