-- ===== src/Reactor/Interest.antt =====
-- src/reactor.rs: the registration of a descriptor, the events that it asks for, and those that
-- concern it.
use Prim.Native.Nat.{bit_and, bit_or}
use mini_async_runtime.Base.{
  ℕ, Bool, true, false, not, ◌||◌, Option, none, some, List, [], to_list, is_some, ◌==◌,
  if◌then◌else◌,
}
use mini_async_runtime.Reactor.Epoll.{epollin, epollout, epollerr, epollhup, epollet, epolloneshot}

abbrev pub readable : ℕ
readable = epollin

abbrev pub writable : ℕ
writable = epollout

pub record Registration (W : Type 0) : Type 0 where
  pub read_waker : Option W
  pub write_waker : Option W

-- The mask of the directions that have a waker, 0 if there is none.
unfoldable pub interest : {W : Type 0} → Registration W → ℕ
interest reg =
    let mask : ℕ = if is_some reg.read_waker then bit_or 0 readable else 0 in
    if is_some reg.write_waker then bit_or mask writable else mask

-- `mask | EPOLLET | EPOLLONESHOT`.
abbrev pub oneshot : ℕ → ℕ
oneshot mask = bit_or mask (bit_or epollet epolloneshot)

-- `event.events & bit != 0`.
unfoldable pub has : ℕ → ℕ → Bool
has events bit = not (bit_and events bit == 0)

-- Whether an event wakes the reading or the writing side.
unfoldable pub fires : ℕ → ℕ → Bool
unfolding has
fires events bit = has events bit || has events (bit_or epollerr epollhup)

module _ {W : Type 0} where
  unfoldable pub unregistered : Registration W
  unregistered = record { read_waker = none; write_waker = none }

  -- The registration of a descriptor, as `entry(fd).or_insert` finds or makes it.
  unfoldable pub or_insert : Option (Registration W) → Registration W
  unfolding unregistered
  or_insert none = unregistered
  or_insert (some reg) = reg

  unfoldable pub set_waker : Registration W → Bool → Option W → Registration W
  set_waker reg true waker = record reg { read_waker = waker }
  set_waker reg false waker = record reg { write_waker = waker }

  unfoldable pub get_waker : Registration W → Bool → Option W
  get_waker reg true = reg.read_waker
  get_waker reg false = reg.write_waker

  abbrev pub taken : Bool → Option W → List W
  taken fired waker = if fired then to_list waker else []

  abbrev pub left : Bool → Option W → Option W
  left fired waker = if fired then none else waker
