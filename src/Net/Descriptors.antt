-- ===== src/Net/Descriptors.antt =====
-- src/net.rs and src/multi_thread/net.rs: the descriptors that a program holds through listeners and
-- streams, as it makes, polls and drops them.
pub mod Opened
pub mod Registered
pub mod Owned
mod Examples
use mini_async_runtime.Base.{
  ℕ, suc, ◌≡◌, Bool, if◌then◌else◌, true, false, not, ◌&&◌, ◌||◌, ◌==◌, Option, none, some, List,
  [], ◌∷◌, Pick, take_at, Poll, ready, pending, Result, ok, err,
}
use mini_async_runtime.Reactor.Epoll.{Kernel}
use mini_async_runtime.Reactor
use mini_async_runtime.Net.{
  Sockets, Net, tcp_listen, tcp_connect, poll_read, poll_write, poll_accept, drop,
}

module _ (S : Sockets) where
  -- A call that may open a descriptor, from state `s`: a new one is open that was not, or none is. It
  -- makes no `close` that fails.
  abbrev pub Opens : (S.State → ℕ → Bool) → (S.State → ℕ) → S.State → S.State × Result ℕ ℕ → Type 0
  Opens opens bad_closes s (t, ok fd) =
      (opens s fd ≡ false)
      × ((j : ℕ) → opens t j ≡ (opens s j || (j == fd)))
      × (bad_closes t ≡ bad_closes s)
  Opens opens bad_closes s (t, err e) =
      ((j : ℕ) → opens t j ≡ opens s j) × (bad_closes t ≡ bad_closes s)

  abbrev pub accepted : S.State × Result (ℕ × ℕ) ℕ → S.State × Result ℕ ℕ
  accepted (t, ok (fd, addr)) = (t, ok fd)
  accepted (t, err e) = (t, err e)

  -- What the system documents of descriptors: which calls open and close them, and that a `close` of
  -- one that is not open fails with EBADF. `bad_closes` is how many calls of `close` have failed so.
  pub record Descriptors : Type 0 where
    pub opens : S.State → ℕ → Bool
    pub bad_closes : S.State → ℕ
    pub bind-Opens : (s : S.State) (addr : ℕ) → Opens opens bad_closes s (S.bind s addr)
    pub connect-Opens : (s : S.State) (addr : ℕ) → Opens opens bad_closes s (S.connect s addr)
    pub accept-Opens : (s : S.State) (fd : ℕ) → Opens opens bad_closes s (accepted (S.accept s fd))
    pub read-opens : (s : S.State) (fd size j : ℕ) → opens (S.read s fd size).0 j ≡ opens s j
    pub write-opens :
        (s : S.State) (fd : ℕ) (buf : List ℕ) (j : ℕ) → opens (S.write s fd buf).0 j ≡ opens s j
    pub setfl-opens : (s : S.State) (fd flags j : ℕ) → opens (S.setfl s fd flags).0 j ≡ opens s j
    pub close-opens :
        (s : S.State) (fd j : ℕ) → opens (S.close s fd) j ≡ (opens s j && not (j == fd))
    pub read-bad_closes :
        (s : S.State) (fd size : ℕ) → bad_closes (S.read s fd size).0 ≡ bad_closes s
    pub write-bad_closes :
        (s : S.State) (fd : ℕ) (buf : List ℕ) → bad_closes (S.write s fd buf).0 ≡ bad_closes s
    pub setfl-bad_closes :
        (s : S.State) (fd flags : ℕ) → bad_closes (S.setfl s fd flags).0 ≡ bad_closes s
    pub close-bad_closes :
        (s : S.State) (fd : ℕ)
        → bad_closes (S.close s fd) ≡ (if opens s fd then bad_closes s else suc (bad_closes s))

-- What is done with a listener or a stream.
pub data Use (W : Type 0) : Type 0 where
  reads : (size : ℕ) (waker : W) → Use W
  writes : (buf : List ℕ) (waker : W) → Use W
  accepts : (waker : W) → Use W
  drops : Use W

-- What a program does: it makes a listener or a stream, uses the one at a place among those it has,
-- or has the reactor wait for events.
pub data Call (W : Type 0) : Type 0 where
  listens connects : (addr : ℕ) → Call W
  uses : (i : ℕ) → Use W → Call W
  waits : (timeout : Option ℕ) → Call W

module _ (S : Sockets) (K : Kernel) {W : Type 0} where
  -- The sockets and the reactor, and the descriptors of the listeners and streams that are not dropped.
  pub opened_by : Net S K W → List ℕ → S.State × Result ℕ ℕ → Net S K W × List ℕ
  opened_by net held (t, ok fd) = (record net { sockets = t }, fd ∷ held)
  opened_by net held (t, err e) = (record net { sockets = t }, held)

  pub accepted_by : List ℕ → Net S K W × Poll (Result (ℕ × ℕ) ℕ) → Net S K W × List ℕ
  accepted_by held (net, ready (ok (stream, addr))) = (net, stream ∷ held)
  accepted_by held (net, _) = (net, held)

  pub perform : Use W → Net S K W → List ℕ → Pick ℕ → Net S K W × List ℕ
  unfolding accepted_by
  perform u net held none = (net, held)
  perform (reads size w) net held (some (fd, rest)) = ((poll_read S K net fd size w).0, held)
  perform (writes buf w) net held (some (fd, rest)) = ((poll_write S K net fd buf w).0, held)
  perform (accepts w) net held (some (fd, rest)) = accepted_by held (poll_accept S K net fd w)
  perform drops net held (some (fd, rest)) = (drop S K net fd, rest)

  pub call : Net S K W × List ℕ → Call W → Net S K W × List ℕ
  unfolding opened_by perform
  call (net, held) (listens addr) = opened_by net held (tcp_listen S net.sockets addr)
  call (net, held) (connects addr) = opened_by net held (tcp_connect S net.sockets addr)
  call (net, held) (waits timeout) =
      (record net { reactor = (Reactor.poll K net.reactor timeout).state }, held)
  call (net, held) (uses i u) = perform u net held (take_at i held)

  pub calls : Net S K W × List ℕ → List (Call W) → Net S K W × List ℕ
  unfolding call
  calls p [] = p
  calls p (c ∷ cs) = calls (call p c) cs
