-- ===== src/Net/Descriptors/Owned.antt =====
-- src/net.rs and src/multi_thread/net.rs: open and registered descriptors, and the listeners and streams
-- that hold them.
use mini_async_runtime.Base.{
  ℕ, ◌≡◌, refl, sym, ap, ◌∙◌, true, false, not, ◌&&◌, ◌==◌, ==_iff, arith, none, some, List, [],
  ◌∷◌, contains, is_nodup, lookup, Result, ok, err, Poll, ready, pending, Pick, take_at, Takes,
  TakesAt, front, later, take_at-Takes,
}
use mini_async_runtime.Reactor.Epoll.{Kernel}
use mini_async_runtime.Net.{
  Sockets, Net, poll_read, poll_write, poll_accept, drop, tcp_listen, tcp_connect,
  bind_with_reactor, connect_with_reactor,
}
use mini_async_runtime.Net.Descriptors.{
  Opens, Descriptors, Use, reads, writes, accepts, drops, Call, listens, connects, uses, waits,
  opened_by, accepted_by, perform, call, calls,
}
use mini_async_runtime.Net.Descriptors.Opened.{
  opened-Opens, kept, after_io-sockets, after_accept-Opens,
}
use mini_async_runtime.Net.Descriptors.Registered.{
  is_registered, deregister-is_registered, poll-is_registered, after_io-lookup, after_accept-lookup,
}

Takes-contains :
    {held rest : List ℕ} {fd : ℕ}
    → Takes held fd rest
    → is_nodup held ≡ true
    → (is_nodup rest ≡ true)
      × (contains fd held ≡ true)
      × ((j : ℕ) → contains j rest ≡ (contains j held && not (j == fd)))
Takes-contains front n = (ground arith, ground (arith, ==_iff _ _), λ j. ground (arith, ==_iff j _))
Takes-contains (later {x} t) n =
    let (distinct, found, others) = Takes-contains t (ground arith) in
    (ground (arith, others x), ground (arith, found), λ j. ground (arith, others j, ==_iff j x))

module _ (S : Sockets) (d : Descriptors S) (K : Kernel) {W : Type 0} where
  -- The open descriptors are those held, each once, a registered one is held, and no `close` of a
  -- descriptor that was not open has been made.
  pub record Owned (net : Net S K W) (held : List ℕ) : Type 0 where
    pub distinct : is_nodup held ≡ true
    pub opens : (j : ℕ) → d.opens net.sockets j ≡ contains j held
    pub registered : (j : ℕ) → is_registered net.reactor j ≡ true → contains j held ≡ true
    pub closes : d.bad_closes net.sockets ≡ 0

  opened_by-Owned :
      (net : Net S K W) (held : List ℕ) (o : S.State × Result ℕ ℕ)
      → Owned net held
      → Opens S d.opens d.bad_closes net.sockets o
      → let (out, held') = opened_by S K net held o in Owned out held'
  unfolding opened_by
  opened_by-Owned net held (t, ok fd) v opens = record {
    distinct = ground (arith, v.distinct, v.opens fd, opens.0);
    opens = λ j. ground (arith, opens.1 j, v.opens j);
    registered = λ j h. ground (arith, v.registered j h);
    closes = opens.2 ∙ v.closes;
  }
  opened_by-Owned net held (t, err e) v opens = record {
    distinct = v.distinct;
    opens = λ j. opens.0 j ∙ v.opens j;
    registered = v.registered;
    closes = opens.1 ∙ v.closes;
  }

  -- A poll that leaves the sockets `t`, of which the registrations of other descriptors are as before.
  polled-Owned :
      (net : Net S K W) (held : List ℕ) (fd : ℕ) (out : Net S K W)
      → Owned net held
      → contains fd held ≡ true
      → ((j : ℕ) → d.opens out.sockets j ≡ d.opens net.sockets j)
        × (d.bad_closes out.sockets ≡ d.bad_closes net.sockets)
      → ((j : ℕ)
          → (j == fd) ≡ false
          → lookup j out.reactor.registrations ≡ lookup j net.reactor.registrations)
      → Owned out held
  polled-Owned net held fd out v mine same others = record {
    distinct = v.distinct;
    opens = λ j. same.0 j ∙ v.opens j;
    registered = λ j h. ground (arith, others j, v.registered j, mine, h, ==_iff j fd);
    closes = same.1 ∙ v.closes;
  }

  accepted_by-Owned :
      (net : Net S K W) (held : List ℕ) (fd : ℕ) (out : Net S K W) (p : Poll (Result (ℕ × ℕ) ℕ))
      → Owned net held
      → contains fd held ≡ true
      → Opens S d.opens d.bad_closes net.sockets (kept {S = S} {K = K} {W = W} (out, p))
      → ((j : ℕ)
          → (j == fd) ≡ false
          → lookup j out.reactor.registrations ≡ lookup j net.reactor.registrations)
      → let (last, held') = accepted_by S K held (out, p) in Owned last held'
  unfolding accepted_by opened_by
  accepted_by-Owned net held fd out (ready (ok (stream, addr))) v mine opens others =
      opened_by-Owned (record out { sockets = net.sockets }) held (out.sockets, ok stream)
        (polled-Owned net held fd (record out { sockets = net.sockets }) v mine ((λ j. refl), refl)
          others)
        opens
  accepted_by-Owned net held fd out (ready (err e)) v mine opens others =
      polled-Owned net held fd out v mine opens others
  accepted_by-Owned net held fd out pending v mine opens others =
      polled-Owned net held fd out v mine opens others

  perform-Owned :
      (u : Use W) (net : Net S K W) (held : List ℕ) (t : Pick ℕ)
      → Owned net held
      → TakesAt held t
      → let (out, held') = perform S K u net held t in Owned out held'
  unfolding perform poll_read poll_write poll_accept drop
  perform-Owned u net held none v t = v
  perform-Owned (reads size w) net held (some (fd, rest)) v t =
      let o = S.read net.sockets fd size in
      polled-Owned net held fd (poll_read S K net fd size w).0 v (Takes-contains t v.distinct).1
        (
          λ j.
              ap (λ s. d.opens s j) (after_io-sockets S K d net.reactor fd w true o)
              ∙ d.read-opens net.sockets fd size j,
          ap d.bad_closes (after_io-sockets S K d net.reactor fd w true o)
              ∙ d.read-bad_closes net.sockets fd size,
        )
        (after_io-lookup S K net.reactor fd w true o)
  perform-Owned (writes buf w) net held (some (fd, rest)) v t =
      let o = S.write net.sockets fd buf in
      polled-Owned net held fd (poll_write S K net fd buf w).0 v (Takes-contains t v.distinct).1
        (
          λ j.
              ap (λ s. d.opens s j) (after_io-sockets S K d net.reactor fd w false o)
              ∙ d.write-opens net.sockets fd buf j,
          ap d.bad_closes (after_io-sockets S K d net.reactor fd w false o)
              ∙ d.write-bad_closes net.sockets fd buf,
        )
        (after_io-lookup S K net.reactor fd w false o)
  perform-Owned (accepts w) net held (some (fd, rest)) v t =
      let o = S.accept net.sockets fd in
      let (out, p) = poll_accept S K net fd w in
      accepted_by-Owned net held fd out p v (Takes-contains t v.distinct).1
        (after_accept-Opens S K d net.sockets net.reactor fd w o (d.accept-Opens net.sockets fd))
        (after_accept-lookup S K net.reactor fd w o)
  perform-Owned drops net held (some (fd, rest)) v t =
      let (distinct, found, others) = Takes-contains t v.distinct in
      record {
        distinct = distinct;
        opens = λ j. ground (arith, d.close-opens net.sockets fd j, v.opens j, others j);
        registered = λ j h.
            ground (arith, deregister-is_registered K net.reactor fd j h, v.registered j, others j);
        closes = ground (arith, d.close-bad_closes net.sockets fd, v.opens fd, found, v.closes);
      }

  call-Owned :
      (net : Net S K W) (held : List ℕ) (c : Call W)
      → Owned net held
      → let (out, held') = call S K (net, held) c in Owned out held'
  unfolding call tcp_listen tcp_connect bind_with_reactor connect_with_reactor
  call-Owned net held (listens addr) v =
      opened_by-Owned net held (tcp_listen S net.sockets addr) v
        (opened-Opens S d net.sockets (S.bind net.sockets addr) (d.bind-Opens net.sockets addr))
  call-Owned net held (connects addr) v =
      opened_by-Owned net held (tcp_connect S net.sockets addr) v (
        opened-Opens S d net.sockets (S.connect net.sockets addr)
          (d.connect-Opens net.sockets addr))
  call-Owned net held (waits timeout) v = record {
    distinct = v.distinct;
    opens = v.opens;
    registered = λ j h. v.registered j (sym (poll-is_registered K net.reactor timeout j) ∙ h);
    closes = v.closes;
  }
  call-Owned net held (uses i u) v =
      perform-Owned u net held (take_at i held) v (take_at-Takes i held)

  -- If the open sockets are just those of the listeners and streams that are not dropped, each of which
  -- has its own, a descriptor that is registered with the reactor is one of them, and no `close` has
  -- failed with EBADF, then that is so after any sequence of calls that make, poll and drop listeners
  -- and streams and wait in the reactor, whatever the system calls, the registrations and the kernel
  -- answer: no socket leaks on an error, `close` is never called for one that is not open, so none is
  -- closed twice, and no registration outlives its socket.
  pub calls-Owned :
      (net : Net S K W) (held : List ℕ) (cs : List (Call W))
      → Owned net held
      → let (out, held') = calls S K (net, held) cs in Owned out held'
  unfolding calls
  calls-Owned net held [] v = v
  calls-Owned net held (c ∷ cs) v =
      let (out, held') = call S K (net, held) c in
      calls-Owned out held' cs (call-Owned net held c v)
