-- ===== src/Net/Descriptors/Opened.antt =====
-- src/net.rs, `bind_with_reactor`, `connect_with_reactor` and `Accept::poll`: the descriptors that they
-- leave open.
use mini_async_runtime.Base.{
  ℕ, ◌≡◌, refl, ◌∙◌, Bool, true, not, ◌&&◌, ◌==◌, ==_iff, arith, Result, ok, err, Result-cases, inl,
  inr, Poll, ready, pending, Bool-cases, by-true, by-false,
}
use mini_async_runtime.Reactor.Epoll.{Kernel}
use mini_async_runtime.Reactor.{Reactor, register}
use mini_async_runtime.Net.{
  Sockets, Net, set_nonblocking, nonblocking, opened, eagain, waits, on_error, after_io,
  after_accept,
}
use mini_async_runtime.Net.Descriptors.{Opens, accepted, Descriptors}

module _ (S : Sockets) (d : Descriptors S) where
  set_nonblocking-opens :
      (s : S.State) (fd j : ℕ) → d.opens (set_nonblocking S s fd).0 j ≡ d.opens s j
  unfolding set_nonblocking
  set_nonblocking-opens s fd j = elim (Result-cases (S.getfl s fd)) [
    | inl (flags, e) ↦ rw (e, set_nonblocking) (d.setfl-opens s fd _ j)
    | inr (f, e) ↦ rw (e, set_nonblocking)
  ]

  set_nonblocking-bad_closes :
      (s : S.State) (fd : ℕ) → d.bad_closes (set_nonblocking S s fd).0 ≡ d.bad_closes s
  unfolding set_nonblocking
  set_nonblocking-bad_closes s fd = elim (Result-cases (S.getfl s fd)) [
    | inl (flags, e) ↦ rw (e, set_nonblocking) (d.setfl-bad_closes s fd _)
    | inr (f, e) ↦ rw (e, set_nonblocking)
  ]

  -- What is open after the socket `fd` was made non-blocking, or closed.
  abbrev Stays : S.State → ℕ → S.State × Result ℕ ℕ → Type 0
  Stays s fd (t, ok q) =
      (q ≡ fd) × ((j : ℕ) → d.opens t j ≡ d.opens s j) × (d.bad_closes t ≡ d.bad_closes s)
  Stays s fd (t, err e) =
      ((j : ℕ) → d.opens t j ≡ (d.opens s j && not (j == fd)))
      × (d.opens s fd ≡ true → d.bad_closes t ≡ d.bad_closes s)

  pub nonblocking-Stays : (s : S.State) (fd : ℕ) → Stays s fd (nonblocking S s fd)
  unfolding nonblocking
  nonblocking-Stays s fd =
      let t = (set_nonblocking S s fd).0 in
      elim (Result-cases (set_nonblocking S s fd).1) [
        | inl (_, e) ↦
            rw (e, nonblocking) (refl, set_nonblocking-opens s fd, set_nonblocking-bad_closes s fd)
        | inr (f, e) ↦
            rw (e, nonblocking)
              (
                λ j. ground (arith, d.close-opens t fd j, set_nonblocking-opens s fd j),
                λ is_open. ground (
                  arith,
                  is_open,
                  d.close-bad_closes t fd,
                  set_nonblocking-opens s fd fd,
                  set_nonblocking-bad_closes s fd,
                ),
              )
      ]

  Stays-Opens :
      (s t : S.State) (fd : ℕ) (o : S.State × Result ℕ ℕ)
      → Opens S d.opens d.bad_closes s (t, ok fd)
      → Stays t fd o
      → Opens S d.opens d.bad_closes s o
  Stays-Opens s t fd (u, ok q) opens stays = (
    ground (arith, opens.0, stays.0),
    λ j. ground (arith, opens.1 j, stays.0, stays.1 j),
    stays.2 ∙ opens.2,
  )
  Stays-Opens s t fd (u, err e) opens stays = (
    λ j. ground (arith, opens.0, opens.1 j, stays.0 j, ==_iff j fd),
    stays.1 (ground (arith, opens.1 fd, ==_iff fd fd)) ∙ opens.2,
  )

  pub opened-Opens :
      (s : S.State) (o : S.State × Result ℕ ℕ)
      → Opens S d.opens d.bad_closes s o
      → Opens S d.opens d.bad_closes s (opened S o)
  unfolding opened
  opened-Opens s (t, ok fd) opens =
      Stays-Opens s t fd (nonblocking S t fd) opens (nonblocking-Stays t fd)
  opened-Opens s (t, err e) opens = opens

-- What a poll of `Accept` has opened.
abbrev pub kept :
    {S : Sockets} {K : Kernel} {W : Type 0}
    → Net S K W × Poll (Result (ℕ × ℕ) ℕ)
    → S.State × Result ℕ ℕ
kept (net, ready (ok (stream, addr))) = (net.sockets, ok stream)
kept (net, ready (err e)) = (net.sockets, err e)
kept (net, pending) = (net.sockets, err eagain)

abbrev NoValue : {A : Type 0} → Poll (Result A ℕ) → Type 0
NoValue (ready (ok a)) = ⊥
NoValue _ = Unit

module _ (S : Sockets) (K : Kernel) {W : Type 0} (d : Descriptors S) where
  pub after_io-sockets :
      {A : Type 0} (r : Reactor K W) (fd : ℕ) (w : W) (side : Bool) (o : S.State × Result A ℕ)
      → (after_io S K r fd w side o).0.sockets ≡ o.0
  unfolding after_io
  after_io-sockets r fd w side (s, ok a) = refl
  after_io-sockets r fd w side (s, err e) = refl

  waits-NoValue :
      (A : Type 0) (o : Reactor K W × Result (Unit {0}) ℕ) → NoValue (waits S K {A = A} o).1
  unfolding waits
  waits-NoValue A (r, ok _) = tt
  waits-NoValue A (r, err e) = tt

  on_error-NoValue :
      (A : Type 0) (r : Reactor K W) (fd : ℕ) (w : W) (side : Bool) (e : ℕ)
      → NoValue (on_error S K {A = A} r fd w side e).1
  unfolding on_error
  on_error-NoValue A r fd w side e =
      let P : Reactor K W × Poll (Result A ℕ) → Type 0 = λ o. NoValue (o.1) in
      elim (Bool-cases (e == eagain)) [
        | inl blocked ↦ by-true P _ blocked (waits-NoValue A (register K r fd w side))
        | inr other ↦ by-false P _ other tt
      ]

  kept-Opens :
      (s t : S.State) (r : Reactor K W) (p : Poll (Result (ℕ × ℕ) ℕ))
      → ((j : ℕ) → d.opens t j ≡ d.opens s j) × (d.bad_closes t ≡ d.bad_closes s)
      → NoValue p
      → Opens S d.opens d.bad_closes s
          (kept {S = S} {K = K} {W = W} (record { sockets = t; reactor = r }, p))
  kept-Opens s t r (ready (ok (stream, addr))) same none_given = absurd none_given
  kept-Opens s t r (ready (err e)) same none_given = same
  kept-Opens s t r pending same none_given = same

  stream-Opens :
      (s t : S.State) (r : Reactor K W) (stream addr : ℕ) (o : S.State × Result ℕ ℕ)
      → Opens S d.opens d.bad_closes s (t, ok stream)
      → Stays S d t stream o
      → Opens S d.opens d.bad_closes s (
          kept {S = S} {K = K} {W = W} (elim o.1 [
            | ok _ ↦ (record { sockets = o.0; reactor = r }, ready (ok (stream, addr)))
            | err e ↦ (record { sockets = o.0; reactor = r }, ready (err e))
          ]))
  stream-Opens s t r stream addr (u, ok q) opens stays =
      (opens.0, λ j. ground (arith, opens.1 j, stays.1 j), stays.2 ∙ opens.2)
  stream-Opens s t r stream addr (u, err e) opens stays = (
    λ j. ground (arith, opens.0, opens.1 j, stays.0 j, ==_iff j stream),
    stays.1 (ground (arith, opens.1 stream, ==_iff stream stream)) ∙ opens.2,
  )

  pub after_accept-Opens :
      (s : S.State) (r : Reactor K W) (fd : ℕ) (w : W) (o : S.State × Result (ℕ × ℕ) ℕ)
      → Opens S d.opens d.bad_closes s (accepted S o)
      → Opens S d.opens d.bad_closes s (kept (after_accept S K r fd w o))
  unfolding after_accept after_io
  after_accept-Opens s r fd w (t, err e) opens =
      kept-Opens s t (on_error S K {A = ℕ × ℕ} r fd w true e).0 (on_error S K r fd w true e).1 opens
        (on_error-NoValue (ℕ × ℕ) r fd w true e)
  after_accept-Opens s r fd w (t, ok (stream, addr)) opens =
      stream-Opens s t r stream addr (nonblocking S t stream) opens (nonblocking-Stays S d t stream)
