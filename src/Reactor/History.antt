-- ===== src/Reactor/History.antt =====
-- src/reactor.rs: any sequence of calls on a reactor.
use mini_async_runtime.Base.{
  ℕ, ◌≡◌, refl, sym, subst, ◌∙◌, Bool, Option, List, [], ◌∷◌, Result, ok, err, lookup,
  lookup-remove, remove, none, true, false, arith, ◌==◌, ==_iff, inl, inr, Bool-cases,
}
use mini_async_runtime.Reactor.Epoll.{Kernel, delete, Event}
use mini_async_runtime.Reactor.{
  Reactor, register, deregister, poll, wake, new, handle_event, handle_events, after_wait, wait,
  timeout_ms,
}
use mini_async_runtime.Reactor.Armed.{Lawful}
use mini_async_runtime.Reactor.Armed.Rearm.{IsRearming}

pub data Call (W : Type 0) : Type 0 where
  registers : (fd : ℕ) → W → (is_read : Bool) → Call W
  deregisters : (fd : ℕ) → Call W
  polls : (timeout : Option ℕ) → Call W
  wakes : Call W

module _ (K : Kernel) {W : Type 0} where
  unfoldable pub call : Reactor K W → Call W → Reactor K W
  call r (registers fd waker is_read) = (register K r fd waker is_read).0
  call r (deregisters fd) = deregister K r fd
  call r (polls timeout) = (poll K r timeout).state
  call r wakes = wake K r

  unfoldable pub calls : Reactor K W → List (Call W) → Reactor K W
  unfolding call
  calls r [] = r
  calls r (c ∷ cs) = calls (call r c) cs

  handle_event-wake_fd : (r : Reactor K W) (e : Event) → (handle_event K r e).0.wake_fd ≡ r.wake_fd
  unfolding handle_event
  handle_event-wake_fd r e = ground arith

  pub handle_events-wake_fd :
      (r : Reactor K W) (es : List Event) → (handle_events K r es).0.wake_fd ≡ r.wake_fd
  unfolding handle_events
  handle_events-wake_fd r [] = refl
  handle_events-wake_fd r (e ∷ es) =
      handle_events-wake_fd (handle_event K r e).0 es ∙ handle_event-wake_fd r e

  after_wait-wake_fd :
      (r : Reactor K W) (p : K.State × Result (List Event) ℕ)
      → (after_wait K r p).state.wake_fd ≡ r.wake_fd
  unfolding after_wait
  after_wait-wake_fd r (k, err e) = refl
  after_wait-wake_fd r (k, ok es) = handle_events-wake_fd (record r { kernel = k }) es

  pub register-wake_fd :
      (r : Reactor K W) (fd : ℕ) (w : W) (is_read : Bool)
      → (register K r fd w is_read).0.wake_fd ≡ r.wake_fd
  unfolding register
  register-wake_fd r fd w is_read = ground arith

  call-wake_fd : (r : Reactor K W) (c : Call W) → (call r c).wake_fd ≡ r.wake_fd
  unfolding call poll deregister wake
  call-wake_fd r (registers fd waker is_read) = register-wake_fd r fd waker is_read
  call-wake_fd r (deregisters fd) = ground arith
  call-wake_fd r (polls timeout) = after_wait-wake_fd r (wait K r.kernel (timeout_ms timeout))
  call-wake_fd r wakes = refl

  -- The two halves of `deregister`.
  pub remove-IsRearming :
      (laws : Lawful K) (todo : ℕ → Bool) (r : Reactor K W) (fd : ℕ)
      → IsRearming laws todo r
      → IsRearming laws todo (record r { registrations = remove fd r.registrations })
  remove-IsRearming laws todo r fd v = record {
    covered = λ q free. elim (Bool-cases (fd == q)) [
      | inl same ↦ rw (lookup-remove fd q r.registrations, same) tt
      | inr different ↦ rw (lookup-remove fd q r.registrations, different) (v.covered q free)
    ];
    listed = λ q. elim (Bool-cases (fd == q)) [
      | inl same ↦ rw (lookup-remove fd q r.registrations, same) tt
      | inr different ↦ rw (lookup-remove fd q r.registrations, different) (v.listed q)
    ];
    unwatched = rw (lookup-remove fd r.wake_fd r.registrations) (ground (arith, v.unwatched));
  }

  pub delete-IsRearming :
      (laws : Lawful K) (todo : ℕ → Bool) (r : Reactor K W) (fd : ℕ)
      → lookup fd r.registrations ≡ none
      → IsRearming laws todo r
      → IsRearming laws todo (record r { kernel = (K.epoll_ctl r.kernel delete fd 0).0 })
  delete-IsRearming laws todo r fd gone v =
      let others = laws.ctl_others r.kernel delete fd 0 in
      let gone_at : (q : ℕ) → (q == fd) ≡ true → lookup q r.registrations ≡ none =
        λ q same. subst (λ p. lookup p r.registrations ≡ none) (sym ((==_iff q fd).0 same)) gone in
      record {
        covered = λ q free. elim (Bool-cases (q == fd)) [
          | inl same ↦ rw (gone_at q same) tt
          | inr different ↦ rw (others q (ground arith)) (v.covered q free)
        ];
        listed = λ q. elim (Bool-cases (q == fd)) [
          | inl same ↦ rw (gone_at q same) tt
          | inr different ↦ rw (others q (ground arith)) (v.listed q)
        ];
        unwatched = v.unwatched;
      }

  pub wake-IsRearming :
      (laws : Lawful K) (todo : ℕ → Bool) (r : Reactor K W)
      → IsRearming laws todo r
      → IsRearming laws todo (wake K r)
  unfolding wake
  wake-IsRearming laws todo r v = record {
    covered = λ q free. rw (laws.write_keeps r.kernel q) (v.covered q free);
    listed = λ q. rw (laws.write_keeps r.kernel q) (v.listed q);
    unwatched = v.unwatched;
  }

  pub new-registrations : (k : K.State) (r : Reactor K W) → new K k ≡ ok r → r.registrations ≡ []
  unfolding new
  new-registrations k r made = ground arith

  pub new-IsRearming :
      (laws : Lawful K) (k : K.State) (r : Reactor K W)
      → new K k ≡ ok r
      → IsRearming laws (λ _. false) r
  unfolding lookup
  new-IsRearming laws k r made =
      let blank = new-registrations k r made in
      record {
        covered = λ q free. rw blank tt;
        listed = λ q. rw blank tt;
        unwatched = rw blank refl;
      }
