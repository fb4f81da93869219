-- ===== src/MultiThread/Polling/Armed.antt =====
-- src/reactor.rs with the threads of src/multi_thread: the masks in the kernel, against the registrations.
use mini_async_runtime.Base.{
  ℕ, ◌≡◌, ◌≢◌, sym, subst, Bool, true, false, some, List, [], contains, ok, lookup, arith,
  if◌then◌else◌, ◌⊎◌, inl, inr, Bool-cases,
}
use mini_async_runtime.Reactor.Epoll.{Kernel, Event}
use mini_async_runtime.Reactor.Interest.{Registration, interest, oneshot}
use mini_async_runtime.Reactor.{Reactor, new, register, timeout_ms}
use mini_async_runtime.Reactor.Armed.{Lawful, Covered, fds}
use mini_async_runtime.Reactor.Armed.Rearm.{
  IsRearming, IsRearming-weaken, is_err, update, refusals, pending, handle_events-IsRearming,
  Waited, wait-Waited,
}
use mini_async_runtime.Reactor.Armed.Register.{register-IsRearming}
use mini_async_runtime.Reactor.History.{
  remove-IsRearming, delete-IsRearming, wake-IsRearming, new-IsRearming,
}
use mini_async_runtime.MultiThread.Polling.Absent.{Absent, step-Absent}
use mini_async_runtime.MultiThread.Polling.{
  Place, waited, Polling, Step, Run, started, begin, later,
}

-- The events that the driver has yet to handle.
abbrev pub in_hand : {W : Type 0} → Place W → List Event
in_hand (waited events) = events
in_hand _ = []

module _ {K : Kernel} {W : Type 0} where
  -- The descriptors that are left disarmed: the kernel has refused to arm them again after an event,
  -- and has accepted no registration of them and armed them after no other event since.
  abbrev after_step : {s t : Polling K W} → Step K s t → (ℕ → Bool) → ℕ → Bool
  after_step {s} (Step.registers fd waker is_read other free) unarmed =
      if is_err (register K s.reactor fd waker is_read).1 then unarmed else update unarmed fd false
  after_step {s} (Step.handles events at) unarmed = refusals K s.reactor events unarmed
  after_step _ unarmed = unarmed

  abbrev pub disarmed : {first s : Polling K W} → Run K first s → ℕ → Bool
  disarmed begin = λ _. false
  disarmed (later run step) = after_step step (disarmed run)

module _ {K : Kernel} {W : Type 0} (laws : Lawful K) where
  abbrev Sound : (ℕ → Bool) → Polling K W → Type 0
  Sound unarmed s = IsRearming laws (pending (in_hand s.driver) unarmed) s.reactor

  abbrev SoundAt : (ℕ → Bool) → Reactor K W → Place W → Type 0
  SoundAt unarmed r p = IsRearming laws (pending (in_hand p) unarmed) r

  registers-Sound :
      (s : Polling K W) (fd : ℕ) (waker : W) (is_read : Bool) (unarmed : ℕ → Bool)
      → fd ≢ s.reactor.wake_fd
      → Sound unarmed s
      → let o = register K s.reactor fd waker is_read in
        Sound (if is_err o.1 then unarmed else update unarmed fd false) (record s { reactor = o.0 })
  registers-Sound s fd waker is_read unarmed other v =
      let o = register K s.reactor fd waker is_read in
      let w =
        register-IsRearming K laws s.reactor fd waker is_read (pending (in_hand s.driver) unarmed)
          other v in
      IsRearming-weaken laws _ _ o.0 (λ q free. ground arith) w

  step-Sound :
      (s t : Polling K W) (unarmed : ℕ → Bool)
      → Sound unarmed s
      → Absent s
      → (step : Step K s t) → Sound (after_step step unarmed) t
  step-Sound s t u v absent (Step.registers fd waker is_read other free) =
      registers-Sound s fd waker is_read u other v
  step-Sound s t u v absent (Step.removes fd found) =
      remove-IsRearming K laws (pending (in_hand s.driver) u) s.reactor fd v
  step-Sound s t u v absent (Step.deletes fd at) =
      delete-IsRearming K laws (pending (in_hand s.driver) u) s.reactor fd (absent fd at) v
  step-Sound s t u v absent Step.wakes =
      wake-IsRearming K laws (pending (in_hand s.driver) u) s.reactor v
  step-Sound s t u v absent (Step.waits timeout at e) =
      subst (Waited laws u s.reactor) e
        (wait-Waited laws u s.reactor (timeout_ms timeout) (subst (SoundAt u s.reactor) at v))
  step-Sound s t u v absent (Step.wait_fails timeout at e) = subst (SoundAt u t.reactor) (sym at) (
      subst (Waited laws u s.reactor) e
        (wait-Waited laws u s.reactor (timeout_ms timeout) (subst (SoundAt u s.reactor) at v)))
  step-Sound s t u v absent (Step.handles events at) =
      handle_events-IsRearming laws s.reactor events u (subst (SoundAt u s.reactor) at v)
  step-Sound s t u v absent (Step.calls at) = subst (SoundAt u s.reactor) at v
  step-Sound s t u v absent (Step.returns at) = subst (SoundAt u s.reactor) at v

  Run-Sound :
      (r : Reactor K W)
      → IsRearming laws (λ _. false) r
      → (s : Polling K W) (run : Run K (started K r) s) → Sound (disarmed run) s × Absent s
  Run-Sound r v s begin = (v, λ q at. absurd (ground arith))
  Run-Sound r v t (later {s} run step) =
      let (before, absent) = Run-Sound r v s run in
      (step-Sound s t (disarmed run) before absent step, step-Absent s t absent step)

  -- In every order of the calls, of the waits of the driver and of its handling of the events, with
  -- registrations of descriptors other than the reactor's own eventfd, and of none that is being
  -- dropped, and where any call of the kernel may fail: a descriptor for which tasks wait is armed for
  -- just their directions; or the driver is between its wait and the lock with an event of that
  -- descriptor; or the kernel has refused to arm it again after an event, and no registration of it
  -- has been accepted and no later event has armed it since. So a registration in the window in which
  -- the driver has no lock is not stranded, and a failed `epoll_ctl` is all that can strand one.
  pub no_stranded_waker :
      (k : K.State) (r : Reactor K W) (s : Polling K W)
      → new K k ≡ ok r
      → (run : Run K (started K r) s) (fd : ℕ) (reg : Registration W)
      → lookup fd s.reactor.registrations ≡ some reg
      → interest reg ≢ 0
      → (laws.armed s.reactor.kernel fd ≡ some (oneshot (interest reg)))
        ⊎ (contains fd (fds (in_hand s.driver)) ≡ true)
        ⊎ (disarmed run fd ≡ true)
  no_stranded_waker k r s made run fd reg found waits =
      let (v, _) = Run-Sound r (new-IsRearming K laws k r made) s run in
      elim (Bool-cases (contains fd (fds (in_hand s.driver)))) [
        | inl held ↦ inr (inl held)
        | inr handled ↦ elim (Bool-cases (disarmed run fd)) [
          | inl refused ↦ inr (inr refused)
          | inr free ↦
              let c : Covered (laws.armed s.reactor.kernel fd) (some reg) =
                subst (Covered (laws.armed s.reactor.kernel fd)) found
                  (v.covered fd (ground arith)) in
              inl (c.1 waits)
        ]
      ]
