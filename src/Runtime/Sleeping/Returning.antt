-- ===== src/Runtime/Sleeping/Returning.antt =====
-- src/runtime.rs, `block_on` of a future that sleeps: the iterations up to the result.
use mini_async_runtime.Base.{
  ℕ, zero, suc, ◌≤◌, ◌<◌, ◌≡◌, refl, sym, ap, subst, ◌∙◌, true, false, none, some, [], ◌∷◌, ◌==◌,
  ==_iff, arith, inl, inr, lookup, remove, ready,
}
use mini_async_runtime.ReadyQueue.{ReadyQueue, push, push_all, drain}
use mini_async_runtime.ReadyQueue
use mini_async_runtime.Executor.{Polled, Executor, tick, is_idle, wake_all}
use mini_async_runtime.Executor
use mini_async_runtime.Timer.{TimerState, fire, poll_sleep}
use mini_async_runtime.Task.{complete, poll_handle}
use mini_async_runtime.Reactor.Epoll.{Kernel}
use mini_async_runtime.Runtime.Loop.{
  goes_on, returned, Ex, poll_task, run_ready, check_root, finish, forget, wake_flag, loop,
}
use mini_async_runtime.Runtime.Sleeping.Clock.{after, Later}
use mini_async_runtime.Runtime.Sleeping.{
  Sleeper, sleeps, poll_timer, sleeper, quiet, Nap, asleep, awake,
}
use mini_async_runtime.Runtime.Sleeping.Iteration.{check_root-Slept}

pub same_id : (id : ℕ) → (id == id) ≡ true
same_id id = ground (arith, ==_iff id id)

pub lookup-only : {V : Type 0} (k : ℕ) (v : V) → lookup k ((k, v) ∷ []) ≡ some v
unfolding lookup
lookup-only k v = rw (same_id k)

pub remove-only : {V : Type 0} (k : ℕ) (v : V) → remove k ((k, v) ∷ []) ≡ []
unfolding remove
remove-only k v = rw (same_id k)

poll_sleep-fired :
    (r id next : ℕ) (cells : ℕ → TimerState ℕ)
    → poll_sleep (record { heap = []; cells = fire cells r; next = next }) r id
      ≡ (record { heap = []; cells = fire cells r; next = next }, ready tt)
unfolding poll_sleep fire
poll_sleep-fired r id next cells = rw (same_id r)

module _ {K : Kernel} {U : Type 0} {T : Type 0} (instant_now : U → U × ℕ) (duration : ℕ) (v : T)
    (n : Nap) where
  -- The task at its end, and the handle woken.
  abbrev done : K.State → U → Ex K U Sleeper T
  done kernel u = record {
    tasks = [];
    ready_queue = ReadyQueue.new;
    env = record {
      world = record {
        timers = record { heap = []; cells = fire n.cells n.r; next = n.next };
        reactor = quiet n.fd kernel;
        outside = u;
      };
      root = record { result = some v; waker = none };
      handle_woken = true;
    };
  }

  sleeper-ends :
      (kernel : K.State) (u : U)
      → (sleeper instant_now duration v) n.root (sleeps n.r) (awake K U T n kernel u).env.world
        ≡ record {
          result = ready v;
          future = sleeps n.r;
          env = (awake K U T n kernel u).env.world;
          woken = [];
        }
  unfolding sleeper poll_timer
  sleeper-ends kernel u = rw (poll_sleep-fired n.r n.root n.next n.cells)

  poll_task-ends :
      (kernel : K.State) (u : U)
      → poll_task
          (sleeper instant_now duration v)
          n.root
          n.root
          (sleeps n.r)
          (awake K U T n kernel u).env
        ≡ record { result = ready tt; future = sleeps n.r; env = (done kernel u).env; woken = [] }
  unfolding poll_task finish forget complete wake_flag
  poll_task-ends kernel u = rw (sleeper-ends kernel u, same_id n.root)

  awake-polled :
      (kernel : K.State) (u : U)
      → Executor.poll_task
          (poll_task (sleeper instant_now duration v) n.root)
          (record (awake K U T n kernel u) { ready_queue = ReadyQueue.new })
          n.root
        ≡ done kernel u
  unfolding Executor.poll_task push_all Executor.settle
  awake-polled kernel u =
      rw (lookup-only n.root (sleeps n.r), poll_task-ends kernel u, remove-only n.root (sleeps n.r))

  awake-done :
      (rounds : ℕ) (kernel : K.State) (u : U)
      → run_ready
          (sleeper instant_now duration v)
          n.root
          (suc (suc rounds))
          (awake K U T n kernel u)
        ≡ some (done kernel u)
  unfolding run_ready tick drain ReadyQueue.new Executor.poll_tasks
  awake-done rounds kernel u =
      ap (run_ready (sleeper instant_now duration v) n.root (suc rounds)) (awake-polled kernel u)

  awake-returns :
      (turns rounds : ℕ) (kernel : K.State) (u : U)
      → loop
          (sleeper instant_now duration v)
          instant_now
          n.root
          (suc turns)
          (suc (suc rounds))
          (awake K U T n kernel u)
        ≡ returned
            (record (done kernel u) {
              env = record (done kernel u).env {
                root = record { result = none; waker = none };
                handle_woken = false;
              };
            })
            v
  unfolding loop check_root poll_handle
  awake-returns turns rounds kernel u = rw (loop, awake-done rounds kernel u)

  asleep-idle :
      (rounds : ℕ) (kernel : K.State) (u : U)
      → run_ready (sleeper instant_now duration v) n.root (suc rounds) (asleep K U T n kernel u)
        ≡ some (asleep K U T n kernel u)
  unfolding run_ready tick drain
  asleep-idle rounds kernel u = refl

  asleep-turn :
      (turns rounds : ℕ) (kernel : K.State) (u : U) (ex : Ex K U Sleeper T)
      → check_root instant_now (asleep K U T n kernel u) ≡ goes_on ex
      → loop
          (sleeper instant_now duration v)
          instant_now
          n.root
          (suc turns)
          (suc rounds)
          (asleep K U T n kernel u)
        ≡ loop (sleeper instant_now duration v) instant_now n.root turns (suc rounds) ex
  unfolding loop
  asleep-turn turns rounds kernel u ex e = rw (loop, asleep-idle rounds kernel u, e)

  abbrev Returns : (turns rounds : ℕ) → Ex K U Sleeper T → Type 0
  Returns turns rounds ex =
      (last : Ex K U Sleeper T) × (loop (sleeper instant_now duration v) instant_now n.root turns
          (suc (suc rounds)) ex
        ≡ returned last v)
      × (n.deadline ≤ (instant_now last.env.world.outside).1)

  awake-Returns :
      (turns rounds : ℕ) (ex : Ex K U Sleeper T) (k : K.State) (u : U)
      → ex ≡ awake K U T n k u
      → n.deadline ≤ (instant_now u).1
      → Returns (suc turns) rounds ex
  awake-Returns turns rounds ex k u same late =
      subst (Returns (suc turns) rounds) (sym same) (_, awake-returns turns rounds k u, late)

  turn-Returns :
      (advances : (u : U) → (instant_now u).1 ≤ (instant_now (instant_now u).0).1)
      → (turns rounds : ℕ) (kernel : K.State) (u : U)
      → ((k : K.State) (u' : U)
          → Later instant_now u u'
          → (instant_now u).1 < n.deadline
          → Returns (suc turns) rounds (asleep K U T n k u'))
      → Returns (suc (suc turns)) rounds (asleep K U T n kernel u)
  turn-Returns advances turns rounds kernel u again =
      let (ex, goes, slept) = check_root-Slept T instant_now n advances kernel u in
      let (last, ends, late) : Returns (suc turns) rounds ex = elim slept [
        | inr (k, u', same, late) ↦ awake-Returns turns rounds ex k u' same late
        | inl (early, inr (k, u', same, late)) ↦ awake-Returns turns rounds ex k u' same late
        | inl (early, inl (k, u', same, lt)) ↦
            subst (Returns (suc turns) rounds) (sym same) (again k u' lt early)
      ] in
      (last, asleep-turn (suc turns) (suc rounds) kernel u ex goes ∙ ends, late)

  -- With as many iterations as the clock may be read before it is at the deadline, and two more.
  pub asleep-Returns :
      (advances : (u : U) → (instant_now u).1 ≤ (instant_now (instant_now u).0).1)
      → (turns rounds : ℕ) (kernel : K.State) (u : U)
      → n.deadline ≤ (instant_now (after instant_now turns u)).1
      → Returns (suc (suc turns)) rounds (asleep K U T n kernel u)
  asleep-Returns advances zero rounds kernel u le =
      turn-Returns advances 0 rounds kernel u (λ k u' lt early. absurd (omega arith))
  asleep-Returns advances (suc turns) rounds kernel u le =
      turn-Returns advances (suc turns) rounds kernel u
        (λ k u' lt early. asleep-Returns advances turns rounds k u' (omega (arith, lt turns)))
