-- ===== src/Runtime/Root.antt =====
-- src/runtime.rs, `block_on`: the root task, its handle, and the flag of the waker.
use mini_async_runtime.Base.{
  ℕ, zero, suc, ◌≡◌, refl, sym, subst, Bool, true, false, ◌||◌, Option, none, some, [], ◌∷◌,
  is_some, HashMap, lookup, lookup-insert, lookup-remove, Poll, ready, pending, ==_iff, ◌==◌,
  by-true, by-false, arith, Bool-cases, Option-cases, inl, inr, is_nil,
}
use mini_async_runtime.Task.{spawned, complete, poll_handle}
use mini_async_runtime.ReadyQueue.{is_empty}
use mini_async_runtime.Timer.{has_pending}
use mini_async_runtime.Reactor.Epoll.{Kernel}
use mini_async_runtime.Executor.{Polled, Executor, settle, tick, is_idle, wake_all}
use mini_async_runtime.Executor
use mini_async_runtime.Executor.Keeps.{tick-keeps}
use mini_async_runtime.Runtime.{World, Runtime, next_task_id, spawn}
use mini_async_runtime.Runtime.Loop.{
  Env, Turn, goes_on, breaks, exits, Exit, returned, panicked, out_of_fuel, wake_flag, Ex, finish,
  forget, poll_task, run_ready, poll_root, process_timers, poll_reactor, wait, after_timers,
  check_tasks, after_woken_poll, check_root, last_attempt, loop, started, block_on,
}

-- What `run_ready` goes on with, after a round that found tasks or none.
abbrev pub chosen_by :
    {K : Kernel} {U F T : Type 0}
    → (ℕ → F → World K U → Polled F (World K U) T)
    → (root fuel : ℕ) → Ex K U F T
    → Bool
    → Option (Ex K U F T)
chosen_by body root fuel next true = run_ready body root fuel next
chosen_by body root fuel next false = some next

some-injective : {A : Type 0} {a b : A} → some a ≡ some b → a ≡ b
some-injective e = cc

-- The loop has not panicked, and what it has returned has property `P`.
abbrev pub Returns : {S T : Type 0} → (T → Type 0) → Exit S T → Type 0
Returns P (returned last v) = P v
Returns P (panicked last) = ⊥
Returns P out_of_fuel = Unit

module _ {K : Kernel} {U F T : Type 0} (body : ℕ → F → World K U → Polled F (World K U) T)
    (instant_now : U → U × ℕ) (root : ℕ) (P : T → Type 0)
    (gives : (f : F) (w : World K U) (v : T) → (body root f w).result ≡ ready v → P v) where
  abbrev ResultFine : Option T → Type 0
  ResultFine none = Unit
  ResultFine (some v) = P v

  -- The root is live, or its result is stored. A stored result has the flag set, since otherwise the
  -- handle has stored its waker.
  abbrev pub Held : HashMap F → Env K U T → Type 0
  Held tasks env =
      ((is_some (lookup root tasks) || is_some env.root.result) ≡ true)
      × (is_some env.root.result ≡ true → env.handle_woken ≡ true)
      × ((env.handle_woken || is_some env.root.waker) ≡ true)
      × ResultFine env.root.result

  finish-Held :
      (id : ℕ) (r : Poll T) (f f' : F) (tasks : HashMap F) (env : Env K U T)
      → lookup id tasks ≡ some f
      → (id ≡ root → (v : T) → r ≡ ready v → P v)
      → Held tasks env
      → Held (settle (forget r) id f' tasks) (finish (id == root) r env)
  unfolding settle forget finish wake_flag complete
  finish-Held id (ready v) f f' tasks env found fine h = elim (Bool-cases (id == root)) [
    | inl e ↦
        let stored : P v = fine (ground (arith, ==_iff id root)) v refl in
        rw (e, finish) (ground (arith, h), ground (arith, h), ground (arith, h), stored)
    | inr e ↦ rw (e, finish) (ground (arith, lookup-remove id root tasks, h), h.1, h.2, h.3)
  ]
  finish-Held id pending f f' tasks env found fine h =
      ground (arith, lookup-insert id root f' tasks, h)

  pub run_ready-Held :
      (fuel : ℕ) (ex out : Ex K U F T)
      → run_ready body root fuel ex ≡ some out
      → Held ex.tasks ex.env
      → Held out.tasks out.env
  unfolding run_ready poll_task
  run_ready-Held zero ex out e h = absurd (ground arith)
  run_ready-Held (suc fuel) ex out e h =
      let ticked = tick (poll_task body root) ex in
      let kept : Held ticked.0.tasks ticked.0.env =
        tick-keeps (poll_task body root) Held
          (λ id f tasks env found held.
            finish-Held id (body id f env.world).result f (body id f env.world).future tasks _ found
              (λ is_root v r.
                gives f env.world v (subst (λ j. (body j f env.world).result ≡ ready v) is_root r))
              held)
          ex h in
      let chosen : (b : Bool) → ticked.1 ≡ b → chosen_by body root fuel ticked.0 b ≡ some out =
        λ b same. subst (λ c. chosen_by body root fuel ticked.0 c ≡ some out) same e in
      elim (Bool-cases ticked.1) [
        | inl again ↦ run_ready-Held fuel ticked.0 out (chosen true again) kept
        | inr idle ↦
            let same : ticked.0 ≡ out = some-injective (chosen false idle) in
            subst (λ (o : Ex K U F T). Held o.tasks o.env) same kept
      ]

  -- The loop goes on only while the root is live, and exits with a result of the root.
  abbrev pub Good : Turn (Ex K U F T) T → Type 0
  Good (goes_on next) = Held next.tasks next.env × (is_some (lookup root next.tasks) ≡ true)
  Good (breaks last) = ⊥
  Good (exits last v) = P v

  live-busy : (tasks : HashMap F) → is_some (lookup root tasks) ≡ true → is_nil tasks ≡ false
  unfolding lookup
  live-busy [] h = absurd (ground arith)
  live-busy (x ∷ tasks) h = refl

  after_timers-Good :
      (ex : Ex K U F T) (o : Option ℕ)
      → Held ex.tasks ex.env
      → is_some (lookup root ex.tasks) ≡ true
      → Good (after_timers instant_now (ex, o))
  unfolding after_timers wait process_timers poll_reactor is_idle wake_all
  after_timers-Good ex o h live = elim (Bool-cases (is_empty ex.ready_queue)) [
    | inr busy ↦ rw (busy, after_timers) (h, live)
    | inl empty ↦ elim (Bool-cases (has_pending ex.env.world.timers)) [
      | inl sleeping ↦ rw (empty, sleeping, after_timers) (h, live)
      | inr none_pending ↦ rw (empty, none_pending, live-busy ex.tasks live, after_timers) (h, live)
    ]
  ]

  check_tasks-Good :
      (ex : Ex K U F T)
      → Held ex.tasks ex.env
      → is_some (lookup root ex.tasks) ≡ true
      → Good (check_tasks instant_now ex)
  unfolding check_tasks process_timers wake_all is_idle
  check_tasks-Good ex h live =
      by-false Good _ (live-busy ex.tasks live) (
        after_timers-Good (process_timers instant_now ex).0 (process_timers instant_now ex).1 h
          live)

  pub check_root-Good : (ex : Ex K U F T) → Held ex.tasks ex.env → Good (check_root instant_now ex)
  unfolding check_root poll_root poll_handle after_woken_poll
  check_root-Good ex h = elim (Bool-cases ex.env.handle_woken) [
    | inr unwoken ↦ by-false Good _ unwoken (check_tasks-Good ex h (ground (arith, unwoken, h)))
    | inl woken ↦ elim (Option-cases ex.env.root.result) [
      | inr (v, stored) ↦
          by-true Good _ woken (rw (stored, poll_handle) (subst ResultFine stored h.3))
      | inl missing ↦ by-true Good _ woken (
          rw (missing, poll_handle)
            (check_tasks-Good _ (ground (arith, missing, h)) (ground (arith, missing, h))))
    ]
  ]

  -- What the loop does with a turn, and with the tasks that are left once none is ready.
  abbrev on_turn : (turns rounds : ℕ) → Turn (Ex K U F T) T → Exit (Ex K U F T) T
  on_turn turns rounds (goes_on next) = loop body instant_now root turns rounds next
  on_turn turns rounds (breaks last) = last_attempt (poll_root last)
  on_turn turns rounds (exits last v) = returned last v

  abbrev on_idle : (turns rounds : ℕ) → Option (Ex K U F T) → Exit (Ex K U F T) T
  on_idle turns rounds none = out_of_fuel
  on_idle turns rounds (some idle) = on_turn turns rounds (check_root instant_now idle)

  on_turn-Returns :
      (turns rounds : ℕ) (turn : Turn (Ex K U F T) T)
      → ((next : Ex K U F T)
          → Held next.tasks next.env
          → Returns P (loop body instant_now root turns rounds next))
      → Good turn
      → Returns P (on_turn turns rounds turn)
  on_turn-Returns turns rounds (goes_on next) later g = later next g.0
  on_turn-Returns turns rounds (breaks last) later g = absurd g
  on_turn-Returns turns rounds (exits last v) later g = g

  loop-Returns :
      (turns rounds : ℕ) (ex : Ex K U F T)
      → Held ex.tasks ex.env
      → Returns P (loop body instant_now root turns rounds ex)
  unfolding loop
  loop-Returns zero rounds ex h = tt
  loop-Returns (suc turns) rounds ex h = elim (Option-cases (run_ready body root rounds ex)) [
    | inl spent ↦ subst (λ o. Returns P (on_idle turns rounds o)) (sym spent) tt
    | inr (idle, ran) ↦
        subst (λ o. Returns P (on_idle turns rounds o)) (sym ran)
          (on_turn-Returns turns rounds (check_root instant_now idle) (loop-Returns turns rounds)
            (check_root-Good idle (run_ready-Held rounds ex idle ran h)))
  ]

  pub started-Held :
      (rt : Runtime K U F) (future : F)
      → let ex : Ex K U F T = started (spawn rt root future).0 in Held ex.tasks ex.env
  unfolding spawn next_task_id Executor.spawn spawned
  started-Held rt future = (
    ground (arith, lookup-insert root root future rt.tasks, ==_iff root root),
    λ absent. refl,
    refl,
    tt,
  )

-- Whatever the futures, the clock and the kernel do, and however long the loop is let run: the final
-- `panic!` of `block_on` is never reached, and a value that `block_on` returns has each property
-- that all results of the root future have.
pub block_on-Returns :
    {K : Kernel} {U F T : Type 0} (body : ℕ → F → World K U → Polled F (World K U) T)
    (instant_now : U → U × ℕ) (P : T → Type 0) (rt : Runtime K U F) (counter : ℕ) (future : F)
    (turns rounds : ℕ)
    → ((f : F) (w : World K U) (v : T) → (body counter f w).result ≡ ready v → P v)
    → Returns P (block_on body instant_now rt counter future turns rounds)
unfolding block_on
block_on-Returns body instant_now P rt counter future turns rounds gives =
    loop-Returns body instant_now counter P gives turns rounds (started (spawn rt counter future).0)
      (started-Held body instant_now counter P gives rt future)
