-- ===== src/Runtime/Prompt.antt =====
-- src/runtime.rs, `block_on`: the iterations of the loop, and the root task.
use mini_async_runtime.Base.{ℕ, ◌≡◌, true, subst, some, is_some, lookup}
use mini_async_runtime.Reactor.Epoll.{Kernel}
use mini_async_runtime.Executor.{Polled}
use mini_async_runtime.Runtime.{World, Runtime, spawn}
use mini_async_runtime.Runtime.Loop.{Ex, goes_on, run_ready, check_root, started}
use mini_async_runtime.Runtime.Root.{Held, run_ready-Held, started-Held, Good, check_root-Good}

module _ {K : Kernel} {U F T : Type 0} (body : ℕ → F → World K U → Polled F (World K U) T)
    (instant_now : U → U × ℕ) (rt : Runtime K U F) (root : ℕ) (future : F) where
  -- The states with which an iteration of the loop begins.
  pub data Begins : Ex K U F T → Type 0 where
    first : Begins (started (spawn rt root future).0)
    next :
        {ex idle after : Ex K U F T} (rounds : ℕ)
        → Begins ex
        → run_ready body root rounds ex ≡ some idle
        → check_root instant_now idle ≡ goes_on after
        → Begins after

  abbrev IsHeld : Ex K U F T → Type 0
  IsHeld ex = Held body instant_now root (λ _. Unit {0}) (λ f w v e. tt) ex.tasks ex.env

  turn-Good :
      (rounds : ℕ) (ex idle after : Ex K U F T)
      → IsHeld ex
      → run_ready body root rounds ex ≡ some idle
      → check_root instant_now idle ≡ goes_on after
      → Good body instant_now root (λ _. Unit {0}) (λ f w v e. tt) (goes_on after)
  turn-Good rounds ex idle after h ran on =
      subst (Good body instant_now root (λ _. Unit {0}) (λ f w v e. tt)) on (
        check_root-Good body instant_now root (λ _. Unit {0}) (λ f w v e. tt) idle
          (run_ready-Held body instant_now root (λ _. Unit {0}) (λ f w v e. tt) rounds ex idle ran
            h))

  Begins-IsHeld : (ex : Ex K U F T) → Begins ex → IsHeld ex
  Begins-IsHeld ex first =
      started-Held body instant_now root (λ _. Unit {0}) (λ f w v e. tt) rt future
  Begins-IsHeld ex (next {ex = before} {idle = idle} rounds begins ran on) =
      (turn-Good rounds before idle ex (Begins-IsHeld before begins) ran on).0

  -- When an iteration of the loop of `block_on` goes on to another, after a wait for events or
  -- without one, then the root task is still live: `block_on` never waits once the root has ended.
  pub goes_on-live :
      (rounds : ℕ) (ex idle after : Ex K U F T)
      → Begins ex
      → run_ready body root rounds ex ≡ some idle
      → check_root instant_now idle ≡ goes_on after
      → is_some (lookup root after.tasks) ≡ true
  goes_on-live rounds ex idle after begins ran on =
      (turn-Good rounds ex idle after (Begins-IsHeld ex begins) ran on).1
