-- ===== src/MultiThread/Interleaving.antt =====
-- Threads over a shared memory, of which any one takes its next access at any time.
use mini_async_runtime.Base.{ℕ, ◌+◌, ◌<◌, ◌==◌, if◌then◌else◌}
use mini_async_runtime.MultiThread.Threads.{update}

pub record Threads (M P : Type 0) : Type 0 where
  pub memory : M
  pub place : ℕ → P

-- `Access m p m' p'`: a thread at place `p` changes the memory from `m` to `m'` and goes on to `p'`.
module _ {M P : Type 0} (Access : M → P → M → P → Type 0) (first : Threads M P) where
  -- The states that `count` threads reach, with the last access outermost.
  pub data Run (count : ℕ) : Threads M P → Type 0 where
    begin : Run count first
    acts :
        (i : ℕ) {s : Threads M P} {m : M} {p : P}
        → Run count s
        → Access s.memory (s.place i) m p
        → i < count
        → Run count (record { memory = m; place = update s.place i p })

  -- An invariant: `first` has it, and each access of one of the threads keeps it.
  pub Run-invariant :
      (I : Threads M P → Type 0) (count : ℕ)
      → I first
      → ((s : Threads M P) (i : ℕ) (m : M) (p : P)
          → I s
          → i < count
          → Access s.memory (s.place i) m p
          → I (record { memory = m; place = update s.place i p }))
      → (s : Threads M P) → Run count s
      → I s
  Run-invariant I count at_first kept s begin = at_first
  Run-invariant I count at_first kept s (acts i {s = t} {m} {p} run access lt) =
      kept t i m p (Run-invariant I count at_first kept t run) lt access

-- How many accesses of a run are those of thread `j`.
abbrev pub steps_of :
    {M P : Type 0} {Access : M → P → M → P → Type 0} {first : Threads M P} {count : ℕ} (j : ℕ)
    {s : Threads M P}
    → Run Access first count s
    → ℕ
steps_of j begin = 0
steps_of j (acts i run access lt) = (if i == j then 1 else 0) + steps_of j run

-- A run on from a state that a run reaches.
pub Run-append :
    {M P : Type 0} {Access : M → P → M → P → Type 0} {first : Threads M P} {count : ℕ}
    {s t : Threads M P}
    → Run Access first count s
    → Run Access s count t
    → Run Access first count t
Run-append run begin = run
Run-append run (acts i after access lt) = acts i (Run-append run after) access lt
