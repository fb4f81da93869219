-- ===== src/Runtime/Pipe/Examples.antt =====
-- Three messages through a channel, on a runtime that has nothing else to do.
use mini_async_runtime.Base.{ℕ, ◌≡◌, List, [], ◌∷◌, none, some, if◌then◌else◌, ◌==◌}
use mini_async_runtime.Timer
use mini_async_runtime.Reactor.{Reactor}
use mini_async_runtime.Reactor.Scripted.{scripted}
use mini_async_runtime.Runtime.Loop.{Ex, returned, block_on}
use mini_async_runtime.Runtime.Pipe.{Shared, Job, joins, body, with_sender}
use mini_async_runtime.Runtime.Pipe.Delivers.{block_on-messages}

abbrev reactor : Reactor scripted ℕ
reactor = record {
  registrations = [];
  wake_fd = 3;
  kernel = record { list = λ q. if 3 == q then some 1 else none; batches = [] };
}

-- The clock stands still.
abbrev stands : Shared ℕ → Shared ℕ × ℕ
stands shared = (shared, 0)

block_on-messages_example :
    (last : Ex scripted (Shared ℕ) (Job ℕ) (List ℕ)) × (block_on body stands
        (with_sender Timer.new reactor (1 ∷ 2 ∷ 2 ∷ []))
        2
        joins
        1
        2
      ≡ returned last (1 ∷ 2 ∷ 2 ∷ []))
    × (last.tasks ≡ [])
block_on-messages_example = block_on-messages Timer.new reactor (1 ∷ 2 ∷ 2 ∷ []) stands 0 0
