-- ===== src/MultiThread/Idle/Examples.antt =====
-- Two workers and a thread that spawns: the first worker goes to the wait of the reactor, the second to
-- the condition variable, and then a task is enqueued.
use mini_async_runtime.Base.{ℕ, zero, suc, ◌<◌, ◌≤◌, ◌≡◌, refl, true, false, arith}
use mini_async_runtime.MultiThread.ReadyQueue.{new, enqueue, is_empty}
use mini_async_runtime.MultiThread.Interleaving.{Threads, Run, begin, acts, steps_of}
use mini_async_runtime.MultiThread.Idle.{Shared, Place, Access, started}
use mini_async_runtime.MultiThread.Idle.Stop.{Goes, shutdown-exits}
use mini_async_runtime.MultiThread.Idle.Awake.{can_act, has_token, queued-awake, one_driver}

abbrev Trace : Threads Shared Place → Type 0
Trace first = (s : Threads Shared Place) × Run Access first 3 s

abbrev after :
    {first : Threads Shared Place} (r : Trace first) (i : ℕ) {m : Shared} {p : Place}
    → i < 3
    → Access r.0.memory (r.0.place i) m p
    → Trace first
after r i lt access = (_, acts i r.1 access lt)

new-is_empty : is_empty new ≡ true
unfolding new is_empty
new-is_empty = refl

abbrev driving : Trace (started 2)
driving =
    let running = after (started 2, begin) 0 (omega arith) (Access.goes_on refl) in
    let idle = after running 0 (omega arith) (Access.finds_none new-is_empty) in
    let claimed = after idle 0 (omega arith) (Access.claims refl) in
    let empty = after claimed 0 (omega arith) (Access.still_empty new-is_empty) in
    after empty 0 (omega arith) Access.blocks

abbrev asleep : Trace (started 2)
asleep =
    let running = after driving 1 (omega arith) (Access.goes_on refl) in
    let idle = after running 1 (omega arith) (Access.finds_none new-is_empty) in
    let refused = after idle 1 (omega arith) (Access.claim_fails refl) in
    let resting = after refused 1 (omega arith) (Access.rests refl) in
    after resting 1 (omega arith) (Access.sleeps new-is_empty)

abbrev enqueued : Trace (started 2)
enqueued =
    let pushed = after asleep 2 (omega arith) (Access.pushes 5) in
    let seen = after pushed 2 (omega arith) (Access.sees_driver refl) in
    let kicked = after seen 2 (omega arith) Access.kicks in
    after kicked 2 (omega arith) Access.notifies

queued-awake_example : (i : ℕ) × (i < 3) × (can_act enqueued.0.memory (enqueued.0.place i) ≡ true)
unfolding new enqueue is_empty
queued-awake_example = queued-awake 2 3 enqueued.0 (omega arith) (omega arith) enqueued.1 refl refl

one_driver_example : (has_token (asleep.0.place 1) ≡ false) × (asleep.0.memory.driver_token ≡ true)
one_driver_example =
    one_driver 2 3 asleep.0 0 1 (omega arith) (omega arith) asleep.1 (omega arith) (omega arith)
      (omega arith) refl

-- The second worker has found the queue empty and the flag not set, when `shutdown` sets it.
abbrev stopped : Trace (started 2)
stopped =
    let running = after driving 1 (omega arith) (Access.goes_on refl) in
    let idle = after running 1 (omega arith) (Access.finds_none new-is_empty) in
    after idle 2 (omega arith) Access.stores_shutdown

-- The driver drains the eventfd and exits, and then the second worker takes the token and waits.
abbrev late : Trace stopped.0
late =
    let notified = after (stopped.0, begin) 2 (omega arith) Access.notifies_all in
    let kicked = after notified 2 (omega arith) Access.wakes_driver in
    let returned = after kicked 0 (omega arith) Access.returns in
    let drained = after returned 0 (omega arith) Access.drains_eventfd in
    let released = after drained 0 (omega arith) Access.releases in
    let quit = after released 0 (omega arith) (Access.quits refl) in
    let claimed = after quit 1 (omega arith) (Access.claims refl) in
    let empty = after claimed 1 (omega arith) (Access.still_empty new-is_empty) in
    after empty 1 (omega arith) Access.blocks

-- Then nothing goes on before the timeout of that wait, though `shutdown` has been through with its
-- wake-ups.
late_waits : (i : ℕ) → i < 3 → can_act late.0.memory (late.0.place i) ≡ false
late_waits zero lt = refl
late_waits (suc zero) lt = refl
late_waits (suc (suc zero)) lt = refl
late_waits (suc (suc (suc i))) lt = absurd (omega arith)

shutdown-exits_example : (steps_of 1 late.1 ≤ 8) × Goes late.0.memory (late.0.place 1)
shutdown-exits_example =
    shutdown-exits 2 3 stopped.0 late.0 1 (omega arith) stopped.1 refl (omega arith) late.1
