-- ===== src/MultiThread/Join/Examples.antt =====
-- A handle that two tasks poll, one after the other, before the task of the handle completes.
use mini_async_runtime.Base.{ℕ, ◌≡◌, refl, [], ◌∷◌, arith}
use mini_async_runtime.MultiThread.Interleaving.{Threads, Run, steps_of, begin, acts}
use mini_async_runtime.MultiThread.Join.{Shared, Place, Access, started, Reach}
use mini_async_runtime.MultiThread.Join.Outputs.{outputs, returned-output, finished-wakes}

abbrev Trace : Type 0
Trace = (s : Threads (Shared ℕ) (Place ℕ)) × Reach s

abbrev owner :
    (r : Trace) {t : Shared ℕ} {p : Place ℕ} → Access r.0.memory (r.0.place 0) t p → Trace
owner r access = (_, acts 0 r.1 access (omega arith))

abbrev task : (r : Trace) {t : Shared ℕ} {p : Place ℕ} → Access r.0.memory (r.0.place 1) t p → Trace
task r access = (_, acts 1 r.1 access (omega arith))

-- Task 5 polls the handle, and then task 6 does.
abbrev parked : Trace
parked =
    let five = owner (started, begin) (Access.first_poll {w = 5} refl) in
    let left = owner (owner five (Access.parks refl)) Access.returns_pending in
    let six = owner left (Access.next_poll {w = 6} refl) in
    owner (owner six (Access.parks refl)) Access.returns_pending

abbrev finished : Trace
finished =
    let computed = task (task parked Access.polls) (Access.completes {v = 4}) in
    let stored = task (task computed (Access.locks refl)) (Access.stores_waker {w = 6} refl) in
    task (task stored Access.wakes) Access.unlocks

-- Task 6 gets the result.
abbrev taken : Trace
taken =
    let inside = owner finished (Access.next_poll {w = 6} refl) in
    owner (owner inside (Access.takes {v = 4} refl)) Access.returns_ready

finished-wakes_example :
    (finished.0.memory.woken ≡ 6 ∷ [])
    × (v : ℕ) × (outputs finished.1 ≡ v ∷ [])
    × (t : Threads (Shared ℕ) (Place ℕ)) × (after : Run Access finished.0 2 t) × (steps_of 0 after
        ≡ 3)
    × (steps_of 1 after ≡ 0)
    × (t.place 0 ≡ Place.returned v)
finished-wakes_example = finished-wakes finished.0 finished.1 6 refl refl

returned-output_example : outputs taken.1 ≡ 4 ∷ []
returned-output_example = returned-output taken.0 taken.1 4 refl
