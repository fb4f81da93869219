-- ===== src/Task/Examples.antt =====
-- Tests of src/task.rs and src/join_handle.rs, and the theorems about them at concrete inputs.
use mini_async_runtime.Base.{ℕ, ◌≡◌, refl, none, [], ◌∷◌, to_list, All, ready, pending}
use mini_async_runtime.Task.{spawned, complete, poll_handle}
use mini_async_runtime.Task.Handover.{last_or, poll_each, handle_gets_result}

-- The task completes before the handle is polled.
early_completion : (poll_handle (complete (spawned {T = ℕ} {W = ℕ}) 5).state 1).1 ≡ ready 5
unfolding spawned complete poll_handle
early_completion = refl

handle_gets_result_example :
    let waiting = poll_each (spawned {T = ℕ} {W = ℕ}) (1 ∷ 2 ∷ []) in
    let done = complete waiting.0 5 in
    let first = poll_handle done.state 3 in
    All (λ r. r ≡ pending) waiting.1
    × (done.woken ≡ to_list (last_or none (1 ∷ 2 ∷ [])))
    × (first.1 ≡ ready 5)
    × ((poll_handle first.0 4).1 ≡ pending)
handle_gets_result_example = handle_gets_result (1 ∷ 2 ∷ []) 5 3 4
