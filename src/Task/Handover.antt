-- ===== src/Task/Handover.antt =====
-- src/task.rs and src/join_handle.rs: the way of a result from its task to the handle.
use mini_async_runtime.Base.{
  ◌≡◌, refl, ap, Option, none, some, List, [], ◌∷◌, to_list, All, Poll, ready, pending,
}
use mini_async_runtime.Task.{TaskState, spawned, complete, poll_handle}

abbrev pub last_or {ℓ} : {A : Type ℓ} → Option A → List A → Option A
last_or o [] = o
last_or o (x ∷ xs) = last_or (some x) xs

module _ {ℓ} {T W : Type ℓ} where
  -- Polls of the handle one after the other: the state that they leave, and their results.
  pub poll_each : TaskState T W → List W → TaskState T W × List (Poll T)
  poll_each state [] = (state, [])
  poll_each state (w ∷ ws) =
      let (next, r) = poll_handle state w in let (last, rs) = poll_each next ws in (last, r ∷ rs)

  poll_each-pending :
      (waker : Option W) (ws : List W)
      → let p = poll_each (record { result = none; waker = waker }) ws in
        (p.0 ≡ record { result = none; waker = last_or waker ws }) × All (λ r. r ≡ pending) p.1
  unfolding poll_each poll_handle
  poll_each-pending waker [] = (refl, tt)
  poll_each-pending waker (w ∷ ws) = let h = poll_each-pending (some w) ws in (h.0, (refl, h.1))

  -- However often the handle of a new task is polled before the task completes, those polls are
  -- pending. Completion wakes the waker of the last of them and no other, or nothing if there was
  -- none. The next poll gives the result, and the one after it is pending: it is given once.
  pub handle_gets_result :
      (ws : List W) (result : T) (w v : W)
      → let waiting = poll_each spawned ws in
        let done = complete waiting.0 result in
        let first = poll_handle done.state w in
        All (λ r. r ≡ pending) waiting.1
        × (done.woken ≡ to_list (last_or none ws))
        × (first.1 ≡ ready result)
        × ((poll_handle first.0 v).1 ≡ pending)
  unfolding spawned complete poll_handle
  handle_gets_result ws result w v =
      let h = poll_each-pending none ws in (h.1, ap (λ s. to_list s.waker) h.0, refl, refl)
