-- ===== src/MultiThread/Join/Handover.antt =====
-- src/multi_thread/task.rs: the way of a result from a task to its handle, in every order of accesses.
use mini_async_runtime.Base.{
  ℕ, zero, suc, ◌<◌, ◌≡◌, refl, Bool, true, false, ◌||◌, ◌&&◌, Option, none, some, [], ◌∷◌, is_some,
  arith,
}
use mini_async_runtime.MultiThread.Threads.{update}
use mini_async_runtime.MultiThread.Interleaving.{Threads, Run-invariant}
use mini_async_runtime.MultiThread.Join.{Shared, Place, Access, started, Reach}

module _ {T : Type 0} where
  abbrev is_owner : Place T → Bool
  is_owner Place.holding = true
  is_owner (Place.polling w) = true
  is_owner (Place.parking w) = true
  is_owner (Place.taking v) = true
  is_owner (Place.waiting w) = true
  is_owner (Place.returned v) = true
  is_owner _ = false

  -- The thread has the lock.
  abbrev is_inside : Place T → Bool
  is_inside (Place.polling w) = true
  is_inside (Place.parking w) = true
  is_inside (Place.taking v) = true
  is_inside (Place.storing v) = true
  is_inside (Place.waking w) = true
  is_inside Place.unlocking = true
  is_inside _ = false

  -- The waker that the owner has left, and what it has taken.
  abbrev left : Place T → Option ℕ
  left (Place.parking w) = some w
  left (Place.waiting w) = some w
  left _ = none

  abbrev pub has_taken : Place T → Bool
  has_taken (Place.taking v) = true
  has_taken (Place.returned v) = true
  has_taken _ = false

  -- The task has stored its result; and it has called the waker, if there was one.
  abbrev has_stored : Place T → Bool
  has_stored (Place.waking w) = true
  has_stored Place.unlocking = true
  has_stored Place.finished = true
  has_stored _ = false

  abbrev is_waking : Place T → Option ℕ
  is_waking (Place.waking w) = some w
  is_waking _ = none

  abbrev pub Inv : Shared T → (owner task : Place T) → Type 0
  Inv s owner task =
      (is_owner owner ≡ true)
      × (is_owner task ≡ false)
      × (s.locked ≡ (is_inside owner || is_inside task))
      × ((is_inside owner && is_inside task) ≡ false)
      × (has_stored task ≡ (is_some s.state.result || has_taken owner))
      × ((is_some s.state.result && has_taken owner) ≡ false)
      × (has_stored task ≡ false → s.woken ≡ [])
      × ((w : ℕ) → left owner ≡ some w → has_stored task ≡ false → s.state.waker ≡ some w)
      × ((w : ℕ)
          → left owner ≡ some w
          → is_waking task ≡ none
          → has_stored task ≡ true
          → s.woken ≡ w ∷ [])
      × ((w v : ℕ) → left owner ≡ some w → is_waking task ≡ some v → (v ≡ w) × (s.woken ≡ []))

  owner-Inv :
      (s t : Shared T) (owner task p : Place T)
      → Inv s owner task
      → Access s owner t p
      → Inv t p task
  owner-Inv s t owner task p v (Access.first_poll h) = ground arith
  owner-Inv s t owner task p v (Access.next_poll h) = ground arith
  owner-Inv s t owner task p v (Access.takes h) = ground arith
  owner-Inv s t owner task p v (Access.parks h) = ground arith
  owner-Inv s t owner task p v Access.returns_ready = ground arith
  owner-Inv s t owner task p v Access.returns_pending = ground arith
  owner-Inv s t owner task p v _ = ground arith

  wakes-Inv :
      (s : Shared T) (owner : Place T) (w : ℕ)
      → Inv s owner (Place.waking w)
      → Inv (record s { woken = w ∷ s.woken }) owner Place.unlocking
  wakes-Inv s (Place.waiting u) w v =
      let (o, t, l, e, st, n, wk, lf, called, calls) = v in
      let called_one = calls u w refl refl in
      (
        o,
        t,
        l,
        e,
        st,
        n,
        ground arith,
        ground arith,
        λ q h1 h2 h3. ground (arith, called_one),
        ground arith,
      )
  wakes-Inv s _ w v = ground arith

  task-Inv :
      (s t : Shared T) (owner task p : Place T)
      → Inv s owner task
      → Access s task t p
      → Inv t owner p
  task-Inv s t owner task p v Access.polls = ground arith
  task-Inv s t owner task p v Access.completes = ground arith
  task-Inv s t owner task p v Access.panics = ground arith
  task-Inv s t owner task p v (Access.locks h) = ground arith
  task-Inv s t owner task p v (Access.stores_waker h) = ground arith
  task-Inv s t owner task p v (Access.stores h) = ground arith
  task-Inv s t owner task p v (Access.wakes {w}) = wakes-Inv s owner w v
  task-Inv s t owner task p v Access.unlocks = ground arith
  task-Inv s t owner task p v _ = ground arith

  access-Inv :
      (s : Threads (Shared T) (Place T)) (i : ℕ) (t : Shared T) (p : Place T)
      → Inv s.memory (s.place 0) (s.place 1)
      → i < 2
      → Access s.memory (s.place i) t p
      → Inv t (update s.place i p 0) (update s.place i p 1)
  access-Inv s zero t p v lt a = owner-Inv s.memory t (s.place 0) (s.place 1) p v a
  access-Inv s (suc zero) t p v lt a = task-Inv s.memory t (s.place 0) (s.place 1) p v a
  access-Inv s (suc (suc i)) t p v lt a = absurd (omega arith)

  pub Reach-Inv :
      (s : Threads (Shared T) (Place T)) → Reach s → Inv s.memory (s.place 0) (s.place 1)
  Reach-Inv =
      Run-invariant Access started (λ s. Inv s.memory (s.place 0) (s.place 1)) 2 (ground arith)
        access-Inv

  -- In every order of the accesses, once a panic of its future has had the task dropped, the owner of
  -- the handle has not got a result, and no waker of its has been called: it stays pending.
  pub dropped-silent :
      (s : Threads (Shared T) (Place T))
      → Reach s
      → s.place 1 ≡ Place.dropped
      → (has_taken (s.place 0) ≡ false) × (s.memory.state.result ≡ none) × (s.memory.woken ≡ [])
  dropped-silent s reach at = let v = Reach-Inv s reach in ground (arith, v, at)
