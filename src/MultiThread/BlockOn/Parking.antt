-- ===== src/MultiThread/BlockOn/Parking.antt =====
-- src/multi_thread/runtime.rs, `block_on`: the wait of the caller for the result.
use mini_async_runtime.Base.{ℕ, zero, suc, ◌<◌, ◌≡◌, Bool, true, false, ◌||◌, ◌&&◌, is_some, arith}
use mini_async_runtime.MultiThread.Threads.{update}
use mini_async_runtime.MultiThread.Interleaving.{Threads, Run-invariant}
use mini_async_runtime.MultiThread.BlockOn.{Signal, Place, Access, started, Reach}

module _ {T : Type 0} where
  abbrev is_caller : Place T → Bool
  is_caller Place.checking = true
  is_caller Place.blocked = true
  is_caller (Place.returned v) = true
  is_caller _ = false

  abbrev is_blocked : Place T → Bool
  is_blocked Place.blocked = true
  is_blocked _ = false

  abbrev pub has_returned : Place T → Bool
  has_returned (Place.returned v) = true
  has_returned _ = false

  -- The root task has stored its result, and has yet to call `notify_one`.
  abbrev is_notifying : Place T → Bool
  is_notifying Place.notifying = true
  is_notifying _ = false

  abbrev has_stored : Place T → Bool
  has_stored Place.notifying = true
  has_stored Place.finished = true
  has_stored _ = false

  abbrev Inv : Signal T → (caller root : Place T) → Type 0
  Inv s caller root =
      (is_caller caller ≡ true)
      × (is_caller root ≡ false)
      × (has_stored root ≡ (is_some s.result || has_returned caller))
      × ((is_some s.result && has_returned caller) ≡ false)
      × (is_blocked caller ≡ true → (s.waits || s.notified) ≡ true)
      × (is_blocked caller ≡ false → (s.waits || s.notified) ≡ false)
      × ((s.waits && s.notified) ≡ false)
      × (s.waits ≡ true → has_stored root ≡ true → is_notifying root ≡ true)

  caller-Inv :
      (s t : Signal T) (caller root p : Place T)
      → Inv s caller root
      → Access s caller t p
      → Inv t p root
  caller-Inv s t caller root p v Access.polls = ground arith
  caller-Inv s t caller root p v (Access.takes h1) = ground arith
  caller-Inv s t caller root p v (Access.blocks h1) = ground arith
  caller-Inv s t caller root p v (Access.resumes h1) = ground arith
  caller-Inv s t caller root p v (Access.stirs h1) = ground arith
  caller-Inv s t caller root p v _ = ground arith

  root-Inv :
      (s t : Signal T) (caller root p : Place T)
      → Inv s caller root
      → Access s root t p
      → Inv t caller p
  root-Inv s t caller root p v Access.polls = ground arith
  root-Inv s t caller root p v _ = ground arith

  access-Inv :
      (s : Threads (Signal T) (Place T)) (i : ℕ) (t : Signal T) (p : Place T)
      → Inv s.memory (s.place 0) (s.place 1)
      → i < 2
      → Access s.memory (s.place i) t p
      → Inv t (update s.place i p 0) (update s.place i p 1)
  access-Inv s zero t p v lt a = caller-Inv s.memory t (s.place 0) (s.place 1) p v a
  access-Inv s (suc zero) t p v lt a = root-Inv s.memory t (s.place 0) (s.place 1) p v a
  access-Inv s (suc (suc i)) t p v lt a = absurd (omega arith)

  Reach-Inv : (s : Threads (Signal T) (Place T)) → Reach s → Inv s.memory (s.place 0) (s.place 1)
  Reach-Inv =
      Run-invariant Access started (λ s. Inv s.memory (s.place 0) (s.place 1)) 2 (ground arith)
        access-Inv

  -- In every order of the accesses, when the root task is through with its result and the caller of
  -- `block_on` is in the wait of the condition variable, then the caller has been notified and the
  -- result is there to take: no notification is lost between its look at the result and its wait.
  pub finished-notified :
      (s : Threads (Signal T) (Place T))
      → Reach s
      → s.place 1 ≡ Place.finished
      → s.place 0 ≡ Place.blocked
      → (s.memory.notified ≡ true) × (is_some s.memory.result ≡ true)
  finished-notified s reach at at' = let v = Reach-Inv s reach in ground (arith, v, at, at')

  -- In every order of the accesses, once a panic of its future has had the root task dropped, the
  -- caller of `block_on` has not returned, and there is no result.
  pub dropped-hangs :
      (s : Threads (Signal T) (Place T))
      → Reach s
      → s.place 1 ≡ Place.dropped
      → (has_returned (s.place 0) ≡ false) × (is_some s.memory.result ≡ false)
  dropped-hangs s reach at = let v = Reach-Inv s reach in ground (arith, v, at)
