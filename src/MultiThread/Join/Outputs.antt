-- ===== src/MultiThread/Join/Outputs.antt =====
-- src/multi_thread/task.rs: what the future of a task gives, and what its handle returns.
use mini_async_runtime.Base.{
  ℕ, zero, suc, ◌<◌, ◌≡◌, refl, true, false, some, List, [], ◌∷◌, to_list, ◌++◌, ◌∙◌, ap, subst,
  sym, Option-cases, inl, inr, arith,
}
use mini_async_runtime.MultiThread.Interleaving.{Threads, Run, steps_of, begin, acts}
use mini_async_runtime.MultiThread.Join.{Shared, Place, Access, Reach}
use mini_async_runtime.MultiThread.Join.Handover.{Inv, Reach-Inv}

module _ {T : Type 0} where
  -- What the future gave, from then on: with the task, behind the lock, or with the owner.
  abbrev carried : Shared T → (owner task : Place T) → List T
  carried s owner Place.running = []
  carried s owner Place.dropped = []
  carried s owner (Place.locking v) = v ∷ []
  carried s owner (Place.storing v) = v ∷ []
  carried s (Place.taking v) task = v ∷ []
  carried s (Place.returned v) task = v ∷ []
  carried s owner task = to_list s.state.result

  abbrev given : {s t : Shared T} {p q : Place T} → Access s p t q → List T
  given (Access.completes {v}) = v ∷ []
  given _ = []

  -- The outputs of the future in a run, latest first.
  abbrev pub outputs : {s : Threads (Shared T) (Place T)} → Reach s → List T
  outputs begin = []
  outputs (acts i run access lt) = given access ++ outputs run

  owner-carried :
      (s t : Shared T) (owner task p : Place T)
      → Inv s owner task
      → (a : Access s owner t p) → carried t p task ≡ given a ++ carried s owner task
  owner-carried s t owner task p v (Access.first_poll h) = ground arith
  owner-carried s t owner task p v (Access.next_poll h) = ground arith
  owner-carried s t owner task p v (Access.takes h) = ground arith
  owner-carried s t owner task p v (Access.parks h) = ground arith
  owner-carried s t owner task p v Access.returns_ready = ground arith
  owner-carried s t owner task p v Access.returns_pending = ground arith
  owner-carried s t owner task p v _ = ground arith

  task-carried :
      (s t : Shared T) (owner task p : Place T)
      → Inv s owner task
      → (a : Access s task t p) → carried t owner p ≡ given a ++ carried s owner task
  task-carried s t owner task p v Access.polls = ground arith
  task-carried s t owner task p v Access.completes = ground arith
  task-carried s t owner task p v Access.panics = ground arith
  task-carried s t owner task p v (Access.locks h) = ground arith
  task-carried s t owner task p v (Access.stores_waker h) = ground arith
  task-carried s t owner task p v (Access.stores h) = ground arith
  task-carried s t owner task p v Access.wakes = ground arith
  task-carried s t owner task p v Access.unlocks = ground arith
  task-carried s t owner task p v _ = ground arith

  outputs-carried :
      (s : Threads (Shared T) (Place T)) (reach : Reach s)
      → carried s.memory (s.place 0) (s.place 1) ≡ outputs reach
  outputs-carried s begin = refl
  outputs-carried s (acts zero {s = r} {m} {p} run a lt) =
      owner-carried r.memory m (r.place 0) (r.place 1) p (Reach-Inv r run) a
      ∙ ap (λ l. given a ++ l) (outputs-carried r run)
  outputs-carried s (acts (suc zero) {s = r} {m} {p} run a lt) =
      task-carried r.memory m (r.place 0) (r.place 1) p (Reach-Inv r run) a
      ∙ ap (λ l. given a ++ l) (outputs-carried r run)
  outputs-carried s (acts (suc (suc i)) run a lt) = absurd (omega arith)

  -- In every order of the accesses, a handle that has returned a value has returned the one that the
  -- future gave, and it gave one.
  pub returned-output :
      (s : Threads (Shared T) (Place T)) (reach : Reach s) (v : T)
      → s.place 0 ≡ Place.returned v
      → outputs reach ≡ v ∷ []
  returned-output s reach v at =
      let i = Reach-Inv s reach in let c = outputs-carried s reach in ground (arith, i, c, at)

  -- Three accesses of the owner after the task is finished: the next poll is ready.
  poll-returns :
      (s : Threads (Shared T) (Place T)) (w : ℕ) (v : T)
      → s.place 0 ≡ Place.waiting w
      → s.memory.locked ≡ false
      → s.memory.state.result ≡ some v
      → (t : Threads (Shared T) (Place T)) × (after : Run Access s 2 t) × (steps_of 0 after ≡ 3)
        × (steps_of 1 after ≡ 0)
        × (t.place 0 ≡ Place.returned v)
  poll-returns s w v at free has =
      let a : Access s.memory (s.place 0) (record s.memory { locked = true }) (Place.polling w) =
        subst (λ p. Access s.memory p (record s.memory { locked = true }) (Place.polling w))
          (sym at) (Access.next_poll free) in
      let below : 0 < 2 = omega arith in
      let inside = acts 0 begin a below in
      (
        _,
        acts 0 (acts 0 inside (Access.takes has) below) Access.returns_ready below,
        refl,
        refl,
        refl,
      )

  -- In every order of the accesses, when the task is finished and the last poll of its handle, by
  -- whichever task, was pending: the waker of that poll has been called, once, and no other has. The
  -- future has given one value, and three accesses of the owner alone, the next poll, return it.
  pub finished-wakes :
      (s : Threads (Shared T) (Place T)) (reach : Reach s) (w : ℕ)
      → s.place 1 ≡ Place.finished
      → s.place 0 ≡ Place.waiting w
      → (s.memory.woken ≡ w ∷ [])
        × (v : T) × (outputs reach ≡ v ∷ [])
        × (t : Threads (Shared T) (Place T)) × (after : Run Access s 2 t) × (steps_of 0 after ≡ 3)
        × (steps_of 1 after ≡ 0)
        × (t.place 0 ≡ Place.returned v)
  finished-wakes s reach w done at =
      let i = Reach-Inv s reach in
      let c = outputs-carried s reach in
      elim (Option-cases s.memory.state.result) [
        | inl empty ↦ absurd (ground (arith, i, done, at, empty))
        | inr (v, has) ↦
            let (o, k, l, e, st, n, wk, lf, called, calls) = i in
            let (t, after, own, alone, ends) =
              poll-returns s w v at (ground (arith, l, done, at)) has in
            (
              called w (ground (arith, at)) (ground (arith, done)) (ground (arith, done)),
              v,
              ground (arith, c, done, at, has),
              t,
              after,
              own,
              alone,
              ends,
            )
      ]
