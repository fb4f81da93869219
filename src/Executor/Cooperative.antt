-- ===== src/Executor/Cooperative.antt =====
-- src/executor.rs: the rounds of `tick` over futures that make progress at each poll and wake
-- themselves.
use mini_async_runtime.Base.{
  ℕ, suc, ◌≤◌, ◌<◌, ◌≡◌, ◌⊎◌, inl, inr, refl, sym, subst, true, false, none, some, List, [], ◌∷◌,
  is_nil, contains, lookup, lookup-insert, lookup-remove, Poll, ready, pending, Option-cases, arith,
  ==_iff,
}
use mini_async_runtime.ReadyQueue.{drain, push_all}
use mini_async_runtime.ReadyQueue.Fifo.{
  Fifo, push_all-enqueue_all, contains-push_all, contains-push, push-Fifo,
}
use mini_async_runtime.Executor.{settle, spawn, Polled, Executor, poll_task, poll_tasks, tick}

module _ {F E : Type 0} (rank : F → ℕ) where
  -- The rank of each live task is below the number, and the task is queued.
  pub record Progressing (n : ℕ) (ex : Executor F E) : Type 0 where
    pub fifo : Fifo ex.ready_queue
    pub due :
        (j : ℕ) (f : F)
        → lookup j ex.tasks ≡ some f
        → (rank f < n) × (contains j ex.ready_queue.queue ≡ true)

  abbrev pub Dead : Executor F E → Type 0
  Dead ex = (j : ℕ) → lookup j ex.tasks ≡ none

  pub Progressing-Dead :
      (n : ℕ) (ex : Executor F E)
      → Progressing n ex
      → (n ≡ 0) ⊎ (is_nil ex.ready_queue.queue ≡ true)
      → Dead ex
  Progressing-Dead n ex h why j = elim (Option-cases (lookup j ex.tasks)) [
    | inl gone ↦ gone
    | inr (f, found) ↦ absurd (ground (arith, why, h.due j f found))
  ]

  -- A task that is spawned with a rank below the number is queued.
  pub spawn-Progressing :
      (n : ℕ) (ex : Executor F E) (id : ℕ) (f : F)
      → Progressing n ex
      → rank f < n
      → Progressing n (spawn ex id f)
  unfolding spawn
  spawn-Progressing n ex id f h lt = record {
    fifo = push-Fifo ex.ready_queue id h.fifo;
    due = λ j g live. ground (
      arith,
      live,
      lookup-insert id j f ex.tasks,
      contains-push ex.ready_queue id j h.fifo,
      h.due j g,
      ==_iff j id,
    );
  }

module _ {F E : Type 0} (poll : ℕ → F → E → Polled F E (Unit {0})) (rank : F → ℕ)
    (progress : (id : ℕ) (f : F) (env : E)
      → (poll id f env).result ≡ pending
      → (contains id (poll id f env).woken ≡ true) × (rank (poll id f env).future < rank f)) where
  -- Within a round of which the ids `left` have not been polled yet: a live task has been polled, and
  -- is queued again, or it is among them.
  abbrev Bounded : (n : ℕ) (left : List ℕ) → Executor F E → Type 0
  Bounded n left ex =
      (j : ℕ) (f : F)
      → lookup j ex.tasks ≡ some f
      → ((rank f < n) × (contains j ex.ready_queue.queue ≡ true))
        ⊎ ((rank f ≤ n) × (contains j left ≡ true))

  settle-Bounded :
      (n id : ℕ) (left : List ℕ) (r : Poll (Unit {0})) (f f' : F) (ex : Executor F E)
      (woken : List ℕ)
      → Fifo ex.ready_queue
      → lookup id ex.tasks ≡ some f
      → (r ≡ pending → (contains id woken ≡ true) × (rank f' < rank f))
      → Bounded n (id ∷ left) ex
      → (env : E)
      → Bounded n left (record {
        tasks = settle r id f' ex.tasks;
        ready_queue = push_all ex.ready_queue woken;
        env = env;
      })
  unfolding settle
  settle-Bounded n id left (ready _) f f' ex woken v found step b env j g live = ground (
    arith,
    lookup-remove id j ex.tasks,
    contains-push_all ex.ready_queue woken j v,
    b j g,
    ==_iff j id,
  )
  settle-Bounded n id left pending f f' ex woken v found step b env j g live = ground (
    arith,
    lookup-insert id j f' ex.tasks,
    contains-push_all ex.ready_queue woken j v,
    b j g,
    b id f,
    step refl,
    ==_iff j id,
  )

  poll_task-Bounded :
      (n id : ℕ) (left : List ℕ) (ex : Executor F E)
      → Fifo ex.ready_queue
      → Bounded n (id ∷ left) ex
      → Fifo (poll_task poll ex id).ready_queue × Bounded n left (poll_task poll ex id)
  unfolding poll_task
  poll_task-Bounded n id left ex v b = elim (Option-cases (lookup id ex.tasks)) [
    | inl gone ↦
        rw (gone, poll_task) (v, λ j g live. ground (arith, gone, live, b j g live, ==_iff j id))
    | inr (f, found) ↦
        let p = poll id f ex.env in
        rw (found, poll_task)
          (
            (push_all-enqueue_all ex.ready_queue p.woken v).1,
            settle-Bounded n id left p.result f p.future ex p.woken v found (progress id f ex.env) b
                p.env,
          )
  ]

  poll_tasks-Bounded :
      (n : ℕ) (ids : List ℕ) (ex : Executor F E)
      → Fifo ex.ready_queue
      → Bounded n ids ex
      → Fifo (poll_tasks poll ex ids).ready_queue × Bounded n [] (poll_tasks poll ex ids)
  unfolding poll_tasks
  poll_tasks-Bounded n [] ex v b = (v, b)
  poll_tasks-Bounded n (id ∷ ids) ex v b =
      let h = poll_task-Bounded n id ids ex v b in
      poll_tasks-Bounded n ids (poll_task poll ex id) h.0 h.1

  -- A round with a task in the queue lowers the bound.
  pub tick-Progressing :
      (n : ℕ) (ex : Executor F E)
      → Progressing rank (suc n) ex
      → is_nil ex.ready_queue.queue ≡ false
      → ((tick poll ex).1 ≡ true) × Progressing rank n (tick poll ex).0
  unfolding tick drain
  tick-Progressing n ex h busy =
      let started : Executor F E = record ex { ready_queue = record { queue = []; set = [] } } in
      let out =
        poll_tasks-Bounded n ex.ready_queue.queue started
          (record { distinct = refl; indexed = λ id. refl })
          (λ j f live. inr (ground (arith, h.due j f live))) in
      rw (busy, tick)
        (refl, record { fifo = out.0; due = λ j f live. ground (arith, out.1 j f live) })

  poll_tasks-Dead : (ids : List ℕ) (ex : Executor F E) → Dead rank ex → poll_tasks poll ex ids ≡ ex
  unfolding poll_tasks poll_task
  poll_tasks-Dead [] ex dead = refl
  poll_tasks-Dead (id ∷ ids) ex dead =
      let same : poll_task poll ex id ≡ ex = rw (dead id, poll_task) in
      subst (λ out. poll_tasks poll out ids ≡ ex) (sym same) (poll_tasks-Dead ids ex dead)

  -- Without live tasks a round empties the queue.
  pub tick-Dead :
      (ex : Executor F E)
      → Progressing rank 0 ex
      → is_nil ex.ready_queue.queue ≡ false
      → ((tick poll ex).1 ≡ true)
        × (is_nil (tick poll ex).0.ready_queue.queue ≡ true)
        × Progressing rank 0 (tick poll ex).0
  unfolding tick drain
  tick-Dead ex h busy =
      let drained : Executor F E = record ex { ready_queue = record { queue = []; set = [] } } in
      let dead = Progressing-Dead rank 0 ex h (inl refl) in
      let same = poll_tasks-Dead ex.ready_queue.queue drained dead in
      let left : Progressing rank 0 drained = record {
        fifo = record { distinct = refl; indexed = λ id. refl };
        due = λ j f live. absurd (ground (arith, dead j, live));
      } in
      rw (busy, same, tick) (refl, refl, left)

  pub tick-empty :
      (ex : Executor F E)
      → is_nil ex.ready_queue.queue ≡ true
      → ((tick poll ex).1 ≡ false) × ((tick poll ex).0.tasks ≡ ex.tasks)
  unfolding tick drain
  tick-empty ex none_ready = rw (none_ready, tick) (refl, refl)
