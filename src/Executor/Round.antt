-- ===== src/Executor/Round.antt =====
-- src/executor.rs, `Executor::tick`: what one round polls, wakes and removes.
use mini_async_runtime.Base.{
  ℕ, ◌≡◌, ◌≢◌, refl, sym, ap, ap₂, ◌∙◌, Bool, true, false, not, ◌&&◌, List, [], ◌∷◌, ◌++◌, is_nil,
  Poll, ready, pending, HashMap, lookup, is_some, lookup-insert, lookup-remove, contains,
  contains-append, is_nodup, append-nil, append_assoc, if◌then◌else◌, arith, Bool-cases,
  Option-cases, inl, inr,
}
use mini_async_runtime.ReadyQueue.{ReadyQueue, drain}
use mini_async_runtime.ReadyQueue.Fifo.{Fifo, enqueue_all, push_all-enqueue_all, enqueue_all-append}
use mini_async_runtime.Executor.{settle, Polled, Executor, poll_task, poll_tasks, tick}

-- The ids of a list that are keys of the map.
unfoldable pub live_ids {ℓ} : {V : Type ℓ} → HashMap V → List ℕ → List ℕ
live_ids m [] = []
live_ids m (id ∷ ids) = if is_some (lookup id m) then id ∷ live_ids m ids else live_ids m ids

-- Shared memory, with a record of the polls made: the ids polled, those that were ready, and the
-- ids woken.
pub record Logged (E : Type 0) : Type 0 where
  pub memory : E
  pub polled : List ℕ
  pub finished : List ℕ
  pub woken : List ℕ

abbrev finishes : Poll (Unit {0}) → ℕ → List ℕ
finishes (ready _) id = id ∷ []
finishes pending id = []

-- A poll that also records itself.
pub logged :
    {F E : Type 0}
    → (ℕ → F → E → Polled F E (Unit {0}))
    → ℕ
    → F
    → Logged E
    → Polled F (Logged E) (Unit {0})
logged poll id future env =
    let p = poll id future env.memory in
    record {
      result = p.result;
      future = p.future;
      env = record {
        memory = p.env;
        polled = env.polled ++ id ∷ [];
        finished = env.finished ++ finishes p.result id;
        woken = env.woken ++ p.woken;
      };
      woken = p.woken;
    }

abbrev pub unlogged : {F E : Type 0} → HashMap F → ReadyQueue → E → Executor F (Logged E)
unlogged tasks queue memory = record {
  tasks = tasks;
  ready_queue = queue;
  env = record { memory = memory; polled = []; finished = []; woken = [] };
}

module _ {F E : Type 0} (poll : ℕ → F → E → Polled F E (Unit {0})) where
  abbrev Ex : Type 0
  Ex = Executor F (Logged E)

  settle-others :
      (r : Poll (Unit {0})) (id j : ℕ) (f : F) (tasks : HashMap F)
      → j ≢ id
      → lookup j (settle r id f tasks) ≡ lookup j tasks
  unfolding settle
  settle-others (ready _) id j f tasks ne = ground (arith, lookup-remove id j tasks)
  settle-others pending id j f tasks ne = ground (arith, lookup-insert id j f tasks)

  settle-present :
      (r : Poll (Unit {0})) (id j : ℕ) (f : F) (tasks : HashMap F) (before : Bool) (done : List ℕ)
      → is_some (lookup id tasks) ≡ true
      → is_some (lookup j tasks) ≡ (before && not (contains j done))
      → is_some (lookup j (settle r id f tasks))
        ≡ (before && not (contains j (done ++ finishes r id)))
  unfolding settle
  settle-present (ready _) id j f tasks before done live h =
      ground (arith, lookup-remove id j tasks, contains-append j done (id ∷ []))
  settle-present pending id j f tasks before done live h =
      ground (arith, lookup-insert id j f tasks, append-nil done)

  -- The record agrees with the executor, for a round that began with the tasks `m`.
  record Tracks (m : HashMap F) (ex : Ex) : Type 0 where
    queued : ex.ready_queue.queue ≡ enqueue_all [] ex.env.woken
    fifo : Fifo ex.ready_queue
    present :
        (j : ℕ)
        → is_some (lookup j ex.tasks) ≡ (is_some (lookup j m) && not (contains j ex.env.finished))

  poll_task-Tracks :
      (m : HashMap F) (ex : Ex) (id : ℕ) → Tracks m ex → Tracks m (poll_task (logged poll) ex id)
  unfolding poll_task logged
  poll_task-Tracks m ex id t = elim (Option-cases (lookup id ex.tasks)) [
    | inl gone ↦ rw (gone, poll_task) t
    | inr (f, found) ↦
        rw (found, poll_task)
          (record {
            queued =
                rw (enqueue_all-append [] ex.env.woken (poll id f ex.env.memory).woken, ← t.queued)
                  (push_all-enqueue_all ex.ready_queue (poll id f ex.env.memory).woken t.fifo).0;
            fifo = (push_all-enqueue_all ex.ready_queue (poll id f ex.env.memory).woken t.fifo).1;
            present = λ j.
                settle-present (poll id f ex.env.memory).result id j
                  (poll id f ex.env.memory).future ex.tasks _ ex.env.finished (rw found)
                  (t.present j);
          })
  ]

  poll_task-polled :
      (ex : Ex) (id : ℕ)
      → (poll_task (logged poll) ex id).env.polled ≡ ex.env.polled ++ live_ids ex.tasks (id ∷ [])
  unfolding poll_task logged live_ids
  poll_task-polled ex id = ground (arith, append-nil ex.env.polled)

  poll_task-others :
      (ex : Ex) (id j : ℕ)
      → j ≢ id
      → lookup j (poll_task (logged poll) ex id).tasks ≡ lookup j ex.tasks
  unfolding poll_task logged
  poll_task-others ex id j ne = elim (Option-cases (lookup id ex.tasks)) [
    | inl gone ↦ rw (gone, poll_task)
    | inr (f, found) ↦
        rw (found, poll_task) (settle-others (poll id f ex.env.memory).result id j _ ex.tasks ne)
  ]

  live_ids-nil : (m : HashMap F) (ids : List ℕ) → is_nil ids ≡ true → live_ids m ids ≡ []
  unfolding live_ids
  live_ids-nil m [] h = refl
  live_ids-nil m (id ∷ ids) h = cc

  live_ids-cons :
      (m : HashMap F) (id : ℕ) (ids : List ℕ)
      → live_ids m (id ∷ ids) ≡ live_ids m (id ∷ []) ++ live_ids m ids
  unfolding live_ids
  live_ids-cons m id ids = ground arith

  live_ids-agree :
      (m k : HashMap F) (id : ℕ) (ids : List ℕ)
      → contains id ids ≡ false
      → ((j : ℕ) → j ≢ id → lookup j k ≡ lookup j m)
      → live_ids k ids ≡ live_ids m ids
  unfolding live_ids
  live_ids-agree m k id [] fresh same = refl
  live_ids-agree m k id (x ∷ xs) fresh same = ground (arith, same x, live_ids-agree m k id xs)

  poll_tasks-Tracks :
      (m : HashMap F) (ex : Ex) (ids : List ℕ)
      → Tracks m ex
      → Tracks m (poll_tasks (logged poll) ex ids)
  unfolding poll_tasks
  poll_tasks-Tracks m ex [] t = t
  poll_tasks-Tracks m ex (id ∷ ids) t =
      poll_tasks-Tracks m (poll_task (logged poll) ex id) ids (poll_task-Tracks m ex id t)

  poll_tasks-polled :
      (ex : Ex) (ids : List ℕ)
      → is_nodup ids ≡ true
      → (poll_tasks (logged poll) ex ids).env.polled ≡ ex.env.polled ++ live_ids ex.tasks ids
  unfolding poll_tasks live_ids
  poll_tasks-polled ex [] h = simp append-nil
  poll_tasks-polled ex (id ∷ ids) h =
      let out = poll_task (logged poll) ex id in
      poll_tasks-polled out ids (ground arith)
      ∙ ap₂ ◌++◌ (poll_task-polled ex id)
          (live_ids-agree ex.tasks out.tasks id ids (ground arith) (poll_task-others ex id))
      ∙ append_assoc ex.env.polled (live_ids ex.tasks (id ∷ [])) (live_ids ex.tasks ids)
      ∙ ap (◌++◌ ex.env.polled) (sym (live_ids-cons ex.tasks id ids))

  blank-Tracks :
      (tasks : HashMap F) (memory : E)
      → Tracks tasks (unlogged tasks (record { queue = []; set = [] }) memory)
  unfolding enqueue_all
  blank-Tracks tasks memory = record {
    queued = refl;
    fifo = record { distinct = refl; indexed = λ id. refl };
    present = λ j. ground arith;
  }

  tick-Tracks :
      (tasks : HashMap F) (queue : ReadyQueue) (memory : E)
      → Fifo queue
      → Tracks tasks (tick (logged poll) (unlogged tasks queue memory)).0
  unfolding tick drain
  tick-Tracks tasks queue memory v = elim (Bool-cases (is_nil queue.queue)) [
    | inl none_ready ↦ rw (none_ready, tick) (blank-Tracks tasks memory)
    | inr some_ready ↦
        rw (some_ready, tick) (poll_tasks-Tracks tasks _ queue.queue (blank-Tracks tasks memory))
  ]

  -- One round polls exactly the tasks that are queued and live when it begins, each once, in the order of the
  -- queue, whatever the polls themselves wake or remove.
  pub tick-polled :
      (tasks : HashMap F) (queue : ReadyQueue) (memory : E)
      → Fifo queue
      → (tick (logged poll) (unlogged tasks queue memory)).0.env.polled ≡ live_ids tasks queue.queue
  unfolding tick drain live_ids
  tick-polled tasks queue memory v = elim (Bool-cases (is_nil queue.queue)) [
    | inl none_ready ↦ rw (none_ready, tick) (sym (live_ids-nil tasks queue.queue none_ready))
    | inr some_ready ↦ rw (some_ready, tick) (poll_tasks-polled _ queue.queue v.distinct)
  ]

  -- After one round the queue holds the ids that the polls of the round woke, each at its first
  -- wake-up, and nothing else, and its set agrees with it; the live tasks are those that were live
  -- before, less those whose poll was ready.
  tick-requeues :
      (tasks : HashMap F) (queue : ReadyQueue) (memory : E)
      → Fifo queue
      → let out = (tick (logged poll) (unlogged tasks queue memory)).0 in
        (out.ready_queue.queue ≡ enqueue_all [] out.env.woken)
        × Fifo out.ready_queue
        × ((j : ℕ)
            → is_some (lookup j out.tasks)
              ≡ (is_some (lookup j tasks) && not (contains j out.env.finished)))
  tick-requeues tasks queue memory v =
      let t = tick-Tracks tasks queue memory v in (t.queued, t.fifo, t.present)
