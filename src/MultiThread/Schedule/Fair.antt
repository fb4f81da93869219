-- ===== src/MultiThread/Schedule/Fair.antt =====
-- src/multi_thread/executor.rs, `ReadyQueue` between the workers: how many tasks go before one that is
-- queued.
use mini_async_runtime.Base.{
  ℕ, suc, ◌+◌, ◌≡◌, ◌⊎◌, inl, inr, true, List, [], ◌∷◌, ◌++◌, contains, length, contains-append,
  length-append, if◌then◌else◌, ◌==◌, ==_iff, arith,
}
use mini_async_runtime.MultiThread.ReadyQueue.{ReadyQueue, enqueue, enqueue-back, dequeue-front}
use mini_async_runtime.MultiThread.Interleaving.{Run, begin, acts}
use mini_async_runtime.MultiThread.Schedule.{Shared, Pc, Move, System}

-- How many ids are before the first `id`.
abbrev pub position : ℕ → List ℕ → ℕ
position id [] = 0
position id (x ∷ xs) = if id == x then 0 else suc (position id xs)

position-append :
    (id : ℕ) (xs ys : List ℕ) → contains id xs ≡ true → position id (xs ++ ys) ≡ position id xs
position-append id [] ys h = absurd (ground arith)
position-append id (x ∷ xs) ys h = ground (arith, position-append id xs ys)

-- The ids that an access takes off the queue.
abbrev takes : {s m : Shared} {p p' : Pc} → Move s p m p' → List ℕ
takes (Move.dequeues {id} e) = id ∷ []
takes _ = []

-- The ids that a run takes off the queue, the last one first.
abbrev pub dequeued : {n : ℕ} {s t : System} → Run Move s n t → List ℕ
dequeued begin = []
dequeued (acts i run move lt) = takes move ++ dequeued run

-- `id` is among the ids taken, or it is queued, as much further to the front as ids were taken.
abbrev pub Passed : (id : ℕ) (before after taken : List ℕ) → Type 0
Passed id before after taken =
    (contains id taken ≡ true)
    ⊎ ((contains id after ≡ true) × (position id after + length taken ≡ position id before))

enqueue-Passed :
    (id j : ℕ) (q : ReadyQueue)
    → contains id q.queue ≡ true
    → Passed id q.queue (enqueue q j).queue []
enqueue-Passed id j q h = ground (
  arith,
  enqueue-back q j,
  position-append id q.queue (j ∷ []),
  contains-append id q.queue (j ∷ []),
)

Move-Passed :
    (id : ℕ) (s m : Shared) (p p' : Pc)
    → contains id s.ready_queue.queue ≡ true
    → (move : Move s p m p') → Passed id s.ready_queue.queue m.ready_queue.queue (takes move)
Move-Passed id s m p p' h (Move.dequeues {id = j} {out} e) =
    ground (arith, dequeue-front s.ready_queue out j e, ==_iff id j)
Move-Passed id s m p p' h (Move.enqueues {id = j}) = enqueue-Passed id j s.ready_queue h
Move-Passed id s m p p' h _ = inr (h, ground arith)

Passed-trans :
    (id : ℕ) (a b c t u : List ℕ)
    → Passed id a b t
    → (contains id b ≡ true → Passed id b c u)
    → Passed id a c (u ++ t)
Passed-trans id a b c t u (inl h) f = inl (ground (arith, contains-append id u t))
Passed-trans id a b c t u (inr (h, e)) f =
    ground (arith, f h, contains-append id u t, length-append u t)

-- However the threads are interleaved from any state on, a task that is in the ready queue there is not
-- passed by: it is among the tasks dequeued since, or it is still queued, nearer to the front by as many
-- places as tasks were dequeued.
pub bounded_bypass :
    (n id : ℕ) (s t : System)
    → contains id s.memory.ready_queue.queue ≡ true
    → (later : Run Move s n t)
    → Passed id s.memory.ready_queue.queue t.memory.ready_queue.queue (dequeued later)
bounded_bypass n id s t h begin = inr (h, ground arith)
bounded_bypass n id s t h (acts i {s = u} {m} {p} later move lt) =
    let before = s.memory.ready_queue.queue in
    let between = u.memory.ready_queue.queue in
    Passed-trans id before between m.ready_queue.queue (dequeued later) (takes move)
      (bounded_bypass n id s u h later)
      (λ still. Move-Passed id u.memory m (u.place i) p still move)
