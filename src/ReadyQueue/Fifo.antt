-- ===== src/ReadyQueue/Fifo.antt =====
-- src/executor.rs, `ReadyQueue`: the set against the queue, and the order of the queue.
use mini_async_runtime.Base.{
  ℕ, ◌≡◌, refl, true, List, [], ◌∷◌, ◌++◌, contains, is_nodup, contains-append, is_nodup-snoc,
  if◌then◌else◌, arith, ◌||◌, ◌==◌, ==_iff,
}
use mini_async_runtime.ReadyQueue.{ReadyQueue, push, push_all}

-- The ids of a sequence that are not in the list yet go to its end, each at its first occurrence.
unfoldable pub enqueue_all : List ℕ → List ℕ → List ℕ
enqueue_all queue [] = queue
enqueue_all queue (id ∷ ids) =
    enqueue_all (if contains id queue then queue else queue ++ id ∷ []) ids

-- The set holds the queue's ids, and the queue holds none of them twice.
pub record Fifo (q : ReadyQueue) : Type 0 where
  pub distinct : is_nodup q.queue ≡ true
  pub indexed : (id : ℕ) → contains id q.set ≡ contains id q.queue

pub push_lem :
    (q : ReadyQueue) (id : ℕ)
    → Fifo q
    → (push q id).queue ≡ (if contains id q.queue then q.queue else q.queue ++ id ∷ [])
unfolding push
push_lem q id v = ground (arith, v.indexed id)

pub push-Fifo : (q : ReadyQueue) (id : ℕ) → Fifo q → Fifo (push q id)
unfolding push
push-Fifo q id v = record {
  distinct = ground (arith, v.indexed id, is_nodup-snoc id q.queue);
  indexed = λ j. ground (arith, v.indexed id, v.indexed j, contains-append j q.queue (id ∷ []));
}

-- A ready queue whose set and queue agree is a queue without duplicates: waking any sequence of
-- tasks appends the ids that are not queued yet, in the order of their first wake-ups, and the set
-- and the queue agree again.
pub push_all-enqueue_all :
    (q : ReadyQueue) (ids : List ℕ)
    → Fifo q
    → ((push_all q ids).queue ≡ enqueue_all q.queue ids) × Fifo (push_all q ids)
unfolding push_all enqueue_all
push_all-enqueue_all q [] v = (refl, v)
push_all-enqueue_all q (id ∷ ids) v =
    rw (← push_lem q id v) (push_all-enqueue_all (push q id) ids (push-Fifo q id v))

pub enqueue_all-append :
    (queue xs ys : List ℕ) → enqueue_all queue (xs ++ ys) ≡ enqueue_all (enqueue_all queue xs) ys
unfolding enqueue_all
enqueue_all-append queue [] ys = refl
enqueue_all-append queue (x ∷ xs) ys =
    enqueue_all-append (if contains x queue then queue else queue ++ x ∷ []) xs ys

pub contains-enqueue_all :
    (queue ids : List ℕ) (j : ℕ)
    → contains j (enqueue_all queue ids) ≡ (contains j queue || contains j ids)
unfolding enqueue_all
contains-enqueue_all queue [] j = ground arith
contains-enqueue_all queue (id ∷ ids) j = ground (
  arith,
  contains-enqueue_all (if contains id queue then queue else queue ++ id ∷ []) ids j,
  contains-append j queue (id ∷ []),
  ==_iff j id,
)

-- A sequence of wake-ups queues just what it names.
pub contains-push_all :
    (q : ReadyQueue) (ids : List ℕ) (j : ℕ)
    → Fifo q
    → contains j (push_all q ids).queue ≡ (contains j q.queue || contains j ids)
contains-push_all q ids j v =
    rw ((push_all-enqueue_all q ids v).0) (contains-enqueue_all q.queue ids j)

pub contains-push :
    (q : ReadyQueue) (id j : ℕ)
    → Fifo q
    → contains j (push q id).queue ≡ (contains j q.queue || (j == id))
contains-push q id j v =
    rw (push_lem q id v) (ground (arith, contains-append j q.queue (id ∷ []), ==_iff j id))

pub push_all-append :
    (q : ReadyQueue) (xs ys : List ℕ) → push_all q (xs ++ ys) ≡ push_all (push_all q xs) ys
unfolding push_all
push_all-append q [] ys = refl
push_all-append q (x ∷ xs) ys = push_all-append (push q x) xs ys
