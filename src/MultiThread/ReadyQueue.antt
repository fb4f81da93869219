-- ===== src/MultiThread/ReadyQueue.antt =====
-- src/multi_thread/executor.rs, `ReadyQueue`: the queue of task ids, of which one is taken at a
-- time.
use mini_async_runtime.Base.{
  ℕ, ◌≡◌, refl, subst₂, Bool, true, false, not, ◌||◌, ◌&&◌, Option, none, some, List, [], ◌∷◌, ◌++◌,
  is_nil, contains, is_nodup, contains-append, is_nodup-snoc, if◌then◌else◌, ◌==◌, ==_iff, arith,
  pop_front, ◌⊎◌, inl, inr,
}

-- A `HashSet<usize>` is the list of its elements.
pub record ReadyQueue : Type 0 where
  pub queue : List ℕ
  pub pending : List ℕ

-- `HashSet::insert`, with whether the element is new, and `HashSet::remove`.
hash_set_insert : List ℕ → ℕ → List ℕ × Bool
hash_set_insert set id = if contains id set then (set, false) else (id ∷ set, true)

hash_set_remove : List ℕ → ℕ → List ℕ
hash_set_remove [] id = []
hash_set_remove (x ∷ set) id =
    let rest = hash_set_remove set id in if id == x then rest else x ∷ rest

unfoldable pub new : ReadyQueue
new = record { queue = []; pending = [] }

unfoldable pub enqueue : ReadyQueue → ℕ → ReadyQueue
unfolding hash_set_insert
enqueue q id =
    let (pending, is_new) = hash_set_insert q.pending id in
    if is_new
    then record { queue = q.queue ++ id ∷ []; pending = pending }
    else record q { pending = pending }

unfoldable pub dequeue : ReadyQueue → ReadyQueue × Option ℕ
unfolding hash_set_remove
dequeue q = elim (pop_front q.queue) [
  | none ↦ (q, none)
  | some (id, rest) ↦ (record { queue = rest; pending = hash_set_remove q.pending id }, some id)
]

unfoldable pub is_empty : ReadyQueue → Bool
is_empty q = is_nil q.queue

-- The set holds the queue's ids, and the queue holds none of them twice.
pub record Fifo (q : ReadyQueue) : Type 0 where
  pub distinct : is_nodup q.queue ≡ true
  pub indexed : (id : ℕ) → contains id q.pending ≡ contains id q.queue

pub new-Fifo : Fifo new
unfolding new
new-Fifo = record { distinct = refl; indexed = λ id. refl }

pub enqueue-Fifo : (q : ReadyQueue) (id : ℕ) → Fifo q → Fifo (enqueue q id)
unfolding enqueue
enqueue-Fifo q id v = record {
  distinct = ground (arith, v.indexed id, is_nodup-snoc id q.queue);
  indexed = λ j. ground (arith, v.indexed id, v.indexed j, contains-append j q.queue (id ∷ []));
}

pub contains-enqueue :
    (q : ReadyQueue) (id j : ℕ)
    → Fifo q
    → contains j (enqueue q id).queue ≡ (contains j q.queue || (j == id))
unfolding enqueue
contains-enqueue q id j v =
    ground (arith, v.indexed id, ==_iff j id, contains-append j q.queue (id ∷ []))

contains-remove :
    (set : List ℕ) (id j : ℕ)
    → contains j (hash_set_remove set id) ≡ (contains j set && not (j == id))
unfolding hash_set_remove
contains-remove [] id j = refl
contains-remove (x ∷ set) id j = ground (arith, contains-remove set id j)

-- What `dequeue` takes off the front.
abbrev Taken : ReadyQueue → ReadyQueue → ℕ → Type 0
Taken q out id =
    Fifo out
    × (contains id q.queue ≡ true)
    × ((j : ℕ) → contains j out.queue ≡ (contains j q.queue && not (j == id)))

dequeue_front :
    (queue pending : List ℕ) (out : ReadyQueue) (id : ℕ)
    → Fifo (record { queue = queue; pending = pending })
    → dequeue (record { queue = queue; pending = pending }) ≡ (out, some id)
    → Taken (record { queue = queue; pending = pending }) out id
unfolding dequeue
dequeue_front [] pending out id v e = absurd (ground arith)
dequeue_front (x ∷ xs) pending out id v e =
    let q : ReadyQueue = record { queue = x ∷ xs; pending = pending } in
    let rest : ReadyQueue = record { queue = xs; pending = hash_set_remove pending x } in
    let taken : Taken q rest x = (
      record {
        distinct = ground arith;
        indexed = λ j. ground (arith, v.indexed j, contains-remove pending x j, ==_iff j x);
      },
      ground arith,
      λ j. ground (arith, ==_iff j x),
    ) in
    subst₂ (Taken q) (cc) (cc) taken

pub dequeue-Taken :
    (q out : ReadyQueue) (id : ℕ) → Fifo q → dequeue q ≡ (out, some id) → Taken q out id
dequeue-Taken q out id v e = dequeue_front q.queue q.pending out id v e

contains-filled : (id : ℕ) (ids : List ℕ) → contains id ids ≡ true → is_nil ids ≡ false
contains-filled id [] h = absurd (ground arith)
contains-filled id (x ∷ ids) h = refl

pub dequeue-filled :
    (q out : ReadyQueue) (id : ℕ) → Fifo q → dequeue q ≡ (out, some id) → is_empty q ≡ false
unfolding is_empty
dequeue-filled q out id v e = contains-filled id q.queue ((dequeue-Taken q out id v e).1)

pub enqueue-filled : (q : ReadyQueue) (id : ℕ) → Fifo q → is_empty (enqueue q id) ≡ false
unfolding is_empty
enqueue-filled q id v =
    contains-filled id (enqueue q id).queue
      (ground (arith, contains-enqueue q id id v, ==_iff id id))

pub dequeue-cases :
    (q : ReadyQueue)
    → (is_empty q ≡ true) ⊎ ((out : ReadyQueue) × (id : ℕ) × (dequeue q ≡ (out, some id)))
unfolding is_empty dequeue
dequeue-cases q = cases q.queue
  where
    cases :
        (ids : List ℕ)
        → (is_nil ids ≡ true)
          ⊎ ((out : ReadyQueue) × (id : ℕ) × (dequeue (record q { queue = ids }) ≡ (out, some id)))
    cases [] = inl refl
    cases (x ∷ xs) = inr (_, x, refl)

front-queue :
    (ids pending : List ℕ) (out : ReadyQueue) (id : ℕ)
    → dequeue (record { queue = ids; pending = pending }) ≡ (out, some id)
    → ids ≡ id ∷ out.queue
unfolding dequeue
front-queue [] pending out id e = absurd (ground arith)
front-queue (x ∷ ids) pending out id e = ground arith

-- `dequeue` takes the front of the queue.
pub dequeue-front :
    (q out : ReadyQueue) (id : ℕ) → dequeue q ≡ (out, some id) → q.queue ≡ id ∷ out.queue
dequeue-front q out id e = front-queue q.queue q.pending out id e

-- `enqueue` puts an id at the end, or leaves the queue.
pub enqueue-back :
    (q : ReadyQueue) (id : ℕ)
    → ((enqueue q id).queue ≡ q.queue) ⊎ ((enqueue q id).queue ≡ q.queue ++ id ∷ [])
unfolding enqueue
enqueue-back q id = ground arith
