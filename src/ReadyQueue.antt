-- ===== src/ReadyQueue.antt =====
-- src/executor.rs, `ReadyQueue`: the queue of task ids without duplicates.
pub mod Fifo
use mini_async_runtime.Base.{
  ℕ, ◌≡◌, refl, Bool, true, false, ◌||◌, List, [], ◌∷◌, ◌++◌, is_nil, contains, is_nodup,
  contains-append, is_nodup-snoc, if◌then◌else◌, ◌==◌, append_assoc, append-nil, arith, Bool-cases,
  inl, inr,
}

-- A `HashSet<usize>` is the list of its elements, and `insert` says whether the element is new.
pub record ReadyQueue : Type 0 where
  pub queue : List ℕ
  pub set : List ℕ

hash_set_insert : List ℕ → ℕ → List ℕ × Bool
hash_set_insert set id = if contains id set then (set, false) else (id ∷ set, true)

unfoldable pub new : ReadyQueue
new = record { queue = []; set = [] }

unfoldable pub push : ReadyQueue → ℕ → ReadyQueue
unfolding hash_set_insert
push q id =
    let (set, is_new) = hash_set_insert q.set id in
    if is_new then record { queue = q.queue ++ id ∷ []; set = set } else record q { set = set }

-- The queue after `drain`, and the ids that it returns.
unfoldable pub drain : ReadyQueue → ReadyQueue × List ℕ
drain q = (record { queue = []; set = [] }, q.queue)

unfoldable pub is_empty : ReadyQueue → Bool
is_empty q = is_nil q.queue

-- Wakers called one after the other.
unfoldable pub push_all : ReadyQueue → List ℕ → ReadyQueue
push_all q [] = q
push_all q (id ∷ ids) = push_all (push q id) ids
