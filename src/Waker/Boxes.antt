-- ===== src/Waker/Boxes.antt =====
-- src/executor.rs and src/multi_thread/executor.rs: the `Box`es of wakers, whose addresses are the
-- pointers of the wakers. The allocator is a parameter.
use mini_async_runtime.Base.{
  Takes, ℕ, ◌≡◌, refl, Option, none, some, ◌∷◌, ◌∙◌, HashMap, lookup, insert, remove, lookup-insert,
  lookup-remove, arith,
}
use mini_async_runtime.Waker.{Held}
use mini_async_runtime.Waker.Holding.{Distinct, Takes-lookup}

-- The task that a box was made for, `task_id` of its `WakerData`.
abbrev pub task_of : {D : Type 0} → (D → ℕ) → Option D → Option ℕ
task_of of none = none
task_of of (some d) = some (of d)

-- Each waker has a box of its own, for its task, and there are no others.
pub record Boxed {D : Type 0} (of : D → ℕ) (boxes : HashMap D) (ws : Held) : Type 0 where
  pub distinct : Distinct ws
  pub boxed : (p : ℕ) → task_of of (lookup p boxes) ≡ lookup p ws

module _ {D : Type 0} (of : D → ℕ) where
  pub insert-Boxed :
      (boxes : HashMap D) (ws : Held) (p : ℕ) (d : D)
      → lookup p boxes ≡ none
      → Boxed of boxes ws
      → Boxed of (insert p d boxes) ((p, of d) ∷ ws)
  unfolding lookup
  insert-Boxed boxes ws p d free b = record {
    distinct = (ground (arith, b.boxed p), b.distinct);
    boxed = λ j. ground (arith, lookup-insert p j d boxes, b.boxed j);
  }

  pub remove-Boxed :
      (boxes : HashMap D) (ws rest : Held) (p id : ℕ)
      → Takes ws (p, id) rest
      → Boxed of boxes ws
      → Boxed of (remove p boxes) rest
  remove-Boxed boxes ws rest p id t b =
      let (distinct, found, others) = Takes-lookup (b.distinct) t in
      record {
        distinct = distinct;
        boxed = λ j. ground (arith, lookup-remove p j boxes, others j, b.boxed j);
      }

  pub found-Boxed :
      (boxes : HashMap D) (ws rest : Held) (p id : ℕ)
      → Takes ws (p, id) rest
      → Boxed of boxes ws
      → (d : D) × (lookup p boxes ≡ some d) × (of d ≡ id)
  found-Boxed boxes ws rest p id t b =
      let (distinct, found, others) = Takes-lookup (b.distinct) t in
      found_task (lookup p boxes) (b.boxed p ∙ found)
    where
      found_task : (o : Option D) → task_of of o ≡ some id → (d : D) × (o ≡ some d) × (of d ≡ id)
      found_task none e = absurd (ground arith)
      found_task (some d) e = (d, refl, cc)
