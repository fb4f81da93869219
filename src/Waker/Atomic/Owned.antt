-- ===== src/Waker/Atomic/Owned.antt =====
-- src/multi_thread/executor.rs, `make_waker` and the vtable: what wakers own.
use mini_async_runtime.Base.{
  Takes, front, later, Takes-length, ℕ, suc, ap, ◌∙◌, ◌+◌, ◌≡◌, refl, some, List, [], ◌∷◌, lookup,
  remove, length, if◌then◌else◌, ◌==◌, ==_iff, arith,
}
use mini_async_runtime.MultiThread.ReadyQueue.{ReadyQueue}
use mini_async_runtime.MultiThread.Threads.{update}
use mini_async_runtime.MultiThread.Schedule.{TaskPhase}
use mini_async_runtime.Waker.{Held}
use mini_async_runtime.Waker.Holding.{ids}
use mini_async_runtime.Waker.Boxes.{Boxed, remove-Boxed, found-Boxed}
use mini_async_runtime.Waker.Atomic.{
  WakerData, Memory, arcs_clone, arcs_drop, wake_by_ref_impl, wake_box,
}

-- How often a task is in a list.
abbrev pub occurrences : ℕ → List ℕ → ℕ
occurrences id [] = 0
occurrences id (x ∷ xs) = (if x == id then 1 else 0) + occurrences id xs

Takes-occurrences :
    {ws rest : Held} {w : ℕ × ℕ} (j : ℕ)
    → Takes ws w rest
    → occurrences j (ids ws) ≡ (if w.1 == j then 1 else 0) + occurrences j (ids rest)
Takes-occurrences j front = refl
Takes-occurrences j (later t) = ground (arith, Takes-occurrences j t)

abbrev pub effect : Memory → (ℕ → TaskPhase) × ReadyQueue
effect m = (m.phase, m.ready_queue)

-- The wakers have their boxes, and the `Arc`s count them and others: `tasks id` and one more for the
-- state of task `id`, `shared` and one more for the runtime.
pub record Owns (tasks : ℕ → ℕ) (shared : ℕ) (m : Memory) (ws : Held) : Type 0 where
  pub boxes : Boxed WakerData.task_id m.boxes ws
  pub states : (id : ℕ) → m.state_strong id ≡ suc (tasks id) + occurrences id (ids ws)
  pub counted : m.shared_strong ≡ suc shared + length ws

pub arcs_clone-live :
    (m : Memory) (id a b : ℕ)
    → m.state_strong id ≡ suc a
    → m.shared_strong ≡ suc b
    → arcs_clone m id
      ≡ some (record m {
        state_strong = update m.state_strong id (suc (m.state_strong id));
        shared_strong = suc m.shared_strong;
      })
unfolding arcs_clone
arcs_clone-live m id a b e e' = ground (arith)

pub arcs_drop-live :
    (m : Memory) (id a b : ℕ)
    → m.state_strong id ≡ suc a
    → m.shared_strong ≡ suc b
    → arcs_drop m id
      ≡ some (record m { state_strong = update m.state_strong id a; shared_strong = b })
unfolding arcs_drop
arcs_drop-live m id a b e e' = ground (arith)

pub wake_box-live :
    (m : Memory) (id a b : ℕ)
    → m.state_strong id ≡ suc a
    → m.shared_strong ≡ suc b
    → wake_box m id
      ≡ some (record m {
        phase = (wake_by_ref_impl (effect m) id).0;
        ready_queue = (wake_by_ref_impl (effect m) id).1;
      })
unfolding wake_box
wake_box-live m id a b e e' = ground (arith)

module _ (tasks : ℕ → ℕ) (shared : ℕ) where
  -- The memory after a box is freed.
  abbrev pub freed : Memory → ℕ → ℕ → Held → Memory
  freed m p id rest = record m {
    boxes = remove p m.boxes;
    state_strong = update m.state_strong id (suc (tasks id) + occurrences id (ids rest));
    shared_strong = suc shared + length rest;
  }

  pub freed-Owns :
      (m : Memory) (ws rest : Held) (p id : ℕ)
      → Owns tasks shared m ws
      → Takes ws (p, id) rest
      → Owns tasks shared (freed m p id rest) rest
  freed-Owns m ws rest p id o t = record {
    boxes = remove-Boxed WakerData.task_id m.boxes ws rest p id t o.boxes;
    states = λ j. ground (arith, o.states j, Takes-occurrences j t, ==_iff id j);
    counted = refl;
  }

  -- Both counts of a waker's box are positive, and one more than without it.
  pub counts :
      (m : Memory) (ws rest : Held) (p id : ℕ)
      → Owns tasks shared m ws
      → Takes ws (p, id) rest
      → ((m.state_strong id ≡ suc (suc (tasks id) + occurrences id (ids rest)))
          × (m.shared_strong ≡ suc (suc shared + length rest)))
  counts m ws rest p id o t = (
    ground (arith, o.states id, Takes-occurrences id t, ==_iff id id),
    ground (arith, o.counted, Takes-length t),
  )

  pub has_box :
      (m : Memory) (ws rest : Held) (p id : ℕ)
      → Owns tasks shared m ws
      → Takes ws (p, id) rest
      → lookup p m.boxes ≡ some (record { task_id = id })
  has_box m ws rest p id o t =
      let (d, found, same) = found-Boxed WakerData.task_id m.boxes ws rest p id t o.boxes in
      found ∙ ap (λ i. some (record { task_id = i })) same
