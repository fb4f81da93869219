-- ===== src/Waker/Local/Refines.antt =====
-- src/executor.rs, `make_waker` and the vtable: task wakers beside ids of tasks.
use mini_async_runtime.Base.{
  Takes, Takes-length, ℕ, suc, ◌+◌, ◌≡◌, refl, none, some, List, [], ◌∷◌, HashMap, lookup, insert,
  remove, length, arith,
}
use mini_async_runtime.ReadyQueue.{ReadyQueue, push}
use mini_async_runtime.Waker.{Held, Call}
use mini_async_runtime.Waker.Holding.{ids}
use mini_async_runtime.Waker.Client.{Sound, calls, simple_calls, calls-Agrees}
use mini_async_runtime.Waker.Boxes.{Boxed, task_of, insert-Boxed, remove-Boxed, found-Boxed}
use mini_async_runtime.Waker.Local.{
  WakerData, Memory, rc_clone, rc_drop, push_id, deref, free_box, new_box, make_waker, waker_clone,
  waker_wake, waker_wake_by_ref, waker_drop, vtable,
}

-- The wakers have their boxes, and the `Rc` counts them and `owners` others.
pub record Owns (owners : ℕ) (m : Memory) (ws : Held) : Type 0 where
  pub boxes : Boxed WakerData.task_id m.boxes ws
  pub counted : m.strong ≡ owners + length ws

module _ (malloc : HashMap WakerData → ℕ)
    (malloc-fresh : (boxes : HashMap WakerData) → lookup (malloc boxes) boxes ≡ none) where
  -- The memory after `Rc::clone` and a new box.
  abbrev boxed : Memory → ℕ → Memory
  boxed m id = record m {
    boxes = insert (malloc m.boxes) (record { task_id = id }) m.boxes;
    strong = suc m.strong;
  }

  boxed-Owns :
      (n : ℕ) (m : Memory) (ws : Held) (id : ℕ)
      → Owns n m ws
      → Owns n (boxed m id) ((malloc m.boxes, id) ∷ ws)
  boxed-Owns n m ws id o = record {
    boxes =
        insert-Boxed WakerData.task_id m.boxes ws (malloc m.boxes) (record { task_id = id })
          (malloc-fresh m.boxes) o.boxes;
    counted = ground (arith, o.counted);
  }

  vtable-Sound : (k : ℕ) → Sound (vtable malloc) Memory.ready_queue push (Owns (suc k))
  unfolding make_waker waker_clone waker_wake waker_wake_by_ref waker_drop new_box rc_clone rc_drop
      deref push_id free_box
  vtable-Sound k =
      let has_box =
        λ (m : Memory) (ws rest : Held) (p id : ℕ) (o : Owns (suc k) m ws)
            (t : Takes ws (p, id) rest).
          found-Boxed WakerData.task_id m.boxes ws rest p id t o.boxes in
      let live = λ (m : Memory) (ws : Held) (o : Owns (suc k) m ws).
        let e : m.strong ≡ suc (k + length ws) = ground (arith, o.counted) in e in
      let freed =
        λ (m : Memory) (ws rest : Held) (p id : ℕ) (o : Owns (suc k) m ws)
            (t : Takes ws (p, id) rest).
          remove-Boxed WakerData.task_id m.boxes ws rest p id t o.boxes in
      record {
        make-Owns = λ m ws id o.
            (boxed m id, malloc m.boxes, rw (live m ws o), boxed-Owns (suc k) m ws id o, refl);
        clone-Owns = λ m ws rest p id o t.
            let (d, found, same) = has_box m ws rest p id o t in
            (
              boxed m id,
              malloc m.boxes,
              rw (found, live m ws o, same),
              boxed-Owns (suc k) m ws id o,
              refl,
            );
        wake-Owns = λ m ws rest p id o t.
            let (d, found, same) = has_box m ws rest p id o t in
            (
              record {
                boxes = remove p m.boxes;
                strong = k + length ws;
                ready_queue = push m.ready_queue d.task_id;
              },
              rw (found, live m ws o),
              record { boxes = freed m ws rest p id o t; counted = ground (arith, Takes-length t) },
              rw same,
            );
        wake_by_ref-Owns = λ m ws rest p id o t.
            let (d, found, same) = has_box m ws rest p id o t in
            (
              record m { ready_queue = push m.ready_queue d.task_id },
              rw (found, live m ws o),
              record { boxes = o.boxes; counted = o.counted },
              rw same,
            );
        drop-Owns = λ m ws rest p id o t.
            let (d, found, same) = has_box m ws rest p id o t in
            (
              record m { boxes = remove p m.boxes; strong = k + length ws },
              rw (found, live m ws o),
              record { boxes = freed m ws rest p id o t; counted = ground (arith, Takes-length t) },
              refl,
            );
      }

  -- Whatever a program does with its wakers, while something else holds the queue's `Rc` too: no call
  -- uses memory that is freed. The queue is as if a waker were just the id of its task, which a call
  -- pushes. The boxes that are left are those of the wakers that are left, with their tasks, and the
  -- `Rc` counts those wakers and its other owners: nothing leaks, and nothing is freed twice.
  pub task_wakers_safe :
      (k : ℕ) (q : ReadyQueue) (cs : List Call)
      → (m : Memory) × (ws : Held) × (calls
            (vtable malloc)
            (record { boxes = []; strong = suc k; ready_queue = q })
            []
            cs
          ≡ some (m, ws))
        × ((m.ready_queue, ids ws) ≡ simple_calls push q [] cs)
        × ((p : ℕ) → task_of WakerData.task_id (lookup p m.boxes) ≡ lookup p ws)
        × (m.strong ≡ suc k + length ws)
  unfolding lookup
  task_wakers_safe k q cs =
      let start : Memory = record { boxes = []; strong = suc k; ready_queue = q } in
      let (m, ws, runs, owns, agrees) =
        calls-Agrees (vtable malloc) Memory.ready_queue push (Owns (suc k)) (vtable-Sound k) cs
          start []
          (record { boxes = record { distinct = tt; boxed = λ p. refl }; counted = omega arith }) in
      (m, ws, runs, agrees, owns.boxes.boxed, owns.counted)
