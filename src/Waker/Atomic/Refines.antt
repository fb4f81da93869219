-- ===== src/Waker/Atomic/Refines.antt =====
-- src/multi_thread/executor.rs, `make_waker` and the vtable: wakers beside ids of tasks.
use mini_async_runtime.Base.{
  ℕ, suc, ◌+◌, ◌≡◌, refl, none, some, List, [], ◌∷◌, ◌>>=◌, HashMap, lookup, insert, remove, length,
  ==_iff, arith,
}
use mini_async_runtime.MultiThread.ReadyQueue.{ReadyQueue}
use mini_async_runtime.MultiThread.Threads.{update}
use mini_async_runtime.MultiThread.Schedule.{TaskPhase}
use mini_async_runtime.Waker.{Held, Call}
use mini_async_runtime.Waker.Holding.{ids}
use mini_async_runtime.Waker.Client.{Sound, calls, simple_calls, calls-Agrees}
use mini_async_runtime.Waker.Boxes.{task_of, insert-Boxed}
use mini_async_runtime.Waker.Atomic.{
  WakerData, Memory, wake_by_ref_impl, deref, free_box, new_box, make_waker, waker_clone,
  waker_wake, waker_wake_by_ref, waker_drop, vtable,
}
use mini_async_runtime.Waker.Atomic.Owned.{
  occurrences, effect, Owns, freed, freed-Owns, counts, has_box, arcs_clone-live, arcs_drop-live,
  wake_box-live,
}

module _ (malloc : HashMap WakerData → ℕ)
    (malloc-fresh : (boxes : HashMap WakerData) → lookup (malloc boxes) boxes ≡ none)
    (tasks : ℕ → ℕ) (shared : ℕ) where
  -- The memory after the clones and a new box.
  abbrev boxed : Memory → ℕ → Memory
  boxed m id = record m {
    boxes = insert (malloc m.boxes) (record { task_id = id }) m.boxes;
    state_strong = update m.state_strong id (suc (m.state_strong id));
    shared_strong = suc m.shared_strong;
  }

  boxed-Owns :
      (m : Memory) (ws : Held) (id : ℕ)
      → Owns tasks shared m ws
      → Owns tasks shared (boxed m id) ((malloc m.boxes, id) ∷ ws)
  boxed-Owns m ws id o = record {
    boxes =
        insert-Boxed WakerData.task_id m.boxes ws (malloc m.boxes) (record { task_id = id })
          (malloc-fresh m.boxes) o.boxes;
    states = λ j. ground (arith, o.states j, o.states id, ==_iff id j);
    counted = ground (arith, o.counted);
  }

  vtable-Sound : Sound (vtable malloc) effect wake_by_ref_impl (Owns tasks shared)
  unfolding make_waker waker_clone waker_wake waker_wake_by_ref waker_drop new_box deref free_box
  vtable-Sound = record {
    make-Owns = λ m ws id o. (
      boxed m id,
      malloc m.boxes,
      rw (
          arcs_clone-live m id (tasks id + occurrences id (ids ws)) (shared + length ws)
            (ground (arith, o.states id)) (ground (arith, o.counted))),
      boxed-Owns m ws id o,
      refl,
    );
    clone-Owns = λ m ws rest p id o t.
        let (states, counted) = counts tasks shared m ws rest p id o t in
        (
          boxed m id,
          malloc m.boxes,
          rw (
            has_box tasks shared m ws rest p id o t,
            ◌>>=◌,
            arcs_clone-live m id _ _ states counted,
          ),
          boxed-Owns m ws id o,
          refl,
        );
    wake-Owns = λ m ws rest p id o t.
        let (states, counted) = counts tasks shared m ws rest p id o t in
        let e = wake_by_ref_impl (effect m) id in
        let woken = record m { phase = e.0; ready_queue = e.1 } in
        let owns : Owns tasks shared woken ws = record {
          boxes = o.boxes;
          states = o.states;
          counted = o.counted;
        } in
        (
          freed tasks shared woken p id rest,
          rw (
            has_box tasks shared m ws rest p id o t,
            ◌>>=◌,
            wake_box-live m id _ _ states counted,
            ◌>>=◌,
            arcs_drop-live (record woken { boxes = remove p m.boxes }) id _ _ states counted,
          ),
          freed-Owns tasks shared woken ws rest p id owns t,
          refl,
        );
    wake_by_ref-Owns = λ m ws rest p id o t.
        let (states, counted) = counts tasks shared m ws rest p id o t in
        let e = wake_by_ref_impl (effect m) id in
        (
          record m { phase = e.0; ready_queue = e.1 },
          rw (
            has_box tasks shared m ws rest p id o t,
            ◌>>=◌,
            wake_box-live m id _ _ states counted,
          ),
          record { boxes = o.boxes; states = o.states; counted = o.counted },
          refl,
        );
    drop-Owns = λ m ws rest p id o t.
        let (states, counted) = counts tasks shared m ws rest p id o t in
        (
          freed tasks shared m p id rest,
          rw (
            has_box tasks shared m ws rest p id o t,
            ◌>>=◌,
            arcs_drop-live (record m { boxes = remove p m.boxes }) id _ _ states counted,
          ),
          freed-Owns tasks shared m ws rest p id o t,
          refl,
        );
  }

  -- Whatever a program does with its wakers, while something else holds the `Arc`s too: no call uses
  -- memory that is freed. The states and the queue are as if a waker were just the id of its task, of
  -- which a call does what `wake_by_ref_impl` does. The boxes that are left are those of the wakers
  -- that are left, with their tasks, and each `Arc` counts those wakers that have it and its other
  -- owners: nothing leaks, and nothing is freed twice.
  pub atomic_wakers_safe :
      (phase : ℕ → TaskPhase) (q : ReadyQueue) (cs : List Call)
      → (m : Memory) × (ws : Held) × (calls
            (vtable malloc)
            (record {
              boxes = [];
              state_strong = λ id. suc (tasks id);
              shared_strong = suc shared;
              phase = phase;
              ready_queue = q;
            })
            []
            cs
          ≡ some (m, ws))
        × ((effect m, ids ws) ≡ simple_calls wake_by_ref_impl (phase, q) [] cs)
        × ((p : ℕ) → task_of WakerData.task_id (lookup p m.boxes) ≡ lookup p ws)
        × ((id : ℕ) → m.state_strong id ≡ suc (tasks id) + occurrences id (ids ws))
        × (m.shared_strong ≡ suc shared + length ws)
  unfolding lookup
  atomic_wakers_safe phase q cs =
      let start : Memory = record {
        boxes = [];
        state_strong = λ id. suc (tasks id);
        shared_strong = suc shared;
        phase = phase;
        ready_queue = q;
      } in
      let (m, ws, runs, owns, agrees) =
        calls-Agrees (vtable malloc) effect wake_by_ref_impl (Owns tasks shared) vtable-Sound cs
          start []
          (record {
            boxes = record { distinct = tt; boxed = λ p. refl };
            states = λ id. omega arith;
            counted = omega arith;
          }) in
      (m, ws, runs, agrees, owns.boxes.boxed, owns.states, owns.counted)
