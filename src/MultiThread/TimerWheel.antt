-- ===== src/MultiThread/TimerWheel.antt =====
-- src/multi_thread/timer.rs: the timer wheel with its inbox and its heap, where each call is one step.
-- Sleep has the interleaved accesses to the state of one timer. `W` stands for `std::task::Waker`.
pub mod Heaps
pub mod Refines
mod Examples
use mini_async_runtime.Base.{
  ℕ, suc, Bool, true, false, not, ◌||◌, Option, some, none, List, [], ◌∷◌, ◌++◌, is_nil,
  if◌then◌else◌, Outcome, Poll, ready, pending,
}
use mini_async_runtime.Timer.{TimerEntry, TimerState, heap_push, process_heap, update}

-- The fields of `TimerWheel`, and the cells of the `Arc<TimerState>` that `register` has allocated:
-- those below `next`. The waker of a state is the content of its `AtomicWaker`.
pub record TimerWheel (W : Type 0) : Type 0 where
  pub inbox : List TimerEntry
  pub heap : List TimerEntry
  pub cells : ℕ → TimerState W
  pub next : ℕ

-- `BinaryHeap::extend`, for which the order of equal entries is that of their arrival. `BinaryHeap`
-- leaves it open: Heaps has all the orders that it may choose.
unfoldable pub extend : List TimerEntry → List TimerEntry → List TimerEntry
extend heap [] = heap
extend heap (e ∷ entries) = extend (heap_push e heap) entries

module _ {W : Type 0} where
  unfoldable pub new : TimerWheel W
  new = record {
    inbox = [];
    heap = [];
    cells = λ r. record { completed = false; waker = none };
    next = 0;
  }

  -- The `Sleep` that is returned is the reference to its cell.
  unfoldable pub register : TimerWheel W → ℕ → TimerWheel W × ℕ
  register wheel deadline =
      let r = wheel.next in
      (
        record wheel {
          inbox = wheel.inbox ++ record { deadline = deadline; state = r } ∷ [];
          cells = update wheel.cells r (record { completed = false; waker = none });
          next = suc r;
        },
        r,
      )

  -- The loop that fires the entries is the one of src/timer.rs, with the completion of a state in the
  -- place of its two assignments. `heap` is the heap once the inbox has been drained into it, and `now`
  -- is what `Instant::now` gives.
  abbrev pub process_in :
      TimerWheel W → (heap : List TimerEntry) → ℕ → Outcome (TimerWheel W) (Option ℕ) W
  process_in wheel heap now =
      let o = process_heap now heap wheel.cells [] in
      record {
        state = record wheel { inbox = []; heap = o.state.0; cells = o.state.1 };
        result = o.result;
        woken = o.woken;
      }

  unfoldable pub process : TimerWheel W → ℕ → Outcome (TimerWheel W) (Option ℕ) W
  unfolding extend
  process wheel now = process_in wheel (extend wheel.heap wheel.inbox) now

  unfoldable pub has_pending : TimerWheel W → Bool
  has_pending wheel = not (is_nil wheel.heap) || not (is_nil wheel.inbox)

  -- `Sleep::poll` of the timer with the cell `r`, in a context whose waker is `waker`.
  unfoldable pub poll_sleep : TimerWheel W → ℕ → W → TimerWheel W × Poll (Unit {0})
  poll_sleep wheel r waker =
      if (wheel.cells r).completed
      then (wheel, ready tt)
      else let registered = update wheel.cells r (record (wheel.cells r) { waker = some waker }) in
        (
          record wheel { cells = registered },
          if (registered r).completed then ready tt else pending,
        )
