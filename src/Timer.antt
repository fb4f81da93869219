-- ===== src/Timer.antt =====
-- src/timer.rs: the timer wheel and the `Sleep` future. Instants and durations are numbers of
-- nanoseconds; `W` stands for `std::task::Waker`.
pub mod Sorted
pub mod Process
pub mod Shuffled
pub mod Refs
pub mod History
use Prim.Native.Nat.{compare, Ordering}
use mini_async_runtime.Base.{
  ℕ, suc, ◌-◌, Bool, true, false, not, Option, none, some, List, [], ◌∷◌, ◌++◌, to_list, is_nil,
  leb, ◌==◌, if◌then◌else◌, Outcome, Poll, ready, pending,
}

-- `state` is a reference to a cell of the wheel below.
pub record TimerEntry : Type 0 where
  pub deadline : ℕ
  pub state : ℕ

-- Reversed, so that the greatest entry is the one with the earliest deadline.
unfoldable pub cmp : TimerEntry → TimerEntry → Ordering
cmp self other = compare other.deadline self.deadline

-- `BinaryHeap::push`. A heap is the list of its entries, the greatest first, so `peek` gives the
-- head and `pop` takes it off. The order of equal entries, which `BinaryHeap` leaves open, is that
-- of their arrival.
unfoldable pub heap_push : TimerEntry → List TimerEntry → List TimerEntry
unfolding cmp
heap_push e [] = e ∷ []
heap_push e (x ∷ h) =
    let rest = heap_push e h in elim (cmp e x) [ Ordering.gt ↦ e ∷ x ∷ h | _ ↦ x ∷ rest ]

pub record TimerState (W : Type 0) : Type 0 where
  pub completed : Bool
  pub waker : Option W

-- The heap, and the `Rc<RefCell<TimerState>>` cells that `register` has allocated: those below
-- `next`.
pub record TimerWheel (W : Type 0) : Type 0 where
  pub heap : List TimerEntry
  pub cells : ℕ → TimerState W
  pub next : ℕ

module _ {W : Type 0} where
  abbrev pub update : (ℕ → TimerState W) → ℕ → TimerState W → ℕ → TimerState W
  update cells r s q = if r == q then s else cells q

  unfoldable pub new : TimerWheel W
  new = record { heap = []; cells = λ r. record { completed = false; waker = none }; next = 0 }

  -- `heap` is the heap after the push. The `Sleep` that is returned is the reference to its cell.
  abbrev pub register_in : TimerWheel W → (heap : List TimerEntry) → TimerWheel W × ℕ
  register_in wheel heap =
      let r = wheel.next in
      (
        record {
          heap = heap;
          cells = update wheel.cells r (record { completed = false; waker = none });
          next = suc r;
        },
        r,
      )

  unfoldable pub register : TimerWheel W → ℕ → TimerWheel W × ℕ
  register wheel deadline =
      register_in wheel (heap_push (record { deadline = deadline; state = wheel.next }) wheel.heap)

  -- The body of the loop in `process` for an entry that has expired.
  unfoldable pub fire : (ℕ → TimerState W) → ℕ → ℕ → TimerState W
  fire cells r = update cells r (record { completed = true; waker = none })

  -- The loop of `process`: the heap, the cells, the time until the next deadline, and the wakers
  -- called.
  unfoldable pub process_heap :
      ℕ
      → List TimerEntry
      → (ℕ → TimerState W)
      → List W
      → Outcome (List TimerEntry × (ℕ → TimerState W)) (Option ℕ) W
  unfolding fire
  process_heap now [] cells woken = record { state = ([], cells); result = none; woken = woken }
  process_heap now (e ∷ h) cells woken =
      let rest = process_heap now h (fire cells e.state) (woken ++ to_list (cells e.state).waker) in
      if leb e.deadline now
      then rest
      else record { state = (e ∷ h, cells); result = some (e.deadline - now); woken = woken }

  -- `now` is what `Instant::now` gives.
  unfoldable pub process : TimerWheel W → ℕ → Outcome (TimerWheel W) (Option ℕ) W
  unfolding process_heap
  process wheel now =
      let o = process_heap now wheel.heap wheel.cells [] in
      record {
        state = record wheel { heap = o.state.0; cells = o.state.1 };
        result = o.result;
        woken = o.woken;
      }

  unfoldable pub has_pending : TimerWheel W → Bool
  has_pending wheel = not (is_nil wheel.heap)

  -- `Sleep::poll` of the timer with the cell `r`, in a context whose waker is `waker`.
  unfoldable pub poll_sleep : TimerWheel W → ℕ → W → TimerWheel W × Poll (Unit {0})
  poll_sleep wheel r waker =
      let state = wheel.cells r in
      if state.completed then (wheel, ready tt) else (
        record wheel { cells = update wheel.cells r (record state { waker = some waker }) },
        pending,
      )
