-- ===== src/MultiThread/Sleep.antt =====
-- src/multi_thread/timer.rs: one `TimerState` with its `AtomicWaker`, between the thread that polls
-- the `Sleep` and the I/O driver that fires the timer. `Sleep::poll` takes `&mut self`, so one thread
-- polls at a time, and `TimerWheel::process` takes an entry off the heap once. All accesses are
-- sequentially consistent.
pub mod Missed
mod Examples
use mini_async_runtime.Base.{
  ℕ, ◌≡◌, ◌++◌, Bool, true, false, List, [], ◌∷◌, Option, none, some, to_list, if◌then◌else◌, ◌==◌,
}
use mini_async_runtime.MultiThread.Interleaving.{Threads, Run}

-- WAKER_EMPTY, WAKER_STORED and WAKER_WAKING.
pub data WakerPhase : Type 0 where
  empty stored waking : WakerPhase

-- `TimerState`, with the wakers that the driver has called, the last one last.
pub record TimerState : Type 0 where
  pub completed : Bool
  pub phase : WakerPhase
  pub waker : Option ℕ
  pub called : List ℕ

pub data Place : Type 0 where
  -- `Sleep::poll` with waker `w`: before it is called, before the first load, in
  -- `AtomicWaker::register` before each compare-exchange, the write of the cell and the store, before
  -- the second load, and after the return of Pending or Ready
  unpolled : Place
  loading registering replacing writing storing rechecking pended : (w : ℕ) → Place
  returned_ready : Place
  -- `TimerWheel::process`: before the store of `completed`, in `AtomicWaker::wake` before the
  -- compare-exchange, the take, the store and the call, and after it
  unfired taking_cell taking finished : Place
  emptying calling : (o : Option ℕ) → Place

pub data Access (t : TimerState) : Place → TimerState → Place → Type 0 where
  polls : {w : ℕ} → Access t unpolled t (loading w)
  polls_again : {v w : ℕ} → Access t (pended v) t (loading w)
  loads_true : {w : ℕ} → t.completed ≡ true → Access t (loading w) t returned_ready
  loads_false : {w : ℕ} → t.completed ≡ false → Access t (loading w) t (registering w)
  claims :
      {w : ℕ} → t.phase ≡ empty → Access t (registering w) (record t { phase = waking }) (writing w)
  sees_stored : {w : ℕ} → t.phase ≡ stored → Access t (registering w) t (replacing w)
  -- WAKING, or a weak compare-exchange that fails for no reason
  register_spins : {w : ℕ} → Access t (registering w) t (registering w)
  replaces :
      {w : ℕ} → t.phase ≡ stored → Access t (replacing w) (record t { phase = waking }) (writing w)
  replace_fails : {w : ℕ} → Access t (replacing w) t (registering w)
  writes : {w : ℕ} → Access t (writing w) (record t { waker = some w }) (storing w)
  stores : {w : ℕ} → Access t (storing w) (record t { phase = stored }) (rechecking w)
  rechecks_true : {w : ℕ} → t.completed ≡ true → Access t (rechecking w) t returned_ready
  rechecks_false : {w : ℕ} → t.completed ≡ false → Access t (rechecking w) t (pended w)
  fires : Access t unfired (record t { completed = true }) taking_cell
  takes_cell : t.phase ≡ stored → Access t taking_cell (record t { phase = waking }) taking
  sees_empty : t.phase ≡ empty → Access t taking_cell t finished
  wake_spins : Access t taking_cell t taking_cell
  takes : Access t taking (record t { waker = none }) (emptying t.waker)
  empties : {o : Option ℕ} → Access t (emptying o) (record t { phase = empty }) (calling o)
  calls :
      {o : Option ℕ} → Access t (calling o) (record t { called = t.called ++ to_list o }) finished

-- `TimerWheel::register`: thread 0 has the `Sleep`, thread 1 is the driver.
abbrev pub registered : Threads TimerState Place
registered = record {
  memory = record { completed = false; phase = empty; waker = none; called = [] };
  place = λ i. if i == 0 then unpolled else unfired;
}

abbrev pub Reach : Threads TimerState Place → Type 0
Reach = Run Access registered 2
