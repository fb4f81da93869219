-- ===== src/MultiThread/Sleep/Missed.antt =====
-- src/multi_thread/timer.rs: the waker of a pending `Sleep`, and the driver that fires its timer.
use mini_async_runtime.Base.{
  ℕ, ◌<◌, zero, suc, ◌≡◌, ◌≢◌, refl, Bool, true, false, ◌&&◌, ◌||◌, Option, none, some, List, [],
  ◌∷◌, ◌++◌, to_list, contains, contains-append, ◌==◌, arith,
}
use mini_async_runtime.MultiThread.Threads.{update}
use mini_async_runtime.MultiThread.Interleaving.{Threads, Run-invariant}
use mini_async_runtime.MultiThread.Sleep.{
  WakerPhase, stored, waking, TimerState, Place, Access, registered, Reach,
}

-- The place is one of `Sleep::poll`.
abbrev is_poller : Place → Bool
is_poller Place.unfired = false
is_poller Place.taking_cell = false
is_poller Place.taking = false
is_poller (Place.emptying o) = false
is_poller (Place.calling o) = false
is_poller Place.finished = false
is_poller _ = true

-- The thread has exclusive use of the cell that the `AtomicWaker` guards.
abbrev pub in_cell : Place → Bool
in_cell (Place.writing w) = true
in_cell (Place.storing w) = true
in_cell Place.taking = true
in_cell (Place.emptying o) = true
in_cell _ = false

abbrev is_waking : WakerPhase → Bool
is_waking waking = true
is_waking _ = false

abbrev is_stored : WakerPhase → Bool
is_stored stored = true
is_stored _ = false

abbrev is_it : ℕ → Option ℕ → Bool
is_it w none = false
is_it w (some v) = w == v

-- With the driver at this place, it has called waker `w` or is going to.
abbrev pub is_safe : TimerState → Place → ℕ → Bool
is_safe t Place.unfired w = is_stored t.phase && is_it w t.waker
is_safe t Place.taking_cell w = is_stored t.phase && is_it w t.waker
is_safe t Place.taking w = is_it w t.waker
is_safe t (Place.emptying o) w = is_it w o
is_safe t (Place.calling o) w = is_it w o
is_safe t Place.finished w = contains w t.called
is_safe t _ w = false

-- What holds of the thread that polls.
abbrev keeps_waker : TimerState → (poller driver : Place) → Bool
keeps_waker t (Place.storing w) driver = is_it w t.waker
keeps_waker t (Place.rechecking w) driver = t.completed || is_safe t driver w
keeps_waker t (Place.pended w) driver = is_safe t driver w
keeps_waker t _ driver = true

abbrev has_fired : Place → Bool
has_fired Place.unfired = false
has_fired _ = true

abbrev returns_late : TimerState → Place → Bool
returns_late t Place.returned_ready = t.completed
returns_late t _ = true

abbrev Inv : TimerState → (poller driver : Place) → Type 0
Inv t poller driver =
    (is_poller poller ≡ true)
    × (is_poller driver ≡ false)
    × ((in_cell poller && in_cell driver) ≡ false)
    × (is_waking t.phase ≡ (in_cell poller || in_cell driver))
    × (t.completed ≡ has_fired driver)
    × (keeps_waker t poller driver ≡ true)
    × (returns_late t poller ≡ true)

poller-Inv :
    (t u : TimerState) (poller driver poller' : Place)
    → Inv t poller driver
    → Access t poller u poller'
    → Inv u poller' driver
poller-Inv t u poller driver poller' v (Access.fires) = ground arith
poller-Inv t u poller driver poller' v (Access.loads_true {w} e) = ground arith
poller-Inv t u poller driver poller' v (Access.claims {w} e) = ground arith
poller-Inv t u poller driver poller' v (Access.replaces {w} e) = ground arith
poller-Inv t u poller driver poller' v (Access.rechecks_true {w} e) = ground arith
poller-Inv t u poller driver poller' v (Access.rechecks_false {w} e) = ground arith
poller-Inv t u poller driver poller' v _ = ground arith

contains-called :
    (w : ℕ) (called : List ℕ) (o : Option ℕ)
    → is_it w o ≡ true
    → contains w (called ++ to_list o) ≡ true
contains-called w called none h = absurd (ground arith)
contains-called w called (some v) h = ground (arith, contains-append w called (v ∷ []))

keeps_waker-called :
    (t : TimerState) (poller : Place) (o : Option ℕ)
    → keeps_waker t poller (Place.calling o) ≡ true
    → keeps_waker (record t { called = t.called ++ to_list o }) poller Place.finished ≡ true
keeps_waker-called t (Place.rechecking w) o h = ground (arith, contains-called w t.called o)
keeps_waker-called t (Place.pended w) o h = ground (arith, contains-called w t.called o)
keeps_waker-called t (Place.storing w) o h = ground arith
keeps_waker-called t _ o h = refl

driver-Inv :
    (t u : TimerState) (poller driver driver' : Place)
    → Inv t poller driver
    → Access t driver u driver'
    → Inv u poller driver'
driver-Inv t u poller driver driver' v (Access.polls {w}) = ground arith
driver-Inv t u poller driver driver' v (Access.takes_cell e) = ground arith
driver-Inv t u poller driver driver' v (Access.sees_empty e) = ground arith
driver-Inv t u poller driver driver' v (Access.calls {o}) =
    ground (arith, keeps_waker-called t poller o)
driver-Inv t u poller driver driver' v _ = ground arith

-- Thread 0 polls and thread 1 is the driver.
access-Inv :
    (s : Threads TimerState Place) (i : ℕ) (u : TimerState) (p : Place)
    → Inv s.memory (s.place 0) (s.place 1)
    → i < 2
    → Access s.memory (s.place i) u p
    → Inv u (update s.place i p 0) (update s.place i p 1)
access-Inv s zero u p v lt a = poller-Inv s.memory u (s.place 0) (s.place 1) p v a
access-Inv s (suc zero) u p v lt a = driver-Inv s.memory u (s.place 0) (s.place 1) p v a
access-Inv s (suc (suc i)) u p v lt a = absurd (omega arith)

Reach-Inv : (s : Threads TimerState Place) → Reach s → Inv s.memory (s.place 0) (s.place 1)
Reach-Inv =
    Run-invariant Access registered (λ s. Inv s.memory (s.place 0) (s.place 1)) 2 (ground arith)
      access-Inv

-- In every order of the accesses of a thread that polls a `Sleep` again and again and of the driver
-- that fires its timer: where the last poll has returned Pending with waker `w`, the driver is
-- either before the take of the waker cell, which then holds `w`, or it holds `w` and has yet to
-- call it, or it has called `w`. So when it is through, `w` has been called.
pub no_missed_wake :
    (s : Threads TimerState Place) (w : ℕ)
    → Reach s
    → s.place 0 ≡ Place.pended w
    → (is_safe s.memory (s.place 1) w ≡ true)
      × (s.place 1 ≡ Place.finished → contains w s.memory.called ≡ true)
no_missed_wake s w reach at = let v = Reach-Inv s reach in ground (arith, v, at)

-- In every order of these accesses, the two threads are never both between the compare-exchange that
-- makes the state WAKING and the store that ends it, so the cell is never accessed by two threads.
pub cell_exclusive :
    (s : Threads TimerState Place) → Reach s → (in_cell (s.place 0) && in_cell (s.place 1)) ≡ false
cell_exclusive s reach = (Reach-Inv s reach).2

-- In every order of these accesses, a poll has returned Ready only if the driver has fired the timer.
ready_after_fire :
    (s : Threads TimerState Place)
    → Reach s
    → s.place 0 ≡ Place.returned_ready
    → (s.memory.completed ≡ true) × (s.place 1 ≢ Place.unfired)
ready_after_fire s reach at = let v = Reach-Inv s reach in ground (arith, v, at)
