-- ===== src/MultiThread/Sleep/Examples.antt =====
-- Two orders of the accesses of one poll and of the driver: the timer fires after the poll, and in the
-- middle of it.
use mini_async_runtime.Base.{ℕ, ◌<◌, ◌≡◌, refl, true, false, ◌&&◌, contains, arith}
use mini_async_runtime.MultiThread.Interleaving.{Threads, begin, acts}
use mini_async_runtime.MultiThread.Sleep.{TimerState, Place, Access, registered, Reach}
use mini_async_runtime.MultiThread.Sleep.Missed.{in_cell, no_missed_wake, cell_exclusive, is_safe}

abbrev Trace : Type 0
Trace = (s : Threads TimerState Place) × Reach s

abbrev and_then :
    (r : Trace) (i : ℕ) {t : TimerState} {p : Place}
    → i < 2
    → Access r.0.memory (r.0.place i) t p
    → Trace
and_then r i lt access = (_, acts i r.1 access lt)

abbrev poller :
    (r : Trace) {t : TimerState} {p : Place} → Access r.0.memory (r.0.place 0) t p → Trace
poller r access = and_then r 0 (omega arith) access

abbrev driver :
    (r : Trace) {t : TimerState} {p : Place} → Access r.0.memory (r.0.place 1) t p → Trace
driver r access = and_then r 1 (omega arith) access

abbrev claimed : Trace
claimed =
    let polled = poller (registered, begin) (Access.polls {w = 7}) in
    poller (poller polled (Access.loads_false refl)) (Access.claims refl)

abbrev written : Trace
written = poller claimed Access.writes

abbrev woken : Trace
woken =
    let waits = poller (poller written Access.stores) (Access.rechecks_false refl) in
    let taken = driver (driver (driver waits Access.fires) (Access.takes_cell refl)) Access.takes in
    driver (driver taken Access.empties) Access.calls

abbrev late : Trace
late =
    let fired = driver (driver written Access.fires) Access.wake_spins in
    poller (poller fired Access.stores) (Access.rechecks_true refl)

no_missed_wake_example :
    (is_safe woken.0.memory (woken.0.place 1) 7 ≡ true)
    × (woken.0.place 1 ≡ Place.finished → contains 7 woken.0.memory.called ≡ true)
no_missed_wake_example = no_missed_wake woken.0 7 woken.1 refl

cell_exclusive_example : (in_cell (written.0.place 0) && in_cell (written.0.place 1)) ≡ false
cell_exclusive_example = cell_exclusive written.0 written.1
