-- ===== src/MultiThread/BlockOn/Examples.antt =====
-- A root task that completes while the caller waits, and one that panics.
use mini_async_runtime.Base.{ℕ, ◌≡◌, refl, true, false, is_some, arith}
use mini_async_runtime.MultiThread.Interleaving.{Threads, begin, acts}
use mini_async_runtime.MultiThread.BlockOn.{Signal, Place, Access, started, Reach}
use mini_async_runtime.MultiThread.BlockOn.Parking.{has_returned, finished-notified, dropped-hangs}

abbrev Trace : Type 0
Trace = (s : Threads (Signal ℕ) (Place ℕ)) × Reach s

abbrev caller :
    (r : Trace) {t : Signal ℕ} {p : Place ℕ} → Access r.0.memory (r.0.place 0) t p → Trace
caller r access = (_, acts 0 r.1 access (omega arith))

abbrev root : (r : Trace) {t : Signal ℕ} {p : Place ℕ} → Access r.0.memory (r.0.place 1) t p → Trace
root r access = (_, acts 1 r.1 access (omega arith))

abbrev parked : Trace
parked = caller (started, begin) (Access.blocks refl)

abbrev completed : Trace
completed =
    let computed = root (root parked Access.polls) (Access.completes {v = 4}) in
    root (root computed Access.stores) Access.notifies

abbrev panicked : Trace
panicked = root parked Access.panics

-- The caller of the first gets the result.
abbrev delivered : Trace
delivered = caller (caller completed (Access.resumes refl)) (Access.takes {v = 4} refl)

delivered_4 : delivered.0.place 0 ≡ Place.returned 4
delivered_4 = refl

finished-notified_example :
    (completed.0.memory.notified ≡ true) × (is_some completed.0.memory.result ≡ true)
finished-notified_example = finished-notified completed.0 completed.1 refl refl

dropped-hangs_example :
    (has_returned (panicked.0.place 0) ≡ false) × (is_some panicked.0.memory.result ≡ false)
dropped-hangs_example = dropped-hangs panicked.0 panicked.1 refl
