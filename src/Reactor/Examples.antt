-- ===== src/Reactor/Examples.antt =====
-- Tests of src/reactor.rs, and the theorems about it at concrete inputs, over a small kernel.
use mini_async_runtime.Base.{
  ℕ, ◌≡◌, ◌≢◌, ◌*◌, ◌+◌, ◌≤◌, ◌<◌, ◌↔◌, refl, true, false, none, some, List, [], ◌∷◌, lookup,
  insert, arith, ◌==◌, if◌then◌else◌, Elem,
}
use mini_async_runtime.Reactor.Interest.{fires}
use mini_async_runtime.Reactor.{Reactor, register, poll, i32_max, timeout_ms, wait, handle_event}
use mini_async_runtime.Reactor.Scripted.{Script, ctl, next_batch, scripted}
use mini_async_runtime.Reactor.Timeout.{timeout_ms_bounds}
use mini_async_runtime.Reactor.Armed.Register.{register-err}
use mini_async_runtime.Reactor.History.{Call, registers, calls}
use mini_async_runtime.Reactor.Wakes.{poll-wakes}

-- Descriptor 7 becomes writable at the first wait, and readable at the second.
abbrev booted : Script
booted = record {
  list = λ _. none;
  batches = (record { fd = 7; events = 0x4 } ∷ []) ∷ (record { fd = 7; events = 0x1 } ∷ []) ∷ [];
}

abbrev started : Reactor scripted ℕ
started = record {
  registrations = [];
  wake_fd = 3;
  kernel = record booted { list = λ q. if 3 == q then some 1 else none };
}

-- Task 20 reads from descriptor 7 and task 21 writes to it.
abbrev both_sides : List (Call ℕ)
both_sides = registers 7 20 true ∷ registers 7 21 false ∷ []

waiting : Reactor scripted ℕ
waiting = calls scripted started both_sides

-- The first event wakes the writer, and leaves the reader armed; the second wakes the reader.
rearmed :
    ((poll scripted waiting none).woken ≡ 21 ∷ [])
    × ((poll scripted waiting none).state.kernel.list 7 ≡ some 0xc000_0001)
    × ((poll scripted (poll scripted waiting none).state none).woken ≡ 20 ∷ [])
unfolding waiting calls register poll ctl next_batch lookup insert handle_event
rearmed = (refl, refl, refl)

timeout_ms_bounds_example :
    (ms : ℕ) × (timeout_ms (some 500_000) ≡ some ms)
    × (ms ≤ i32_max)
    × ((ms ≡ 0) ↔ ◌≡◌ {A = ℕ} 500_000 0)
    × (ms * 1_000_000 < 500_000 + 1_000_000)
    × (ms ≢ i32_max → 500_000 ≤ ms * 1_000_000)
timeout_ms_bounds_example = timeout_ms_bounds 500_000

poll-wakes_example : Elem 21 (poll scripted waiting none).woken
unfolding waiting calls register wait ctl next_batch lookup insert fires
poll-wakes_example = poll-wakes waiting none _ 7 false 21 refl (omega arith) refl

-- The kernel refuses to modify a descriptor that has gone.
abbrev orphaned : Reactor scripted ℕ
orphaned = record started {
  registrations = (7, record { read_waker = some 20; write_waker = none }) ∷ [];
}

register-err_example :
    lookup 7 (register scripted orphaned 7 21 false).0.registrations
    ≡ lookup 7 orphaned.registrations
unfolding register ctl lookup
register-err_example = register-err scripted orphaned 7 21 false 2 refl 7
