-- ===== src/Reactor/Timeout.antt =====
-- src/reactor.rs: the timeout that `Reactor::poll` hands to `epoll_wait`.
use Prim.Native.Nat.{min}
use mini_async_runtime.Base.{
  ℕ, ◌+◌, ◌*◌, ◌/◌, ◌≤◌, ◌<◌, ◌≡◌, ◌≢◌, ◌↔◌, some, arith, Bool-cases, inl, inr, ◌==◌,
}
use mini_async_runtime.Reactor.{timeout_ms, i32_max}

-- Every duration has a timeout in the range of an `i32`, which is 0 exactly for the duration 0, so
-- a short one does not spin. The wait is less than a millisecond longer than the duration, and not
-- shorter unless the timeout is the greatest `i32`.
pub timeout_ms_bounds :
    (ns : ℕ)
    → (ms : ℕ) × (timeout_ms (some ns) ≡ some ms)
      × (ms ≤ i32_max)
      × ((ms ≡ 0) ↔ (ns ≡ 0))
      × (ms * 1_000_000 < ns + 1_000_000)
      × (ms ≢ i32_max → ns ≤ ms * 1_000_000)
unfolding timeout_ms
timeout_ms_bounds ns = elim (Bool-cases (ns == 0)) [
  | inl nothing ↦ (0, rw nothing, omega arith, ground arith, ground arith, ground arith)
  | inr some_time ↦ (
    min ((ns + 999_999) / 1_000_000) i32_max,
    rw some_time,
    omega arith,
    ground arith,
    ground arith,
    ground arith,
  )
]
