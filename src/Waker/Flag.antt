-- ===== src/Waker/Flag.antt =====
-- src/runtime.rs: `flag_waker`, its vtable, and the `Rc` of the flag, of which each waker is a raw
-- pointer.
pub mod Refines
use mini_async_runtime.Base.{
  ℕ, zero, suc, Bool, true, Option, none, some, ◌>>=◌, if◌then◌else◌, ◌==◌,
}
use mini_async_runtime.Waker.{Vtable}

-- The address of the flag, and its strong count: it is freed once the count is 0.
pub record Memory : Type 0 where
  pub address : ℕ
  pub strong : ℕ
  pub flag : Bool

-- `&*(ptr as *const Cell<bool>)`, and `Rc::from_raw`, which leaves the count as it is.
pub from_raw : Memory → ℕ → Option Memory
from_raw m ptr = if ptr == m.address then elim m.strong [ zero ↦ none | suc _ ↦ some m ] else none

-- `flag.clone()`, `flag.set(true)`, and the drop of an `Rc`
pub rc_clone : Memory → Option Memory
rc_clone m = elim m.strong [ zero ↦ none | suc n ↦ some (record m { strong = suc (suc n) }) ]

pub set : Memory → Memory
set m = record m { flag = true }

pub rc_drop : Memory → Option Memory
rc_drop m = elim m.strong [ zero ↦ none | suc n ↦ some (record m { strong = n }) ]

-- `flag_waker(Rc::clone(&flag))`, of which the id of the task is no part
pub flag_waker : Memory → ℕ → Option (Memory × ℕ)
unfolding rc_clone
flag_waker m id = do m' ← rc_clone m; some (m', m'.address)

-- `forget` leaves the count as it is.
pub clone : Memory → ℕ → Option (Memory × ℕ)
unfolding from_raw rc_clone
clone m ptr = do flag ← from_raw m ptr; cloned ← rc_clone flag; some (cloned, cloned.address)

pub wake : Memory → ℕ → Option Memory
unfolding from_raw set rc_drop
wake m ptr = do flag ← from_raw m ptr; rc_drop (set flag)

pub wake_by_ref : Memory → ℕ → Option Memory
unfolding from_raw set
wake_by_ref m ptr = do flag ← from_raw m ptr; some (set flag)

pub drop : Memory → ℕ → Option Memory
unfolding from_raw rc_drop
drop m ptr = do flag ← from_raw m ptr; rc_drop flag

abbrev pub vtable : Vtable Memory
vtable = record {
  make = flag_waker;
  clone = clone;
  wake = wake;
  wake_by_ref = wake_by_ref;
  drop = drop;
}
