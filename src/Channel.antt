-- ===== src/Channel.antt =====
-- src/channel.rs: the unbounded channel. A call returns the shared state that it leaves, its result
-- and the wakers that it wakes; `W` stands for `std::task::Waker`.
pub mod History
use mini_async_runtime.Base.{
  ℕ, ◌+◌, ◌-◌, ◌%◌, Bool, true, false, Option, none, some, List, [], ◌∷◌, ◌++◌, to_list, ◌==◌,
  if◌then◌else◌, pop_front, Outcome, Result, ok, err, Poll, ready, pending, usize_mod,
}

-- The state behind the `Rc<RefCell>` that all handles share.
pub record Inner {ℓ} (T W : Type ℓ) : Type ℓ where
  pub queue : List T
  pub rx_waker : Option W
  pub sender_count : ℕ  -- usize
  pub rx_closed : Bool

module _ {ℓ} {T W : Type ℓ} where
  -- The state that `unbounded` puts behind its two handles.
  unfoldable pub unbounded : Inner T W
  unbounded = record { queue = []; rx_waker = none; sender_count = 1; rx_closed = false }

  -- `if let Some(waker) = inner.rx_waker.take() { waker.wake(); }`
  unfoldable pub wake_receiver : {A : Type ℓ} → Inner T W → A → Outcome (Inner T W) A W
  wake_receiver inner a = record {
    state = record inner { rx_waker = none };
    result = a;
    woken = to_list inner.rx_waker;
  }

  unfoldable pub send : Inner T W → T → Outcome (Inner T W) (Result (Unit {ℓ}) T) W
  unfolding wake_receiver
  send inner value =
      if inner.rx_closed
      then record { state = inner; result = err value; woken = [] }
      else wake_receiver (record inner { queue = inner.queue ++ value ∷ [] }) (ok tt)

  pub clone_sender : Inner T W → Inner T W
  clone_sender inner = record inner { sender_count = (inner.sender_count + 1) % usize_mod }

  unfoldable pub drop_sender : Inner T W → Outcome (Inner T W) (Unit {ℓ}) W
  unfolding wake_receiver
  drop_sender inner =
      let left = record inner { sender_count = (inner.sender_count + usize_mod - 1) % usize_mod } in
      if left.sender_count == 0
      then wake_receiver left tt
      else record { state = left; result = tt; woken = [] }

  pub try_recv : Inner T W → Inner T W × Option T
  try_recv inner = elim (pop_front inner.queue) [
    | none ↦ (inner, none)
    | some (x, xs) ↦ (record inner { queue = xs }, some x)
  ]

  unfoldable pub drop_receiver : Inner T W → Inner T W
  drop_receiver inner = record inner { rx_closed = true }

  -- `Recv::poll`, in a context whose waker is `waker`.
  unfoldable pub poll_recv : Inner T W → W → Inner T W × Poll (Option T)
  poll_recv inner waker = elim (pop_front inner.queue) [
    | some (x, xs) ↦ (record inner { queue = xs }, ready (some x))
    | none ↦
        if inner.sender_count == 0
        then (inner, ready none)
        else (record inner { rx_waker = some waker }, pending)
  ]
