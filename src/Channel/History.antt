-- ===== src/Channel/History.antt =====
-- src/channel.rs: the handles that are live, the calls that Rust's ownership lets them make, and
-- what the channel has done so far.
pub mod Order
pub mod Wakeup
mod Examples
use mini_async_runtime.Base.{
  ℕ, suc, ◌+◌, ◌-◌, ◌<◌, ◌≡◌, Bool, true, false, Option, none, some, List, [], ◌∷◌, ◌++◌, to_list,
  if◌then◌else◌, Result, ok, err, Poll, ready, pending, usize_mod,
}
use mini_async_runtime.Channel
use mini_async_runtime.Channel.{Inner}

-- The shared state, the live handles, and the values accepted and handed out, oldest first.
pub record History {ℓ} (T W : Type ℓ) : Type ℓ where
  pub inner : Inner T W
  pub senders : ℕ
  pub receiver : Bool
  pub accepted : List T
  pub delivered : List T

module _ {ℓ} {T : Type ℓ} where
  abbrev pub accepts : T → Result (Unit {ℓ}) T → List T
  accepts value (ok _) = value ∷ []
  accepts value (err _) = []

  abbrev pub delivers : Poll (Option T) → List T
  delivers (ready o) = to_list o
  delivers pending = []

module _ {ℓ} {T W : Type ℓ} where
  abbrev pub opened : History T W
  opened = record {
    inner = Channel.unbounded;
    senders = 1;
    receiver = true;
    accepted = [];
    delivered = [];
  }

  -- A call on a handle that is live, the history after it, and the wakers that it woke. A handle is
  -- cloned only if `Rc::clone` does not abort, which it does before 2 ^ 64 handles exist.
  pub data Step (h : History T W) : History T W → List W → Type ℓ where
    sends :
        (value : T)
        → 0 < h.senders
        → Step h
            (record h {
              inner = (Channel.send h.inner value).state;
              accepted = h.accepted ++ accepts value (Channel.send h.inner value).result;
            })
            (Channel.send h.inner value).woken
    clones :
        0 < h.senders
        → suc h.senders < usize_mod
        → Step h (record h { inner = Channel.clone_sender h.inner; senders = suc h.senders }) []
    drops_sender :
        0 < h.senders
        → Step h
            (record h { inner = (Channel.drop_sender h.inner).state; senders = h.senders - 1 })
            (Channel.drop_sender h.inner).woken
    polls :
        (waker : W)
        → h.receiver ≡ true
        → Step h
            (record h {
              inner = (Channel.poll_recv h.inner waker).0;
              delivered = h.delivered ++ delivers (Channel.poll_recv h.inner waker).1;
            })
            []
    tries :
        h.receiver ≡ true
        → Step h
            (record h {
              inner = (Channel.try_recv h.inner).0;
              delivered = h.delivered ++ to_list (Channel.try_recv h.inner).1;
            })
            []
    drops_receiver :
        h.receiver ≡ true
        → Step h (record h { inner = Channel.drop_receiver h.inner; receiver = false }) []

  pub data Reach : History T W → Type ℓ where
    start : Reach opened
    later : {h k : History T W} {woken : List W} → Reach h → Step h k woken → Reach k
