-- ===== src/Channel/History/Wakeup.antt =====
-- src/channel.rs: `rx_waker`, and what wakes a receiver that waits.
use mini_async_runtime.Base.{
  ◌<◌, ◌≡◌, ◌⊎◌, true, some, List, [], ◌∷◌, ◌++◌, append-nil, none, pending, arith,
}
use mini_async_runtime.Channel.{send, clone_sender, drop_sender, poll_recv, try_recv, drop_receiver}
use mini_async_runtime.Channel.History.{
  History, Step, sends, clones, drops_sender, polls, tries, drops_receiver, Reach, delivers,
}
use mini_async_runtime.Channel.History.Order.{IsConsistent, Step-IsConsistent, Reach-IsConsistent}

module _ {ℓ} {T W : Type ℓ} where
  -- A call other than a poll of the receiver.
  abbrev pub IsOther : {h k : History T W} {ws : List W} → Step h k ws → Type 0
  IsOther (polls _ _) = ⊥
  IsOther _ = Unit

  -- Calls after `h` among which the receiver is not polled, with the wakers that they wake.
  pub data Meanwhile (h : History T W) : History T W → List W → Type ℓ where
    nothing : Meanwhile h h []
    more :
        {k l : History T W} {vs ws : List W}
        → Meanwhile h k vs
        → (st : Step k l ws) → IsOther st
        → Meanwhile h l (vs ++ ws)

  abbrev pub polled : History T W → W → History T W
  polled h w = record h {
    inner = (poll_recv h.inner w).0;
    delivered = h.delivered ++ delivers (poll_recv h.inner w).1;
  }

  -- The receiver still waits, and rightly; or its waker was called, once.
  abbrev pub Waits : W → History T W → List W → Type ℓ
  Waits w k ws =
      ((k.inner.rx_waker ≡ some w) × (k.inner.queue ≡ []) × (0 < k.senders) × (ws ≡ []))
      ⊎ ((k.inner.rx_waker ≡ none) × (ws ≡ w ∷ []))

  Step-Waits :
      (w : W) (vs : List W) {k l : History T W} {ws : List W} (st : Step k l ws)
      → IsOther st
      → IsConsistent k
      → IsConsistent l
      → Waits w k vs
      → Waits w l (vs ++ ws)
  unfolding send clone_sender drop_sender poll_recv try_recv drop_receiver
  Step-Waits w vs (sends value live) other c d x = ground (arith, append-nil vs)
  Step-Waits w vs (clones live small) other c d x = ground (arith, append-nil vs)
  Step-Waits w vs (drops_sender live) other c d x = ground (arith, append-nil vs)
  Step-Waits w vs (polls waker alive) other c d x = absurd other
  Step-Waits w vs (tries alive) other c d x = ground (arith, append-nil vs)
  Step-Waits w vs (drops_receiver alive) other c d x = ground (arith, append-nil vs)

  Meanwhile-Waits :
      (w : W) {h k : History T W} {ws : List W}
      → IsConsistent h
      → Waits w h []
      → Meanwhile h k ws
      → IsConsistent k × Waits w k ws
  Meanwhile-Waits w c x nothing = (c, x)
  Meanwhile-Waits w c x (more {vs = vs} m st other) =
      let (d, y) = Meanwhile-Waits w c x m in
      let e = Step-IsConsistent st d in (e, Step-Waits w vs st other d e y)

  -- No wake-up is lost and none is repeated. After a poll of a live receiver that is pending, and
  -- any calls on other handles or `try_recv` and the drop of the receiver, either the waker of the
  -- poll is stored, nothing is in the queue, a sender is live and no waker was called, or that waker
  -- was called once, and no other.
  pub no_lost_wakeup :
      (w : W) {h k : History T W} {ws : List W}
      → Reach h
      → h.receiver ≡ true
      → (poll_recv h.inner w).1 ≡ pending
      → Meanwhile (polled h w) k ws
      → Waits w k ws
  unfolding poll_recv
  no_lost_wakeup w {h} r alive wait m =
      let c = Step-IsConsistent (polls w alive) (Reach-IsConsistent r) in
      (Meanwhile-Waits w c (ground arith) m).1
