-- ===== src/Channel/History/Order.antt =====
-- src/channel.rs: the count of senders, and the order of the values.
use mini_async_runtime.Base.{
  ℕ, ◌<◌, ◌≡◌, refl, sym, not, Option, none, some, List, [], ◌∷◌, ◌++◌, append-nil, append_assoc,
  pop_front, ◌↔◌, ready, pending, err, false, usize_mod, arith,
}
use mini_async_runtime.Channel.{
  unbounded, send, clone_sender, drop_sender, poll_recv, try_recv, drop_receiver,
}
use mini_async_runtime.Channel.History.{
  History, Step, sends, clones, drops_sender, polls, tries, drops_receiver, Reach, start, later,
}

module _ {ℓ} {T : Type ℓ} where
  abbrev Fronts : List T → List T → Option (T × List T) → Type ℓ
  Fronts d q none = q ≡ []
  Fronts d q (some (x, xs)) = d ++ q ≡ (d ++ x ∷ []) ++ xs

  -- The front of the queue joins the end of what has been delivered.
  pop_front-Fronts : (d q : List T) → Fronts d q (pop_front q)
  pop_front-Fronts d [] = refl
  pop_front-Fronts d (x ∷ xs) = sym (append_assoc d (x ∷ []) xs)

module _ {ℓ} {T W : Type ℓ} where
  -- A receiver that is parked has nothing to receive, and a sender is left to wake it.
  abbrev pub Parked : Option W → List T → ℕ → Type ℓ
  Parked none queue count = Unit
  Parked (some w) queue count = (queue ≡ []) × (0 < count)

  pub record IsConsistent (h : History T W) : Type ℓ where
    pub counted : h.inner.sender_count ≡ h.senders
    pub bounded : h.senders < usize_mod
    pub closed : h.inner.rx_closed ≡ not h.receiver
    pub parked : Parked h.inner.rx_waker h.inner.queue h.senders
    pub in_order : h.accepted ≡ h.delivered ++ h.inner.queue

  pub Step-IsConsistent :
      {h k : History T W} {ws : List W} → Step h k ws → IsConsistent h → IsConsistent k
  unfolding send clone_sender drop_sender poll_recv try_recv drop_receiver
  Step-IsConsistent {h} (sends value live) c =
      ground (arith, append_assoc h.delivered h.inner.queue (value ∷ []), append-nil h.accepted)
  Step-IsConsistent (clones live small) c = ground arith
  Step-IsConsistent (drops_sender live) c = ground arith
  Step-IsConsistent {h} (polls waker alive) c =
      ground (arith, pop_front-Fronts h.delivered h.inner.queue, append-nil h.delivered)
  Step-IsConsistent {h} (tries alive) c =
      ground (arith, pop_front-Fronts h.delivered h.inner.queue, append-nil h.delivered)
  Step-IsConsistent (drops_receiver alive) c = ground arith

  pub Reach-IsConsistent : {h : History T W} → Reach h → IsConsistent h
  unfolding unbounded
  Reach-IsConsistent start = record {
    counted = refl;
    bounded = omega arith;
    closed = refl;
    parked = tt;
    in_order = refl;
  }
  Reach-IsConsistent (later r st) = Step-IsConsistent st (Reach-IsConsistent r)

  -- In every reachable state the values handed out, followed by those still in the queue, are the
  -- values accepted, in the order in which they were sent.
  pub Reach-in_order : {h : History T W} → Reach h → h.accepted ≡ h.delivered ++ h.inner.queue
  Reach-in_order r = (Reach-IsConsistent r).in_order

  -- In a reachable state a poll of the receiver says that the channel is closed exactly when the
  -- queue is empty and no sender is live, and is pending exactly when the queue is empty and one is.
  pub poll_recv-closed_iff :
      {h : History T W} (w : W)
      → Reach h
      → (((poll_recv h.inner w).1 ≡ ready none) ↔ ((h.inner.queue ≡ []) × (h.senders ≡ 0)))
        × (((poll_recv h.inner w).1 ≡ pending) ↔ ((h.inner.queue ≡ []) × (0 < h.senders)))
  unfolding poll_recv
  poll_recv-closed_iff {h} w r =
      let c = Reach-IsConsistent r in ground (arith, c.counted, pop_front-Fronts [] h.inner.queue)

  -- In a reachable state a send fails exactly when the receiver is gone. It then gives the value
  -- back, and leaves the channel as it was.
  pub send-err_iff :
      {h : History T W} (value : T)
      → Reach h
      → ((h.receiver ≡ false) ↔ ((send h.inner value).result ≡ err value))
        × (h.receiver ≡ false → (send h.inner value).state ≡ h.inner)
  unfolding send
  send-err_iff {h} value r = let c = Reach-IsConsistent r in ground (arith, c.closed)
