-- ===== src/Channel/History/Examples.antt =====
-- Tests of src/channel.rs, and the theorems about it at concrete inputs.
use mini_async_runtime.Base.{
  ℕ, ◌≡◌, refl, ◌↔◌, ◌<◌, none, [], ◌∷◌, ◌++◌, ready, pending, err, false, arith,
}
use mini_async_runtime.Channel.{unbounded, send, drop_sender, poll_recv}
use mini_async_runtime.Channel.History.{
  History, Reach, start, later, accepts, sends, drops_sender, polls, tries, drops_receiver,
}
use mini_async_runtime.Channel.History.Order.{Reach-in_order, poll_recv-closed_iff, send-err_iff}
use mini_async_runtime.Channel.History.Wakeup.{Waits, polled, nothing, more, no_lost_wakeup}

-- `tx.send(7); tx.send(8); rx.recv().await; drop(tx)`
abbrev two_sent : (h : History ℕ ℕ) × Reach h
two_sent = (
  _,
  later (later (later (later start (sends 7 (omega arith))) (sends 8 (omega arith))) (polls 1 refl))
      (drops_sender (omega arith)),
)

-- The same with both values received.
abbrev drained : (h : History ℕ ℕ) × Reach h
drained = (_, later two_sent.1 (tries refl))

abbrev abandoned : (h : History ℕ ℕ) × Reach h
abandoned = (_, later start (drops_receiver refl))

abbrev begun : (h : History ℕ ℕ) × Reach h
begun = (_, start)

two_sent_result :
    (two_sent.0.delivered ≡ 7 ∷ []) × (two_sent.0.inner.queue ≡ 8 ∷ []) × (two_sent.0.senders ≡ 0)
unfolding unbounded send drop_sender poll_recv
two_sent_result = (refl, refl, refl)

Reach-in_order_example : two_sent.0.accepted ≡ two_sent.0.delivered ++ two_sent.0.inner.queue
Reach-in_order_example = Reach-in_order two_sent.1

poll_recv-closed_iff_example :
    (((poll_recv drained.0.inner 2).1 ≡ ready none)
      ↔ ((drained.0.inner.queue ≡ []) × (drained.0.senders ≡ 0)))
    × (((poll_recv drained.0.inner 2).1 ≡ pending)
        ↔ ((drained.0.inner.queue ≡ []) × (0 < drained.0.senders)))
poll_recv-closed_iff_example = poll_recv-closed_iff 2 drained.1

send-err_iff_example :
    ((abandoned.0.receiver ≡ false) ↔ ((send abandoned.0.inner 5).result ≡ err 5))
    × (abandoned.0.receiver ≡ false → (send abandoned.0.inner 5).state ≡ abandoned.0.inner)
send-err_iff_example = send-err_iff 5 abandoned.1

-- The receiver waits with waker 3, and a value arrives.
no_lost_wakeup_example :
    Waits 3
      (record (polled begun.0 3) {
        inner = (send (polled begun.0 3).inner 9).state;
        accepted =
            (polled begun.0 3).accepted ++ accepts 9 (send (polled begun.0 3).inner 9).result;
      })
      ([] ++ (send (polled begun.0 3).inner 9).woken)
unfolding unbounded poll_recv
no_lost_wakeup_example =
    no_lost_wakeup 3 begun.1 refl refl (more nothing (sends 9 (omega arith)) tt)
