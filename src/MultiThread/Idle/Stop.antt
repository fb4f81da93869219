-- ===== src/MultiThread/Idle/Stop.antt =====
-- src/multi_thread/executor.rs, `run_worker`, and src/multi_thread/runtime.rs, `shutdown`: workers once
-- the flag is set.
use Prim.Native.Nat.{◌-◌}
use mini_async_runtime.Base.{
  ℕ, suc, ◌+◌, ◌≤◌, ◌<◌, ◌≡◌, ◌⊎◌, inl, inr, refl, sym, ap, subst, Bool, true, false, Bool-cases,
  ltb, ◌==◌, ==_iff, arith,
}
use mini_async_runtime.MultiThread.ReadyQueue.{dequeue-cases, is_empty}
use mini_async_runtime.MultiThread.Threads.{count-pos}
use mini_async_runtime.MultiThread.Interleaving.{Threads, Run, begin, acts, steps_of, Run-append}
use mini_async_runtime.MultiThread.Idle.{Shared, Place, Access, Reach}
use mini_async_runtime.MultiThread.Idle.Invariant.{Reach-Inv, is_sleeping}

-- How many accesses a worker may take until it has exited, once the flag is set.
abbrev pub rank : Place → ℕ
rank Place.looping = 1
rank Place.polling = 2
rank Place.releasing = 2
rank Place.sleeping = 2
rank Place.returning = 3
rank Place.resting = 3
rank Place.waiting = 4
rank Place.idling = 4
rank Place.driving = 5
rank Place.rechecking = 6
rank Place.claiming = 7
rank Place.dequeuing = 8
rank _ = 0

abbrev pub is_worker : Place → Bool
is_worker Place.exited = true
is_worker p = ltb 0 (rank p)

access-rank :
    (s m : Shared) (p p' : Place)
    → s.shutdown ≡ true
    → is_worker p ≡ true
    → Access s p m p'
    → (suc (rank p') ≤ rank p) × (is_worker p' ≡ true)
access-rank s m p p' stop w (Access.goes_on h) = absurd (ground (arith, h, stop))
access-rank s m p p' stop w (Access.quits h) = ground arith
access-rank s m p p' stop w _ = ground arith

access-shutdown :
    (s m : Shared) (p p' : Place) → s.shutdown ≡ true → Access s p m p' → m.shutdown ≡ true
access-shutdown s m p p' stop Access.notifies = ground arith
access-shutdown s m p p' stop _ = ground arith

access-is_worker :
    (s m : Shared) (p p' : Place) → is_worker p ≡ true → Access s p m p' → is_worker p' ≡ true
access-is_worker s m p p' w (Access.goes_on h) = ground arith
access-is_worker s m p p' w _ = ground arith

Reach-is_worker :
    (workers n : ℕ) (s : Threads Shared Place)
    → Reach workers n s
    → (i : ℕ) → i < workers
    → is_worker (s.place i) ≡ true
Reach-is_worker workers n s begin i lt = ground arith
Reach-is_worker workers n s (acts j {s = t} {m} {p} run access lt') i lt = ground (
  arith,
  ==_iff j i,
  Reach-is_worker workers n t run i lt,
  access-is_worker t.memory m (t.place i) p,
  access,
)

-- What holds of a worker in a state after the flag was set in state `s`.
record Winding (s t : Threads Shared Place) (i steps : ℕ) : Type 0 where
  bounded : steps + rank (t.place i) ≤ rank (s.place i)
  worker : is_worker (t.place i) ≡ true
  stopped : t.memory.shutdown ≡ true

Run-Winding :
    (n i : ℕ) (s t : Threads Shared Place)
    → s.memory.shutdown ≡ true
    → is_worker (s.place i) ≡ true
    → (run : Run Access s n t) → Winding s t i (steps_of i run)
Run-Winding n i s t stop w begin = record { bounded = omega arith; worker = w; stopped = stop }
Run-Winding n i s t stop w (acts j {s = u} {m} {p} run access lt) =
    let v = Run-Winding n i s u stop w run in
    let stopped = access-shutdown u.memory m (u.place j) p v.stopped access in
    elim (Bool-cases (j == i)) [
      | inl own ↦
          let at : u.place j ≡ u.place i = ap u.place (ground (arith, ==_iff j i, own)) in
          let down =
            access-rank u.memory m (u.place j) p v.stopped
              (subst (λ q. is_worker q ≡ true) (sym at) v.worker) access in
          record {
            bounded = ground (arith, v.bounded, down, ap rank at);
            worker = ground (arith, down);
            stopped = stopped;
          }
      | inr other ↦ record {
        bounded = ground (arith, v.bounded);
        worker = ground (arith, v.worker);
        stopped = stopped;
      }
    ]

rank-bound : (p : Place) → rank p ≤ 8
rank-bound p = ground arith

-- A worker that has not exited can take an access.
abbrev pub Goes : Shared → Place → Type 0
Goes s p = (p ≡ Place.exited) ⊎ ((m : Shared) × (p' : Place) × Access s p m p')

place-Goes :
    (s : Shared) (p : Place)
    → is_worker p ≡ true
    → (is_sleeping p ≡ true → 0 < s.waiters + s.signals)
    → Goes s p
place-Goes s Place.looping w h = elim (Bool-cases s.shutdown) [
  | inl e ↦ inr (s, Place.exited, Access.quits e)
  | inr e ↦ inr (s, Place.dequeuing, Access.goes_on e)
]
place-Goes s Place.dequeuing w h = elim (dequeue-cases s.ready_queue) [
  | inl e ↦ inr (s, Place.claiming, Access.finds_none e)
  | inr (out, id, e) ↦ inr (record s { ready_queue = out }, Place.polling, Access.dequeues e)
]
place-Goes s Place.polling w h = inr (s, Place.looping, Access.polls)
place-Goes s Place.claiming w h = elim (Bool-cases s.driver_token) [
  | inl e ↦ inr (s, Place.idling, Access.claim_fails e)
  | inr e ↦ inr (record s { driver_token = true }, Place.rechecking, Access.claims e)
]
place-Goes s Place.rechecking w h = elim (Bool-cases (is_empty s.ready_queue)) [
  | inl e ↦ inr (s, Place.driving, Access.still_empty e)
  | inr e ↦ inr (s, Place.releasing, Access.filled e)
]
place-Goes s Place.driving w h = inr (s, Place.waiting, Access.blocks)
place-Goes s Place.waiting w h = inr (s, Place.returning, Access.returns)
place-Goes s Place.returning w h = inr (s, Place.releasing, Access.skips_eventfd)
place-Goes s Place.releasing w h =
    inr (record s { driver_token = false }, Place.looping, Access.releases)
place-Goes s Place.idling w h = elim (Bool-cases (is_empty s.ready_queue)) [
  | inl e ↦ elim (Bool-cases s.shutdown) [
    | inl stop ↦ inr (s, Place.exited, Access.quits_idle e stop)
    | inr on ↦ inr (s, Place.resting, Access.rests on)
  ]
  | inr e ↦ inr (s, Place.looping, Access.finds_task e)
]
place-Goes s Place.resting w h = elim (Bool-cases (is_empty s.ready_queue)) [
  | inl e ↦ inr (record s { waiters = s.waiters + 1 }, Place.sleeping, Access.sleeps e)
  | inr e ↦ inr (s, Place.looping, Access.finds_late e)
]
place-Goes s Place.sleeping w h = elim (Bool-cases (ltb 0 s.signals)) [
  | inl e ↦
      inr (record s { signals = s.signals - 1 }, Place.looping, Access.is_notified (ground arith))
  | inr e ↦ inr (
    record s { waiters = s.waiters - 1 },
    Place.looping,
    Access.times_out (ground (arith, h refl)),
  )
]
place-Goes s Place.exited w h = inl refl
place-Goes s _ w h = absurd (ground arith)

-- Once the shutdown flag is set, in any state that any interleaving reaches, and whatever the threads do
-- from there on: each worker takes at most 8 more accesses. Until it has exited, it can take one: it
-- never waits for another thread, only for the end of a poll or of a wait that has a timeout.
pub shutdown-exits :
    (workers n : ℕ) (s t : Threads Shared Place) (i : ℕ)
    → workers ≤ n
    → Reach workers n s
    → s.memory.shutdown ≡ true
    → i < workers
    → (later : Run Access s n t) → (steps_of i later ≤ 8) × Goes t.memory (t.place i)
shutdown-exits workers n s t i le reach stop lt later =
    let w = Run-Winding n i s t stop (Reach-is_worker workers n s reach i lt) later in
    let inv = Reach-Inv workers n (omega arith) le t (Run-append reach later) in
    (
      ground (arith, w.bounded, rank-bound (s.place i)),
      place-Goes t.memory (t.place i) w.worker
          (λ h. ground (arith, inv.tally.1, count-pos is_sleeping n t.place i (omega arith) h)),
    )
