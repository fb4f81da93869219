-- ===== src/MultiThread/Schedule/Invariant.antt =====
-- src/multi_thread/executor.rs: the threads that carry a task to its poll, and those that poll it,
-- against the state of the task.
use mini_async_runtime.Base.{
  ℕ, ◌+◌, ◌≤◌, ◌<◌, ◌≡◌, Bool, true, false, ◌&&◌, ◌||◌, contains, if◌then◌else◌, ◌==◌, arith,
}
use mini_async_runtime.MultiThread.ReadyQueue.{
  new, Fifo, new-Fifo, enqueue-Fifo, contains-enqueue, dequeue-Taken,
}
use mini_async_runtime.MultiThread.Threads.{
  update, count, count-update, count-pos, count_mono, count-none,
}
use mini_async_runtime.MultiThread.Interleaving.{Run-invariant}
use mini_async_runtime.MultiThread.Schedule.{
  TaskPhase, scheduled, running, notified, Shared, Pc, Move, System, idle_system, Reach,
}

abbrev pub is_scheduled : TaskPhase → Bool
is_scheduled scheduled = true
is_scheduled _ = false

abbrev pub is_notified : TaskPhase → Bool
is_notified notified = true
is_notified _ = false

abbrev pub is_active : TaskPhase → Bool
is_active running = true
is_active notified = true
is_active _ = false

abbrev pub one : Bool → ℕ
one b = if b then 1 else 0

-- The thread holds the token of task `q`.
abbrev pub carries : ℕ → Pc → Bool
carries q (Pc.enqueuing id) = id == q
carries q (Pc.dequeued id) = id == q
carries q (Pc.found id) = id == q
carries q _ = false

-- The thread is in `poll_task` of task `q`, after the compare-exchange.
abbrev pub runs : ℕ → Pc → Bool
runs q (Pc.polling id) = id == q
runs q (Pc.settling id) = id == q
runs q (Pc.rescheduling id) = id == q
runs q (Pc.removing id) = id == q
runs q _ = false

abbrev pub again : ℕ → Pc → Bool
again q (Pc.rescheduling id) = id == q
again q _ = false

-- What holds of task `q`, with the numbers of threads that carry, run and reschedule it.
abbrev pub Tally : (s : Shared) (q c r a : ℕ) → Type 0
Tally s q c r a =
    (one (contains q s.ready_queue.queue) + c ≡ one (s.live q && is_scheduled (s.phase q)))
    × (r ≡ one (s.live q && is_active (s.phase q)))
    × (s.next_id ≤ q → s.live q ≡ false)
    × (s.live q ≡ false → is_active (s.phase q) ≡ true)
    × (s.owed q ≡ true
        → s.live q ≡ true
        → (is_scheduled (s.phase q) || is_notified (s.phase q)) ≡ true)
    × (is_notified (s.phase q) ≡ false → a ≡ 0)

abbrev Shift : (at : Pc → Bool) (p p' : Pc) (k k' : ℕ) → Type 0
Shift at p p' k k' = (k' + one (at p) ≡ k + one (at p')) × (one (at p) ≤ k)

Move-Tally :
    (s m : Shared) (p p' : Pc) (q c r a c' r' a' : ℕ)
    → Fifo s.ready_queue
    → Tally s q c r a
    → Move s p m p'
    → Shift (carries q) p p' c c'
    → Shift (runs q) p p' r r'
    → Shift (again q) p p' a a'
    → a ≤ r
    → a' ≤ r'
    → Tally m q c' r' a'
Move-Tally s m p p' q c r a c' r' a' v t (Move.enqueues {id}) hc hr ha le le' =
    ground (arith, contains-enqueue s.ready_queue id q v)
Move-Tally s m p p' q c r a c' r' a' v t (Move.dequeues {id} {out} e) hc hr ha le le' = ground (
  arith,
  (dequeue-Taken s.ready_queue out id v e).1,
  (dequeue-Taken s.ready_queue out id v e).2 q,
)
Move-Tally s m p p' q c r a c' r' a' v t (Move.loads_other {id} n n') hc hr ha le le' =
    ground (arith, n, n')
Move-Tally s m p p' q c r a c' r' a' v t (Move.skips {id} n) hc hr ha le le' = ground (arith, n)
Move-Tally s m p p' q c r a c' r' a' v t (Move.is_notified {id} n) hc hr ha le le' =
    ground (arith, n)
Move-Tally s m p p' q c r a c' r' a' v t (Move.idle_wins e) hc hr ha le le' = ground arith
Move-Tally s m p p' q c r a c' r' a' v t (Move.running_wins e) hc hr ha le le' = ground arith
Move-Tally s m p p' q c r a c' r' a' v t (Move.misses e) hc hr ha le le' = ground arith
Move-Tally s m p p' q c r a c' r' a' v t (Move.idles e) hc hr ha le le' = ground arith
Move-Tally s m p p' q c r a c' r' a' v t _ hc hr ha le le' = ground arith

Move-Fifo : (s m : Shared) (p p' : Pc) → Fifo s.ready_queue → Move s p m p' → Fifo m.ready_queue
Move-Fifo s m p p' v (Move.enqueues {id}) = enqueue-Fifo s.ready_queue id v
Move-Fifo s m p p' v (Move.dequeues {id} {out} e) = (dequeue-Taken s.ready_queue out id v e).0
Move-Fifo s m p p' v _ = v

again-runs : (q : ℕ) (p : Pc) → again q p ≡ true → runs q p ≡ true
again-runs q (Pc.rescheduling id) h = h
again-runs q _ h = absurd (ground arith)

pub record Inv (n : ℕ) (s : System) : Type 0 where
  pub fifo : Fifo s.memory.ready_queue
  pub tally :
      (q : ℕ)
      → Tally s.memory q
          (count (carries q) n s.place)
          (count (runs q) n s.place)
          (count (again q) n s.place)

shift :
    (at : Pc → Bool) (n : ℕ) (pc : ℕ → Pc) (i : ℕ) (p : Pc)
    → i < n
    → Shift at (pc i) p (count at n pc) (count at n (update pc i p))
shift at n pc i p lt = (count-update at n pc i p lt, ground (arith, count-pos at n pc i lt))

Move-Inv :
    (n : ℕ) (s : System) (i : ℕ) (m : Shared) (p : Pc)
    → Inv n s
    → i < n
    → Move s.memory (s.place i) m p
    → Inv n (record { memory = m; place = update s.place i p })
Move-Inv n s i m p v lt mv = record {
  fifo = Move-Fifo s.memory m (s.place i) p v.fifo mv;
  tally = λ q.
      let sub = again-runs q in
      Move-Tally s.memory m (s.place i) p q _ _ _ _ _ _ v.fifo (v.tally q) mv
        (shift (carries q) n s.place i p lt) (shift (runs q) n s.place i p lt)
        (shift (again q) n s.place i p lt) (count_mono (again q) (runs q) n s.place sub)
        (count_mono (again q) (runs q) n (update s.place i p) sub);
}

idle_system-Inv : (n : ℕ) → Inv n idle_system
unfolding new
idle_system-Inv n = record {
  fifo = new-Fifo;
  tally = λ q. ground (
    arith,
    count-none (carries q) n Pc.free,
    count-none (runs q) n Pc.free,
    count-none (again q) n Pc.free,
  );
}

pub Reach-Inv : (n : ℕ) (s : System) → Reach n s → Inv n s
Reach-Inv n = Run-invariant Move idle_system (Inv n) n (idle_system-Inv n) (Move-Inv n)
