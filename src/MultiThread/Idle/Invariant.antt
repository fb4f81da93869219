-- ===== src/MultiThread/Idle/Invariant.antt =====
-- src/multi_thread/executor.rs: how many threads are where, as workers run out of tasks and threads
-- enqueue some.
use mini_async_runtime.Base.{ℕ, ◌+◌, ◌≤◌, ◌<◌, ◌≡◌, refl, Bool, true, false, if◌then◌else◌, arith}
use mini_async_runtime.MultiThread.ReadyQueue.{
  new, is_empty, Fifo, new-Fifo, enqueue-Fifo, dequeue-Taken, dequeue-filled, enqueue-filled,
}
use mini_async_runtime.MultiThread.Threads.{
  update, count, count-update, count-pos, count_mono, count-first,
}
use mini_async_runtime.MultiThread.Interleaving.{Threads, Run-invariant}
use mini_async_runtime.MultiThread.Idle.{Shared, Place, Access, started, Reach}

abbrev pub one : Bool → ℕ
one b = if b then 1 else 0

-- In `enqueue_task`, and there before the write of the eventfd.
abbrev pub enqueues : Place → Bool
enqueues Place.pushed = true
enqueues Place.kicking = true
enqueues Place.notifying = true
enqueues _ = false

abbrev pub may_kick : Place → Bool
may_kick Place.pushed = true
may_kick Place.kicking = true
may_kick _ = false

abbrev pub is_sleeping : Place → Bool
is_sleeping Place.sleeping = true
is_sleeping _ = false

abbrev pub has_exited : Place → Bool
has_exited Place.exited = true
has_exited _ = false

abbrev pub is_waiting : Place → Bool
is_waiting Place.waiting = true
is_waiting _ = false

-- A worker that neither sleeps nor waits nor has exited.
abbrev pub is_active : Place → Bool
is_active Place.outside = false
is_active Place.pushed = false
is_active Place.kicking = false
is_active Place.notifying = false
is_active Place.waiting = false
is_active Place.sleeping = false
is_active Place.stopping = false
is_active Place.stop_kicking = false
is_active Place.joining = false
is_active Place.exited = false
is_active _ = true

-- A worker that has the token, before the second look at the queue or after the wait, and one in
-- between.
abbrev pub holds_token : Place → Bool
holds_token Place.rechecking = true
holds_token Place.returning = true
holds_token Place.releasing = true
holds_token _ = false

abbrev pub drives : Place → Bool
drives Place.driving = true
drives Place.waiting = true
drives _ = false

-- What holds of the numbers of threads at these places.
abbrev pub Tally :
    (workers : ℕ) (s : Shared) (active asleep waits enqueuing kicking holding driving gone : ℕ)
    → Type 0
Tally workers s active asleep waits enqueuing kicking holding driving gone =
    (active + asleep + waits + gone ≡ workers)
    × (asleep ≡ s.waiters + s.signals)
    × (holding + driving ≡ one s.driver_token)
    × (is_empty s.ready_queue ≡ false → 0 < driving → s.eventfd ≡ false → 0 < kicking)
    × (is_empty s.ready_queue ≡ false
        → enqueuing + active + s.signals ≡ 0
        → s.shutdown ≡ false
        → (0 < waits) × (s.eventfd ≡ true))
    × (s.shutdown ≡ false → gone ≡ 0)

abbrev Shift : (at : Place → Bool) (p p' : Place) (k k' : ℕ) → Type 0
Shift at p p' k k' = (k' + one (at p) ≡ k + one (at p')) × (one (at p) ≤ k)

access-Tally :
    (workers : ℕ) (s m : Shared) (p p' : Place) (a b c d e f g x a' b' c' d' e' f' g' x' : ℕ)
    → 0 < workers
    → Fifo s.ready_queue
    → Tally workers s a b c d e f g x
    → Access s p m p'
    → Shift is_active p p' a a'
    → Shift is_sleeping p p' b b'
    → Shift is_waiting p p' c c'
    → Shift enqueues p p' d d'
    → Shift may_kick p p' e e'
    → Shift holds_token p p' f f'
    → Shift drives p p' g g'
    → Shift has_exited p p' x x'
    → (c ≤ g) × (e ≤ d)
    → (c' ≤ g') × (e' ≤ d')
    → Tally workers m a' b' c' d' e' f' g' x'
access-Tally workers s m p p' a b c d e f g x a' b' c' d' e' f' g' x' pos v t
      (Access.dequeues {id} {out} h1) ha hb hc hd he hf hg hx le le' =
    ground (arith, dequeue-filled s.ready_queue out id v h1)
access-Tally workers s m p p' a b c d e f g x a' b' c' d' e' f' g' x' pos v t (Access.pushes id) ha
      hb hc hd he hf hg hx le le' =
    ground (arith, enqueue-filled s.ready_queue id v)
access-Tally workers s m p p' a b c d e f g x a' b' c' d' e' f' g' x' pos v t (Access.sees_none h1)
      ha hb hc hd he hf hg hx le le' =
    ground arith
access-Tally workers s m p p' a b c d e f g x a' b' c' d' e' f' g' x' pos v t (Access.claims h1) ha
      hb hc hd he hf hg hx le le' =
    ground arith
access-Tally workers s m p p' a b c d e f g x a' b' c' d' e' f' g' x' pos v t
      (Access.still_empty h1) ha hb hc hd he hf hg hx le le' =
    ground arith
access-Tally workers s m p p' a b c d e f g x a' b' c' d' e' f' g' x' pos v t (Access.sleeps h1) ha
      hb hc hd he hf hg hx le le' =
    ground arith
access-Tally workers s m p p' a b c d e f g x a' b' c' d' e' f' g' x' pos v t
      (Access.is_notified h1) ha hb hc hd he hf hg hx le le' =
    ground arith
access-Tally workers s m p p' a b c d e f g x a' b' c' d' e' f' g' x' pos v t (Access.times_out h1)
      ha hb hc hd he hf hg hx le le' =
    ground arith
access-Tally workers s m p p' a b c d e f g x a' b' c' d' e' f' g' x' pos v t (Access.goes_on h1) ha
      hb hc hd he hf hg hx le le' =
    ground arith
access-Tally workers s m p p' a b c d e f g x a' b' c' d' e' f' g' x' pos v t (Access.quits h1) ha
      hb hc hd he hf hg hx le le' =
    ground arith
access-Tally workers s m p p' a b c d e f g x a' b' c' d' e' f' g' x' pos v t
      (Access.quits_idle h1 h2) ha hb hc hd he hf hg hx le le' =
    ground arith
access-Tally workers s m p p' a b c d e f g x a' b' c' d' e' f' g' x' pos v t (Access.rests h1) ha
      hb hc hd he hf hg hx le le' =
    ground arith
access-Tally workers s m p p' a b c d e f g x a' b' c' d' e' f' g' x' pos v t _ ha hb hc hd he hf hg
      hx le le' =
    ground arith

access-Fifo :
    (s m : Shared) (p p' : Place) → Fifo s.ready_queue → Access s p m p' → Fifo m.ready_queue
access-Fifo s m p p' v (Access.pushes id) = enqueue-Fifo s.ready_queue id v
access-Fifo s m p p' v (Access.dequeues {id} {out} e) = (dequeue-Taken s.ready_queue out id v e).0
access-Fifo s m p p' v Access.notifies = ground (arith, v)
access-Fifo s m p p' v _ = v

pub record Inv (workers n : ℕ) (s : Threads Shared Place) : Type 0 where
  pub fifo : Fifo s.memory.ready_queue
  pub tally :
      Tally workers s.memory
        (count is_active n s.place)
        (count is_sleeping n s.place)
        (count is_waiting n s.place)
        (count enqueues n s.place)
        (count may_kick n s.place)
        (count holds_token n s.place)
        (count drives n s.place)
        (count has_exited n s.place)

shift :
    (at : Place → Bool) (n : ℕ) (pc : ℕ → Place) (i : ℕ) (p : Place)
    → i < n
    → Shift at (pc i) p (count at n pc) (count at n (update pc i p))
shift at n pc i p lt = (count-update at n pc i p lt, ground (arith, count-pos at n pc i lt))

waiting-drives : (p : Place) → is_waiting p ≡ true → drives p ≡ true
waiting-drives p h = ground arith

may_kick-enqueues : (p : Place) → may_kick p ≡ true → enqueues p ≡ true
may_kick-enqueues p h = ground arith

below :
    (n : ℕ) (pc : ℕ → Place)
    → (count is_waiting n pc ≤ count drives n pc) × (count may_kick n pc ≤ count enqueues n pc)
below n pc = (
  count_mono is_waiting drives n pc waiting-drives,
  count_mono may_kick enqueues n pc may_kick-enqueues,
)

access-Inv :
    (workers n : ℕ)
    → 0 < workers
    → (s : Threads Shared Place) (i : ℕ) (m : Shared) (p : Place) → Inv workers n s
    → i < n
    → Access s.memory (s.place i) m p
    → Inv workers n (record { memory = m; place = update s.place i p })
access-Inv workers n pos s i m p v lt a = record {
  fifo = access-Fifo s.memory m (s.place i) p v.fifo a;
  tally =
      access-Tally workers s.memory m (s.place i) p _ _ _ _ _ _ _ _ _ _ _ _ _ _ _ _ pos v.fifo
        v.tally a (shift is_active n s.place i p lt) (shift is_sleeping n s.place i p lt)
        (shift is_waiting n s.place i p lt) (shift enqueues n s.place i p lt)
        (shift may_kick n s.place i p lt) (shift holds_token n s.place i p lt)
        (shift drives n s.place i p lt) (shift has_exited n s.place i p lt) (below n s.place)
        (below n (update s.place i p));
}

started-Inv : (workers n : ℕ) → workers ≤ n → Inv workers n (started workers)
unfolding new is_empty
started-Inv workers n le =
    let at_start = λ (at : Place → Bool) (h : at Place.outside ≡ false).
      count-first at n workers Place.looping Place.outside le h in
    record {
      fifo = new-Fifo;
      tally = ground (
        arith,
        at_start is_active refl,
        at_start is_sleeping refl,
        at_start is_waiting refl,
        at_start holds_token refl,
        at_start drives refl,
        at_start has_exited refl,
      );
    }

pub Reach-Inv :
    (workers n : ℕ)
    → 0 < workers
    → workers ≤ n
    → (s : Threads Shared Place) → Reach workers n s
    → Inv workers n s
Reach-Inv workers n pos le =
    Run-invariant Access (started workers) (Inv workers n) n (started-Inv workers n le)
      (access-Inv workers n pos)
