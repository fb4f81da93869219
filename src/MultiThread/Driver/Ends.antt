-- ===== src/MultiThread/Driver/Ends.antt =====
-- src/multi_thread/executor.rs, `drive_io`, and src/multi_thread/runtime.rs, `sleep`: what the
-- accesses leave of the heap and of the end of the wait.
use mini_async_runtime.Base.{
  ℕ, ◌+◌, ◌≡◌, refl, sym, subst, Bool, true, false, ◌&&◌, ◌||◌, Option, none, some, List,
  if◌then◌else◌, arith,
}
use mini_async_runtime.Timer.{TimerEntry}
use mini_async_runtime.Timer.Sorted.{Above}
use mini_async_runtime.MultiThread.TimerWheel.{TimerWheel, register, has_pending, poll_sleep}
use mini_async_runtime.MultiThread.Driver.{Shared, Place, timeout, Access}
use mini_async_runtime.MultiThread.Driver.Bounded.{Until, process-Until}

abbrev pub one : Bool → ℕ
one b = if b then 1 else 0

abbrev pub is_registered : Place → Bool
is_registered Place.registered = true
is_registered _ = false

-- A worker that has the token, before the first `process` or after the wait.
abbrev pub holds : Place → Bool
holds Place.claimed = true
holds Place.returned = true
holds Place.dispatched = true
holds Place.releasing = true
holds _ = false

-- Between the first `process` and the end of the wait.
abbrev pub drives : Place → Bool
drives (Place.checking now next_deadline) = true
drives Place.waiting = true
drives _ = false

abbrev pub has_token : Place → Bool
has_token p = holds p || drives p

-- The timeout, or the duration that it is made of, ends no later than any deadline in the heap.
abbrev pub Checked : Shared → Place → Type 0
Checked s (Place.checking now next_deadline) = Until now next_deadline s.wheel.heap
Checked s Place.waiting = Above s.ends s.wheel.heap
Checked s _ = Unit

Until-timeout :
    (now : ℕ) (next : Option ℕ) (pending : Bool) (heap : List TimerEntry)
    → Until now next heap
    → Above (now + timeout next pending) heap
unfolding timeout
Until-timeout now none pending heap until = subst (Above _) (sym until) tt
Until-timeout now (some d) pending heap until = until

register-heap :
    (wheel : TimerWheel ℕ) (deadline : ℕ) → (register wheel deadline).0.heap ≡ wheel.heap
unfolding register
register-heap wheel deadline = refl

pub poll_sleep-keeps :
    (wheel : TimerWheel ℕ) (r w : ℕ)
    → ((poll_sleep wheel r w).0.heap ≡ wheel.heap) × ((poll_sleep wheel r w).0.inbox ≡ wheel.inbox)
unfolding poll_sleep
poll_sleep-keeps wheel r w = ground arith

-- The place of the thread that moves.
pub access-Checked :
    (s m : Shared) (p p' : Place)
    → Above 0 s.wheel.heap
    → Checked s p
    → Access s p m p'
    → Checked m p'
access-Checked s m p p' a c (Access.processes now) = (process-Until s.wheel now a).1
access-Checked s m p p' a c (Access.waits {now} {next_deadline}) =
    Until-timeout now next_deadline (has_pending s.wheel) s.wheel.heap c
access-Checked s m p p' a c _ = tt

access-heap :
    (s m : Shared) (p p' : Place)
    → has_token p ≡ false
    → Access s p m p'
    → (m.wheel.heap ≡ s.wheel.heap) × (m.ends ≡ s.ends)
access-heap s m p p' h (Access.registers deadline) = (register-heap s.wheel deadline, refl)
access-heap s m p p' h (Access.polls_sleep r w) = ((poll_sleep-keeps s.wheel r w).0, refl)
access-heap s m p p' h _ = ground arith

-- The place of another thread, where not both have the token.
pub access-Checked_other :
    (s m : Shared) (p p' q : Place)
    → (has_token p && has_token q) ≡ false
    → Checked s q
    → Access s p m p'
    → Checked m q
access-Checked_other s m p p' (Place.checking now next) h c access =
    subst (Until now next) (sym (access-heap s m p p' (ground (arith, h)) access).0) c
access-Checked_other s m p p' Place.waiting h c access =
    let (heap, ends) = access-heap s m p p' (ground (arith, h)) access in rw (heap, ends) c
access-Checked_other s m p p' _ h c access = tt

pub access-Above :
    (s m : Shared) (p p' : Place) → Above 0 s.wheel.heap → Access s p m p' → Above 0 m.wheel.heap
access-Above s m p p' a (Access.processes now) = (process-Until s.wheel now a).0
access-Above s m p p' a (Access.processes_again now) = (process-Until s.wheel now a).0
access-Above s m p p' a (Access.registers deadline) =
    subst (Above 0) (sym (register-heap s.wheel deadline)) a
access-Above s m p p' a (Access.polls_sleep r w) =
    subst (Above 0) (sym (poll_sleep-keeps s.wheel r w).0) a
access-Above s m p p' a _ = a
