-- ===== src/MultiThread/Driver/Punctual.antt =====
-- src/multi_thread/executor.rs, `drive_io`, and src/multi_thread/runtime.rs, `sleep`: the wait of the
-- driver, and the deadlines of the timers.
use mini_async_runtime.Base.{
  ℕ, ◌+◌, ◌≤◌, ◌<◌, ◌≡◌, ◌⊎◌, inl, inr, refl, ap, subst, Bool, true, false, ◌&&◌, List, [], ◌∷◌,
  is_nil, ◌==◌, ==_iff, arith, Bool-cases, Elem, by-true, by-false, ltb,
}
use mini_async_runtime.Timer.{TimerEntry}
use mini_async_runtime.Timer.Sorted.{Above}
use mini_async_runtime.MultiThread.TimerWheel.{new, process}
use mini_async_runtime.MultiThread.Threads.{
  update, count, count-update, count-pos, count-two, count-some, count-first, count_or,
}
use mini_async_runtime.MultiThread.Interleaving.{Threads, Run-invariant}
use mini_async_runtime.MultiThread.Driver.{Shared, Place, Access, started, Reach}
use mini_async_runtime.MultiThread.Driver.Ends.{
  one, is_registered, holds, drives, has_token, Checked, access-Checked, access-Checked_other,
  access-Above, poll_sleep-keeps,
}
use mini_async_runtime.MultiThread.Driver.Bounded.{process-Until, Above-Elem}

-- What holds of the numbers of threads at these places.
abbrev pub Tally : (s : Shared) (holding driving registering : ℕ) → Type 0
Tally s holding driving registering =
    (holding + driving ≡ one s.driver_token)
    × (0 < driving → is_nil s.wheel.inbox ≡ false → s.eventfd ≡ false → 0 < registering)

abbrev Shift : (at : Place → Bool) (p p' : Place) (k k' : ℕ) → Type 0
Shift at p p' k k' = (k' + one (at p) ≡ k + one (at p')) × (one (at p) ≤ k)

Elem-filled : (e : TimerEntry) (h : List TimerEntry) → Elem e h → is_nil h ≡ false
Elem-filled e [] m = absurd m
Elem-filled e (x ∷ h) m = refl

is_nil-nil : (h : List TimerEntry) → h ≡ [] → is_nil h ≡ true
is_nil-nil h e = rw e

access-Tally :
    (s m : Shared) (p p' : Place) (a b c a' b' c' : ℕ)
    → Above 0 s.wheel.heap
    → Tally s a b c
    → Access s p m p'
    → Shift holds p p' a a'
    → Shift drives p p' b b'
    → Shift is_registered p p' c c'
    → Tally m a' b' c'
access-Tally s m p p' a b c a' b' c' v t (Access.processes now) ha hb hc =
    ground (arith, is_nil-nil (process s.wheel now).state.inbox ((process-Until s.wheel now v).2))
access-Tally s m p p' a b c a' b' c' v t (Access.processes_again now) ha hb hc = ground arith
access-Tally s m p p' a b c a' b' c' v t (Access.polls_sleep r w) ha hb hc =
    ground (arith, poll_sleep-keeps s.wheel r w)
access-Tally s m p p' a b c a' b' c' v t (Access.claims h) ha hb hc = ground arith
access-Tally s m p p' a b c a' b' c' v t _ ha hb hc = ground arith

pub record Inv (n : ℕ) (s : Threads Shared Place) : Type 0 where
  pub sorted : Above 0 s.memory.wheel.heap
  pub checked : (i : ℕ) → i < n → Checked s.memory (s.place i)
  pub tally :
      Tally s.memory
        (count holds n s.place)
        (count drives n s.place)
        (count is_registered n s.place)

shift :
    (at : Place → Bool) (n : ℕ) (pc : ℕ → Place) (i : ℕ) (p : Place)
    → i < n
    → Shift at (pc i) p (count at n pc) (count at n (update pc i p))
shift at n pc i p lt = (count-update at n pc i p lt, ground (arith, count-pos at n pc i lt))

-- Two threads never both have the token.
token_alone :
    (n : ℕ) (s : Threads Shared Place) (i j : ℕ)
    → Inv n s
    → i < n
    → j < n
    → (i == j) ≡ false
    → (has_token (s.place i) && has_token (s.place j)) ≡ false
token_alone n s i j v lt lt' ne = ground (
  arith,
  v.tally.0,
  count_or holds drives n s.place,
  count-two has_token n s.place i j,
  count-two has_token n s.place j i,
  ==_iff i j,
)

access-Inv :
    (n : ℕ) (s : Threads Shared Place) (i : ℕ) (m : Shared) (p : Place)
    → Inv n s
    → i < n
    → Access s.memory (s.place i) m p
    → Inv n (record { memory = m; place = update s.place i p })
access-Inv n s i m p v lt a = record {
  sorted = access-Above s.memory m (s.place i) p v.sorted a;
  checked = λ j lt'. elim (Bool-cases (i == j)) [
    | inl own ↦
        by-true (Checked m) (s.place j) own
          (access-Checked s.memory m (s.place i) p v.sorted (v.checked i lt) a)
    | inr other ↦ by-false (Checked m) p other (
        access-Checked_other s.memory m (s.place i) p (s.place j)
          (token_alone n s i j v lt lt' other) (v.checked j lt') a)
  ];
  tally =
      access-Tally s.memory m (s.place i) p _ _ _ _ _ _ v.sorted v.tally a
        (shift holds n s.place i p lt) (shift drives n s.place i p lt)
        (shift is_registered n s.place i p lt);
}

started-Inv : (workers n : ℕ) → workers ≤ n → Inv n (started workers)
unfolding new
started-Inv workers n le =
    let at_start = λ (at : Place → Bool) (h : at Place.outside ≡ false).
      count-first at n workers Place.free Place.outside le h in
    record {
      sorted = tt;
      checked = λ i lt. elim (Bool-cases (ltb i workers)) [
        | inl worker ↦ by-true (Checked (started workers).memory) Place.outside worker tt
        | inr other ↦ by-false (Checked (started workers).memory) Place.free other tt
      ];
      tally = ground (arith, at_start holds refl, at_start drives refl);
    }

Reach-Inv : (workers n : ℕ) → workers ≤ n → (s : Threads Shared Place) → Reach workers n s → Inv n s
Reach-Inv workers n le =
    Run-invariant Access (started workers) (Inv n) n (started-Inv workers n le) (access-Inv n)

-- In every state that any interleaving of workers and of threads that register timers reaches: while a
-- worker waits in the reactor, no timer in the heap has a deadline before the end of its timeout. If a
-- timer is still in the inbox, the wait is about to end: the eventfd has been written, or a thread is
-- in `sleep` before its write.
pub no_oversleep :
    (workers n : ℕ) (s : Threads Shared Place) (i : ℕ) (e : TimerEntry)
    → workers ≤ n
    → Reach workers n s
    → i < n
    → s.place i ≡ Place.waiting
    → (Elem e s.memory.wheel.heap → s.memory.ends ≤ e.deadline)
      × (Elem e s.memory.wheel.inbox
          → (s.memory.eventfd ≡ true) ⊎ ((j : ℕ) × (j < n) × (is_registered (s.place j) ≡ true)))
no_oversleep workers n s i e le reach lt at =
    let v = Reach-Inv workers n le s reach in
    (
      λ m.
          Above-Elem s.memory.ends e s.memory.wheel.heap
            (subst (Checked s.memory) at (v.checked i lt)) m,
      λ m. elim (Bool-cases s.memory.eventfd) [
        | inl written ↦ inl written
        | inr unwritten ↦ inr (
            count-some is_registered n s.place (
              v.tally.1 (count-pos drives n s.place i lt (ap drives at))
                (Elem-filled e s.memory.wheel.inbox m) unwritten))
      ],
    )
