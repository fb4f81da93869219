-- ===== src/Reactor/Scripted.antt =====
-- A small kernel for tests of src/reactor.rs: an interest list, and events from a script.
use mini_async_runtime.Base.{
  ℕ, ◌≡◌, ◌≢◌, refl, ◌&&◌, false, Option, none, some, List, [], ◌∷◌, is_some, contains, Result, ok,
  err, arith, ◌==◌, if◌then◌else◌,
}
use mini_async_runtime.Reactor.Epoll.{Kernel, CtlOp, add, modify, delete, Event}
use mini_async_runtime.Reactor.Armed.{fds, Lawful}

-- The interest list, and the batches of events to come.
pub record Script : Type 0 where
  pub list : ℕ → Option ℕ
  pub batches : List (List Event)

set_mask : Script → ℕ → Option ℕ → Script
set_mask s fd mask = record s { list = λ q. if fd == q then mask else s.list q }

unfoldable pub ctl : Script → CtlOp → ℕ → ℕ → Script × Result (Unit {0}) ℕ
unfolding set_mask
ctl s add fd mask = if is_some (s.list fd) then (s, err 17) else (set_mask s fd (some mask), ok tt)
ctl s modify fd mask =
    if is_some (s.list fd) then (set_mask s fd (some mask), ok tt) else (s, err 2)
ctl s delete fd mask = if is_some (s.list fd) then (set_mask s fd none, ok tt) else (s, err 2)

disable : (ℕ → Option ℕ) → List Event → ℕ → Option ℕ
disable list events q = if contains q (fds events) && is_some (list q) then some 0 else list q

unfoldable pub next_batch : Script → List (List Event) → Script × Result (List Event) ℕ
unfolding disable
next_batch s [] = (s, ok [])
next_batch s (events ∷ batches) =
    (record { list = disable s.list events; batches = batches }, ok events)

abbrev pub scripted : Kernel
scripted = record {
  State = Script;
  epoll_create = λ s. (s, ok tt);
  eventfd = λ s. (s, ok 3);
  epoll_ctl = ctl;
  epoll_wait = λ s _ _. next_batch s s.batches;
  eventfd_write = λ s. s;
  eventfd_read = λ s. s;
  close_epoll = λ s. s;
  close = λ s _. s;
}

ctl_sets :
    (s : Script) (op : CtlOp) (fd mask : ℕ)
    → op ≢ delete
    → (ctl s op fd mask).1 ≡ ok tt
    → (ctl s op fd mask).0.list fd ≡ some mask
unfolding ctl
ctl_sets s add fd mask ne h = ground arith
ctl_sets s modify fd mask ne h = ground arith
ctl_sets s delete fd mask ne h = absurd (ne refl)

ctl_fails :
    (s : Script) (op : CtlOp) (fd mask e q : ℕ)
    → (ctl s op fd mask).1 ≡ err e
    → (ctl s op fd mask).0.list q ≡ s.list q
unfolding ctl
ctl_fails s add fd mask e q h = ground arith
ctl_fails s modify fd mask e q h = ground arith
ctl_fails s delete fd mask e q h = ground arith

ctl_others :
    (s : Script) (op : CtlOp) (fd mask q : ℕ) → q ≢ fd → (ctl s op fd mask).0.list q ≡ s.list q
unfolding ctl
ctl_others s add fd mask q h = ground arith
ctl_others s modify fd mask q h = ground arith
ctl_others s delete fd mask q h = ground arith

batch_keeps :
    (s : Script) (bs : List (List Event)) (events : List Event) (q : ℕ)
    → (next_batch s bs).1 ≡ ok events
    → contains q (fds events) ≡ false
    → (next_batch s bs).0.list q ≡ s.list q
unfolding next_batch
batch_keeps s [] events q h c = refl
batch_keeps s (es ∷ bs) events q h c =
    let e : es ≡ events = cc in let free : contains q (fds es) ≡ false = rw e c in ground arith

batch_lists :
    (s : Script) (bs : List (List Event)) (q : ℕ)
    → is_some ((next_batch s bs).0.list q) ≡ is_some (s.list q)
unfolding next_batch
batch_lists s [] q = refl
batch_lists s (es ∷ bs) q = ground arith

batch_fails : (s : Script) (bs : List (List Event)) (e : ℕ) → (next_batch s bs).1 ≢ err e
unfolding next_batch
batch_fails s [] e h = cc
batch_fails s (es ∷ bs) e h = cc

pub scripted_laws : Lawful scripted
scripted_laws = record {
  armed = λ s q. s.list q;
  ctl_sets = ctl_sets;
  ctl_fails = ctl_fails;
  ctl_others = ctl_others;
  wait_keeps = λ s _ _ events q. batch_keeps s s.batches events q;
  wait_lists = λ s _ _ q. batch_lists s s.batches q;
  wait_fails = λ s _ _ e q h. absurd (batch_fails s s.batches e h);
  read_keeps = λ s q. refl;
  write_keeps = λ s q. refl;
}
