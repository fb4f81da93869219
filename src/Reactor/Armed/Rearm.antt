-- ===== src/Reactor/Armed/Rearm.antt =====
-- src/reactor.rs: the masks in the kernel after `poll`, and the re-arms that the kernel refuses.
use mini_async_runtime.Base.{
  Result-cases, ℕ, ◌≡◌, ◌≢◌, refl, subst, ◌∙◌, Bool, true, false, ◌||◌, if◌then◌else◌, Option, none,
  some, List, [], ◌∷◌, is_some, contains, Result, ok, err, lookup, insert, lookup-insert, arith,
  ◌==◌, ==_iff, inl, inr, Bool-cases, Option-cases,
}
use mini_async_runtime.Reactor.Epoll.{Kernel, modify, Event, eintr}
use mini_async_runtime.Reactor.Interest.{
  Registration, interest, oneshot, fires, left, readable, writable,
}
use mini_async_runtime.Reactor.{Reactor, dispatch, handle_event, handle_events, wait}
use mini_async_runtime.Reactor.Armed.{fds, Lawful, Covered, lookup-insert_cases}

abbrev pub Listed : {W : Type 0} → Option ℕ → Option (Registration W) → Type 0
Listed mask none = Unit
Listed mask (some reg) = is_some mask ≡ true

abbrev pub update : (ℕ → Bool) → ℕ → Bool → ℕ → Bool
update set fd b q = if fd == q then b else set q

abbrev pub is_err : {A E : Type 0} → Result A E → Bool
is_err (ok a) = false
is_err (err e) = true

ok_of : (o : Result (Unit {0}) ℕ) → is_err o ≡ false → o ≡ ok tt
ok_of (ok tt) h = refl
ok_of (err e) h = absurd (ground arith)

-- What an event leaves of a registration.
abbrev left_reg : {W : Type 0} → Event → Registration W → Registration W
left_reg event reg = record {
  read_waker = left (fires event.events readable) reg.read_waker;
  write_waker = left (fires event.events writable) reg.write_waker;
}

-- The descriptors of events in hand, and those that stay disarmed.
abbrev pub pending : List Event → (ℕ → Bool) → ℕ → Bool
pending events unarmed q = contains q (fds events) || unarmed q

module _ (K : Kernel) {W : Type 0} where
  -- The kernel refuses to arm the descriptor of an event for the directions that are left.
  abbrev refuses_reg : Reactor K W → Event → Registration W → Bool
  refuses_reg r event reg =
      let mask = interest (left_reg event reg) in
      if mask == 0 then false else is_err (K.epoll_ctl r.kernel modify event.fd (oneshot mask)).1

  unfoldable pub refuses : Reactor K W → Event → Bool
  refuses r event =
      if event.fd == r.wake_fd then false else elim (lookup event.fd r.registrations) [
        | none ↦ false
        | some reg ↦ refuses_reg r event reg
      ]

  -- Of events handled one after the other: the descriptors that they leave disarmed, where those in
  -- `unarmed` were so before.
  abbrev pub refusals : Reactor K W → List Event → (ℕ → Bool) → ℕ → Bool
  refusals r [] unarmed = unarmed
  refusals r (event ∷ events) unarmed =
      refusals (handle_event K r event).0 events (update unarmed event.fd (refuses r event))

module _ {K : Kernel} {W : Type 0} (laws : Lawful K) where
  open laws use {armed}

  -- Agreement, but for the masks of the descriptors in `todo`: those whose events are still to be
  -- handled, and those that the kernel has refused to arm again.
  pub record IsRearming (todo : ℕ → Bool) (r : Reactor K W) : Type 0 where
    pub covered : (q : ℕ) → todo q ≡ false → Covered (armed r.kernel q) (lookup q r.registrations)
    pub listed : (q : ℕ) → Listed (armed r.kernel q) (lookup q r.registrations)
    pub unwatched : lookup r.wake_fd r.registrations ≡ none

  pub IsRearming-weaken :
      (todo more : ℕ → Bool) (r : Reactor K W)
      → ((q : ℕ) → more q ≡ false → todo q ≡ false)
      → IsRearming todo r
      → IsRearming more r
  IsRearming-weaken todo more r sub v = record {
    covered = λ q free. v.covered q (sub q free);
    listed = v.listed;
    unwatched = v.unwatched;
  }

  -- `reg` is the registration left by an event, `k` the kernel after the descriptor was armed again,
  -- unless that was `refused`.
  IsRearming-insert :
      (todo : ℕ → Bool) (r : Reactor K W) (fd : ℕ) (reg : Registration W) (k : K.State)
      (refused : Bool)
      → (fd == r.wake_fd) ≡ false
      → is_some (armed k fd) ≡ true
      → (refused ≡ false → Covered (armed k fd) (some reg))
      → ((q : ℕ) → q ≢ fd → armed k q ≡ armed r.kernel q)
      → IsRearming todo r
      → IsRearming
          (update todo fd refused)
          (record r { registrations = insert fd reg r.registrations; kernel = k })
  IsRearming-insert todo r fd reg k refused other there here others v = record {
    covered = λ q free. elim (Bool-cases (fd == q)) [
      | inl same ↦
          let e : fd ≡ q = (==_iff fd q).0 same in
          rw (lookup-insert fd q reg r.registrations, same)
            (subst (λ p. Covered (armed k p) (some reg)) e (here (ground arith)))
      | inr different ↦
          rw (lookup-insert fd q reg r.registrations, different, others q (ground arith))
            (v.covered q (ground arith))
    ];
    listed = λ q.
        lookup-insert_cases Listed (armed r.kernel) (armed k) r.registrations fd q reg there
          (λ ne. (others q ne, v.listed q));
    unwatched = rw (lookup-insert fd r.wake_fd reg r.registrations) (ground (arith, v.unwatched));
  }

  listed_after :
      (r : Reactor K W) (fd mask : ℕ)
      → is_some (armed r.kernel fd) ≡ true
      → is_some (armed (K.epoll_ctl r.kernel modify fd mask).0 fd) ≡ true
  listed_after r fd mask old = elim (Result-cases (K.epoll_ctl r.kernel modify fd mask).1) [
    | inl (_, set) ↦ rw (laws.ctl_sets r.kernel modify fd mask (λ e. cc) set)
    | inr (e, failed) ↦ rw (laws.ctl_fails r.kernel modify fd mask e fd failed) old
  ]

  dispatch-IsRearming :
      (todo : ℕ → Bool) (r : Reactor K W) (event : Event) (reg : Registration W)
      → (event.fd == r.wake_fd) ≡ false
      → lookup event.fd r.registrations ≡ some reg
      → IsRearming todo r
      → IsRearming (update todo event.fd (refuses_reg K r event reg)) (dispatch K r event reg).0
  unfolding dispatch
  dispatch-IsRearming todo r event reg other found v =
      let reg' = left_reg event reg in
      let mask = oneshot (interest reg') in
      let old : is_some (armed r.kernel event.fd) ≡ true = rw found at (v.listed event.fd) in
      elim (Bool-cases (interest reg' == 0)) [
        | inl nothing ↦ rw nothing (
            IsRearming-insert todo r event.fd reg' r.kernel false other old
              (λ _. (old, λ ne. absurd (ground arith))) (λ q ne. refl) v)
        | inr something ↦
            let k = (K.epoll_ctl r.kernel modify event.fd mask).0 in
            let there = listed_after r event.fd mask old in
            rw something (
              IsRearming-insert todo r event.fd reg' k
                (is_err (K.epoll_ctl r.kernel modify event.fd mask).1) other there
                (λ accepted.
                  let set =
                    laws.ctl_sets r.kernel modify event.fd mask (λ e. cc)
                      (ok_of (K.epoll_ctl r.kernel modify event.fd mask).1 accepted) in
                  (there, λ _. set))
                (λ q ne. laws.ctl_others r.kernel modify event.fd mask q ne) v)
      ]

  -- An event of a descriptor that is not registered leaves nothing to arm.
  IsRearming-skip :
      (todo : ℕ → Bool) (r : Reactor K W) (fd : ℕ) (refused : Bool)
      → lookup fd r.registrations ≡ none
      → IsRearming todo r
      → IsRearming (update todo fd refused) r
  IsRearming-skip todo r fd refused missing v = record {
    covered = λ q free. elim (Bool-cases (fd == q)) [
      | inl same ↦
          let e : lookup q r.registrations ≡ none =
            subst (λ p. lookup p r.registrations ≡ none) ((==_iff fd q).0 same) missing in
          rw e tt
      | inr different ↦ v.covered q (ground arith)
    ];
    listed = v.listed;
    unwatched = v.unwatched;
  }

  handle_event-IsRearming :
      (todo : ℕ → Bool) (r : Reactor K W) (event : Event)
      → IsRearming todo r
      → IsRearming (update todo event.fd (refuses K r event)) (handle_event K r event).0
  unfolding handle_event refuses
  handle_event-IsRearming todo r event v = elim (Bool-cases (event.fd == r.wake_fd)) [
    | inl own ↦
        let own_fd = (==_iff event.fd r.wake_fd).0 own in
        let s = IsRearming-skip todo r event.fd false (rw own_fd v.unwatched) v in
        rw own (record {
          covered = λ q free. rw (laws.read_keeps r.kernel q) (s.covered q free);
          listed = λ q. rw (laws.read_keeps r.kernel q) (v.listed q);
          unwatched = v.unwatched;
        })
    | inr other ↦ rw other (elim (Option-cases (lookup event.fd r.registrations)) [
      | inl missing ↦
          rw (missing, handle_event, refuses) (IsRearming-skip todo r event.fd false missing v)
      | inr (reg, found) ↦
          rw (found, handle_event, refuses) (dispatch-IsRearming todo r event reg other found v)
    ])
  ]

  pub handle_events-IsRearming :
      (r : Reactor K W) (events : List Event) (unarmed : ℕ → Bool)
      → IsRearming (pending events unarmed) r
      → IsRearming (refusals K r events unarmed) (handle_events K r events).0
  unfolding handle_events
  handle_events-IsRearming r [] unarmed v = v
  handle_events-IsRearming r (event ∷ events) unarmed v =
      let left = update unarmed event.fd (refuses K r event) in
      handle_events-IsRearming (handle_event K r event).0 events left (
        IsRearming-weaken (update (pending (event ∷ events) unarmed) event.fd (refuses K r event))
          (pending events left) (handle_event K r event).0
          (λ q free. ground (arith, ==_iff event.fd q, ==_iff q event.fd))
          (handle_event-IsRearming (pending (event ∷ events) unarmed) r event v))

  Listed-agree :
      (mask new : Option ℕ) (found : Option (Registration W))
      → is_some new ≡ is_some mask
      → Listed mask found
      → Listed new found
  Listed-agree mask new none e l = tt
  Listed-agree mask new (some reg) e l = e ∙ l

  -- What `Epoll::wait` leaves, for the events that it gives.
  abbrev pub Waited : (ℕ → Bool) → Reactor K W → K.State × Result (List Event) ℕ → Type 0
  Waited unarmed r (k, ok events) = IsRearming (pending events unarmed) (record r { kernel = k })
  Waited unarmed r (k, err e) = IsRearming unarmed (record r { kernel = k })

  pub wait-Waited :
      (unarmed : ℕ → Bool) (r : Reactor K W) (timeout : Option ℕ)
      → IsRearming unarmed r
      → Waited unarmed r (wait K r.kernel timeout)
  unfolding wait
  wait-Waited unarmed r timeout v =
      let keeps = laws.wait_keeps r.kernel 64 timeout in
      let fails = laws.wait_fails r.kernel 64 timeout in
      elim (Result-cases (K.epoll_wait r.kernel 64 timeout).1) [
        | inl (events, some_events) ↦
            rw (some_events, wait)
              (record {
                covered = λ q free.
                    rw (keeps events q some_events (ground arith)) (v.covered q (ground arith));
                listed = λ q.
                    Listed-agree (armed r.kernel q) _ (lookup q r.registrations)
                      (laws.wait_lists r.kernel 64 timeout q) (v.listed q);
                unwatched = v.unwatched;
              })
        | inr (e, failed) ↦
            rw (failed, wait)
              (elim (Bool-cases (e == eintr)) [
                | inl interrupted ↦ rw interrupted (record {
                  covered = λ q free. rw (fails e q failed) (v.covered q free);
                  listed = λ q. rw (fails e q failed) (v.listed q);
                  unwatched = v.unwatched;
                })
                | inr broken ↦ rw broken (record {
                  covered = λ q free. rw (fails e q failed) (v.covered q free);
                  listed = λ q. rw (fails e q failed) (v.listed q);
                  unwatched = v.unwatched;
                })
              ])
      ]
