-- ===== src/Net/Examples.antt =====
-- Tests of src/net.rs, and the theorems about it at concrete inputs.
use mini_async_runtime.Base.{
  ℕ, ◌≡◌, refl, none, some, List, [], ◌∷◌, lookup, arith, Elem, ok, err, ◌==◌, if◌then◌else◌,
}
use mini_async_runtime.Reactor.{poll, register, wait}
use mini_async_runtime.Reactor.Interest.{fires}
use mini_async_runtime.Reactor.Scripted.{ctl, next_batch, scripted, scripted_laws}
use mini_async_runtime.Net.{Sockets, Net, poll_read, bind_with_reactor}
use mini_async_runtime.Net.Pending.{reads, poll_call, pending-woken}

-- Each read takes what has arrived, and a socket takes each write whole. Nobody connects, and
-- descriptor 9 cannot be made non-blocking.
abbrev one_stream : Sockets
one_stream = record {
  State = List ℕ;
  bind = λ s addr. (s, ok addr);
  connect = λ s addr. (s, err 111);
  accept = λ s fd. (s, err 11);
  read = λ s fd size. elim s [ [] ↦ ([], err 11) | b ∷ bs ↦ ([], ok (b ∷ bs)) ];
  write = λ s fd buf. (buf, ok 1);
  getfl = λ s fd. if fd == 9 then err 9 else ok 2;
  setfl = λ s fd flags. (s, ok tt);
  close = λ s fd. 1000 ∷ [];
  local_addr = λ s fd. ok fd;
  peer_addr = λ s fd. ok fd;
}

abbrev silent : Net one_stream scripted ℕ
silent = record {
  sockets = [];
  reactor = record {
    registrations = [];
    wake_fd = 3;
    kernel = record {
      list = λ q. if 3 == q then some 1 else none;
      batches = (record { fd = 7; events = 0x1 } ∷ []) ∷ [];
    };
  };
}

-- A socket that cannot be made non-blocking is closed.
bind-closed :
    (bind_with_reactor one_stream [] 9 ≡ (1000 ∷ [], err 9))
    × (bind_with_reactor one_stream [] 8 ≡ ([], ok 8))
unfolding bind_with_reactor
bind-closed = (refl, refl)

pending-woken_example :
    Elem 20
      (poll scripted (poll_call one_stream scripted (reads 64) silent 7 20).0.reactor none).woken
unfolding poll_call poll_read register ctl lookup wait next_batch fires
pending-woken_example =
    pending-woken one_stream scripted scripted_laws (reads 64) silent 7 20 none _ refl (omega arith)
      refl refl
