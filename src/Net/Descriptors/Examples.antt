-- ===== src/Net/Descriptors/Examples.antt =====
-- src/net.rs: a listener that accepts a stream, an address that cannot be bound, and drops.
use mini_async_runtime.Base.{
  ℕ, suc, ◌+◌, ◌<◌, ◌≡◌, refl, Bool, false, not, ◌&&◌, ◌==◌, ==_iff, arith, none, some, List, [],
  ◌∷◌, contains, ok, err, if◌then◌else◌, Bool-cases, inl, inr, by-true, by-false, lookup, take_at,
}
use mini_async_runtime.Reactor.Scripted.{scripted}
use mini_async_runtime.Net.{Sockets, Net, tcp_listen, poll_accept}
use mini_async_runtime.Net.Descriptors.{
  Opens, Descriptors, Call, listens, uses, accepts, reads, drops, waits, calls,
}
use mini_async_runtime.Net.Descriptors.Owned.{Owned, calls-Owned}

abbrev sum : List ℕ → ℕ
sum [] = 0
sum (x ∷ xs) = x + sum xs

abbrev without : ℕ → List ℕ → List ℕ
without fd [] = []
without fd (x ∷ xs) = let rest = without fd xs in if fd == x then rest else x ∷ rest

above_absent : (fd : ℕ) (s : List ℕ) → sum s < fd → contains fd s ≡ false
above_absent fd [] lt = refl
above_absent fd (x ∷ s) lt = ground (arith, above_absent fd s, ==_iff fd x)

contains-without :
    (fd j : ℕ) (s : List ℕ) → contains j (without fd s) ≡ (contains j s && not (j == fd))
contains-without fd j [] = refl
contains-without fd j (x ∷ s) = ground (arith, contains-without fd j s, ==_iff fd x, ==_iff j x)

-- The open sockets, and the number of failed calls of `close`. A new socket has a number above all
-- of them. Address 0 is in use, nobody else answers, and each listener has a peer that connects.
record Table : Type 0 where
  sockets : List ℕ
  failed : ℕ

abbrev fresh : Table → ℕ
fresh s = suc (sum s.sockets)

abbrev grown : Table → Table
grown s = record s { sockets = fresh s ∷ s.sockets }

abbrev numbered : Sockets
numbered = record {
  State = Table;
  bind = λ s addr. if addr == 0 then (s, err 98) else (grown s, ok (fresh s));
  connect = λ s addr. (s, err 111);
  accept = λ s fd. (grown s, ok (fresh s, 8080));
  read = λ s fd size. (s, err 11);
  write = λ s fd buf. (s, ok 1);
  getfl = λ s fd. ok 2;
  setfl = λ s fd flags. (s, ok tt);
  close = λ s fd. record {
    sockets = without fd s.sockets;
    failed = if contains fd s.sockets then s.failed else suc s.failed;
  };
  local_addr = λ s fd. ok fd;
  peer_addr = λ s fd. ok fd;
}

abbrev opens : Table → ℕ → Bool
opens s j = contains j s.sockets

abbrev failed : Table → ℕ
failed s = s.failed

fresh-Opens : (s : Table) → Opens numbered opens failed s (grown s, ok (fresh s))
fresh-Opens s = (above_absent (fresh s) s.sockets (omega arith), (λ j. ground arith), refl)

bind-Opens : (s : Table) (addr : ℕ) → Opens numbered opens failed s (numbered.bind s addr)
bind-Opens s addr = elim (Bool-cases (addr == 0)) [
  | inl used ↦ by-true (Opens numbered opens failed s) _ used ((λ j. refl), refl)
  | inr other ↦ by-false (Opens numbered opens failed s) _ other (fresh-Opens s)
]

abbrev descriptors : Descriptors numbered
descriptors = record {
  opens = opens;
  bad_closes = failed;
  bind-Opens = bind-Opens;
  connect-Opens = λ s addr. ((λ j. refl), refl);
  accept-Opens = λ s fd. fresh-Opens s;
  read-opens = λ s fd size j. refl;
  write-opens = λ s fd buf j. refl;
  setfl-opens = λ s fd flags j. refl;
  close-opens = λ s fd j. contains-without fd j s.sockets;
  read-bad_closes = λ s fd size. refl;
  write-bad_closes = λ s fd buf. refl;
  setfl-bad_closes = λ s fd flags. refl;
  close-bad_closes = λ s fd. refl;
}

abbrev nothing : Net numbered scripted ℕ
nothing = record {
  sockets = record { sockets = []; failed = 0 };
  reactor = record {
    registrations = [];
    wake_fd = 3;
    kernel = record { list = λ q. if 3 == q then some 1 else none; batches = [] };
  };
}

abbrev session : List (Call ℕ)
session =
    listens 80
    ∷ listens 0
    ∷ uses 0 (accepts 5)
    ∷ uses 0 (reads 64 5)
    ∷ waits none
    ∷ uses 0 drops
    ∷ []

calls-Owned_example :
    let (out, held) = calls numbered scripted (nothing, []) session in
    Owned numbered descriptors scripted out held
unfolding lookup
calls-Owned_example = calls-Owned numbered descriptors scripted nothing [] session (record {
  distinct = refl;
  opens = λ j. refl;
  registered = λ j h. absurd (ground arith);
  closes = refl;
})

-- The listener, with socket 1, is left.
session-held : (calls numbered scripted (nothing, []) session).1 ≡ 1 ∷ []
unfolding calls take_at tcp_listen poll_accept
session-held = refl
