-- ===== src/Timer/Shuffled.antt =====
-- src/timer.rs and src/multi_thread/timer.rs: what `process` does of a heap, whatever the order of its
-- equal entries.
use mini_async_runtime.Base.{
  ℕ, ◌≤◌, ◌≡◌, refl, ◌∙◌, Bool, true, false, Option, none, some, List, [], ◌∷◌, ◌++◌, to_list, leb,
  if◌then◌else◌, arith, contains, is_nodup, is_nil, All, Permutes, none_left, keeps, swaps, follows,
  Permutes-refl, Permutes-sym, Permutes-append,
}
use mini_async_runtime.Timer.{TimerEntry, TimerState}
use mini_async_runtime.Timer.Sorted.{Above, refs}
use mini_async_runtime.Timer.Process.{expired, remaining, until_next, stored}

pub contains-shuffled :
    {h k : List TimerEntry} → Permutes h k → (r : ℕ) → contains r (refs h) ≡ contains r (refs k)
contains-shuffled none_left r = refl
contains-shuffled (keeps x p) r = ground (arith, contains-shuffled p r)
contains-shuffled (swaps x y h) r = ground arith
contains-shuffled (follows p q) r = contains-shuffled p r ∙ contains-shuffled q r

pub nodup-shuffled :
    {h k : List TimerEntry} → Permutes h k → is_nodup (refs h) ≡ true → is_nodup (refs k) ≡ true
nodup-shuffled none_left n = n
nodup-shuffled (keeps x p) n = ground (arith, nodup-shuffled p, contains-shuffled p x.state)
nodup-shuffled (swaps x y h) n = ground arith
nodup-shuffled (follows p q) n = nodup-shuffled q (nodup-shuffled p n)

pub is_nil-shuffled : {h k : List TimerEntry} → Permutes h k → is_nil h ≡ is_nil k
is_nil-shuffled none_left = refl
is_nil-shuffled (keeps x p) = refl
is_nil-shuffled (swaps x y h) = refl
is_nil-shuffled (follows p q) = is_nil-shuffled p ∙ is_nil-shuffled q

with_if :
    (b : Bool) (x : TimerEntry) {h k : List TimerEntry}
    → Permutes h k
    → Permutes (if b then x ∷ h else h) (if b then x ∷ k else k)
with_if true x p = keeps x p
with_if false x p = p

without_if :
    (b : Bool) (x : TimerEntry) {h k : List TimerEntry}
    → Permutes h k
    → Permutes (if b then h else x ∷ h) (if b then k else x ∷ k)
without_if true x p = p
without_if false x p = keeps x p

with_both :
    (b c : Bool) (x y : TimerEntry) (h : List TimerEntry)
    → Permutes
        (if b then x ∷ (if c then y ∷ h else h) else (if c then y ∷ h else h))
        (if c then y ∷ (if b then x ∷ h else h) else (if b then x ∷ h else h))
with_both true true x y h = swaps x y h
with_both true false x y h = Permutes-refl (x ∷ h)
with_both false true x y h = Permutes-refl (y ∷ h)
with_both false false x y h = Permutes-refl h

without_both :
    (b c : Bool) (x y : TimerEntry) (h : List TimerEntry)
    → Permutes
        (if b then (if c then h else y ∷ h) else x ∷ (if c then h else y ∷ h))
        (if c then (if b then h else x ∷ h) else y ∷ (if b then h else x ∷ h))
without_both true true x y h = Permutes-refl h
without_both true false x y h = Permutes-refl (y ∷ h)
without_both false true x y h = Permutes-refl (x ∷ h)
without_both false false x y h = swaps x y h

pub expired-shuffled :
    (now : ℕ) {h k : List TimerEntry} → Permutes h k → Permutes (expired now h) (expired now k)
unfolding expired
expired-shuffled now none_left = none_left
expired-shuffled now (keeps x p) = with_if (leb x.deadline now) x (expired-shuffled now p)
expired-shuffled now (swaps x y h) =
    with_both (leb x.deadline now) (leb y.deadline now) x y (expired now h)
expired-shuffled now (follows p q) = follows (expired-shuffled now p) (expired-shuffled now q)

pub remaining-shuffled :
    (now : ℕ) {h k : List TimerEntry} → Permutes h k → Permutes (remaining now h) (remaining now k)
unfolding remaining
remaining-shuffled now none_left = none_left
remaining-shuffled now (keeps x p) = without_if (leb x.deadline now) x (remaining-shuffled now p)
remaining-shuffled now (swaps x y h) =
    without_both (leb x.deadline now) (leb y.deadline now) x y (remaining now h)
remaining-shuffled now (follows p q) = follows (remaining-shuffled now p) (remaining-shuffled now q)

-- No entry is before `d`.
abbrev From : ℕ → List TimerEntry → Type 0
From d = All (λ e. d ≤ e.deadline)

Above-From : (d c : ℕ) (h : List TimerEntry) → d ≤ c → Above c h → From d h
Above-From d c [] le a = tt
Above-From d c (e ∷ h) le a = (omega arith, Above-From d e.deadline h (omega arith) a.1)

From-shuffled : (d : ℕ) {h k : List TimerEntry} → Permutes h k → From d h → From d k
From-shuffled d none_left f = tt
From-shuffled d (keeps x p) f = (f.0, From-shuffled d p f.1)
From-shuffled d (swaps x y h) f = (f.1.0, (f.0, f.1.1))
From-shuffled d (follows p q) f = From-shuffled d q (From-shuffled d p f)

-- In order, the first entries have the same deadline.
pub until_next-shuffled :
    (now : ℕ) (h k : List TimerEntry)
    → Permutes h k
    → Above 0 h
    → Above 0 k
    → until_next now h ≡ until_next now k
until_next-shuffled now [] [] p a b = refl
until_next-shuffled now [] (y ∷ k) p a b = absurd (ground (arith, is_nil-shuffled p))
until_next-shuffled now (x ∷ h) [] p a b = absurd (ground (arith, is_nil-shuffled p))
until_next-shuffled now (x ∷ h) (y ∷ k) p a b =
    let first =
      From-shuffled x.deadline p
        (Above-From x.deadline x.deadline (x ∷ h) (omega arith) (omega arith, a.1)) in
    let other =
      From-shuffled y.deadline (Permutes-sym p)
        (Above-From y.deadline y.deadline (y ∷ k) (omega arith) (omega arith, b.1)) in
    ground (arith, first.0, other.0)

module _ {W : Type 0} where
  swapped :
      (v w : Option W) (rest : List W)
      → Permutes (to_list v ++ (to_list w ++ rest)) (to_list w ++ (to_list v ++ rest))
  swapped none w rest = Permutes-refl (to_list w ++ rest)
  swapped (some x) none rest = Permutes-refl (x ∷ rest)
  swapped (some x) (some y) rest = swaps x y rest

  pub stored-shuffled :
      (cells : ℕ → TimerState W) {h k : List TimerEntry}
      → Permutes h k
      → Permutes (stored cells h) (stored cells k)
  unfolding stored
  stored-shuffled cells none_left = none_left
  stored-shuffled cells (keeps x p) =
      Permutes-append (to_list (cells x.state).waker) (stored-shuffled cells p)
  stored-shuffled cells (swaps x y h) =
      swapped (cells x.state).waker (cells y.state).waker (stored cells h)
  stored-shuffled cells (follows p q) = follows (stored-shuffled cells p) (stored-shuffled cells q)

  pub stored-same :
      (c d : ℕ → TimerState W) (h : List TimerEntry)
      → ((q : ℕ) → c q ≡ d q)
      → stored c h ≡ stored d h
  unfolding stored
  stored-same c d [] same = refl
  stored-same c d (e ∷ h) same = rw (same e.state, stored-same c d h same)
