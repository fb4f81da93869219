-- ===== src/Waker/Flag/Refines.antt =====
-- src/runtime.rs, `flag_waker`: its wakers beside a flag that is just set.
use mini_async_runtime.Base.{
  Takes, front, later, Takes-length, ℕ, suc, ◌+◌, ◌≡◌, refl, Bool, true, false, some, List, [],
  ◌>>=◌, length, All, ◌==◌, ==_iff, arith,
}
use mini_async_runtime.Waker.{Held, Call}
use mini_async_runtime.Waker.Holding.{ids}
use mini_async_runtime.Waker.Client.{Sound, calls, simple_calls, calls-Agrees}
use mini_async_runtime.Waker.Flag.{
  Memory, from_raw, rc_clone, set, rc_drop, flag_waker, clone, wake, wake_by_ref, drop, vtable,
}

abbrev pub set_flag : Bool → ℕ → Bool
set_flag flag id = true

-- Each waker points to the flag, and the `Rc` counts the wakers and `owners` others.
record Owns (owners : ℕ) (m : Memory) (ws : Held) : Type 0 where
  points : All (λ w. w.0 ≡ m.address) ws
  counted : m.strong ≡ owners + length ws

Takes-All :
    {A : Type 0} (P : A → Type 0) {xs ys : List A} {y : A}
    → Takes xs y ys
    → All P xs
    → P y × All P ys
Takes-All P front h = h
Takes-All P (later t) h = let (hy, hs) = Takes-All P t (h.1) in (hy, (h.0, hs))

vtable-Sound : (k : ℕ) → Sound vtable Memory.flag set_flag (Owns (suc k))
unfolding flag_waker clone wake wake_by_ref drop from_raw rc_clone set rc_drop
vtable-Sound k =
    let points =
      λ (m : Memory) (ws rest : Held) (p id : ℕ) (o : Owns (suc k) m ws)
          (t : Takes ws (p, id) rest).
        Takes-All (λ w. w.0 ≡ m.address) t o.points in
    let same = λ (a b : ℕ) (e : a ≡ b). let t : (a == b) ≡ true = ground (arith, ==_iff a b) in t in
    let live = λ (m : Memory) (ws : Held) (o : Owns (suc k) m ws).
      let e : m.strong ≡ suc (k + length ws) = ground (arith, o.counted) in e in
    record {
      make-Owns = λ m ws id o. (
        record m { strong = suc (suc (k + length ws)) },
        m.address,
        rw (live m ws o),
        record { points = (refl, o.points); counted = omega arith },
        refl,
      );
      clone-Owns = λ m ws rest p id o t. (
        record m { strong = suc (suc (k + length ws)) },
        m.address,
        rw (same p m.address (points m ws rest p id o t).0, live m ws o, ◌>>=◌, live m ws o),
        record { points = (refl, o.points); counted = omega arith },
        refl,
      );
      wake-Owns = λ m ws rest p id o t. (
        record m { strong = k + length ws; flag = true },
        rw (same p m.address (points m ws rest p id o t).0, live m ws o, ◌>>=◌, live m ws o),
        record { points = (points m ws rest p id o t).1; counted = ground (arith, Takes-length t) },
        refl,
      );
      wake_by_ref-Owns = λ m ws rest p id o t. (
        record m { flag = true },
        rw (same p m.address (points m ws rest p id o t).0, live m ws o, ◌>>=◌, live m ws o),
        record { points = o.points; counted = o.counted },
        refl,
      );
      drop-Owns = λ m ws rest p id o t. (
        record m { strong = k + length ws },
        rw (same p m.address (points m ws rest p id o t).0, live m ws o, ◌>>=◌, live m ws o),
        record { points = (points m ws rest p id o t).1; counted = ground (arith, Takes-length t) },
        refl,
      );
    }

-- Whatever a program does with the wakers of a flag that something else holds too: no call uses the
-- flag after it is freed, the flag is as if each wake-up just set it, and the `Rc` counts the wakers
-- that are left and its other owners.
pub flag_wakers_safe :
    (k : ℕ) (address : ℕ) (cs : List Call)
    → (m : Memory) × (ws : Held) × (calls vtable
          (record { address = address; strong = suc k; flag = false })
          []
          cs
        ≡ some (m, ws))
      × ((m.flag, ids ws) ≡ simple_calls set_flag false [] cs)
      × (m.strong ≡ suc k + length ws)
flag_wakers_safe k address cs =
    let start : Memory = record { address = address; strong = suc k; flag = false } in
    let (m, ws, runs, owns, agrees) =
      calls-Agrees vtable Memory.flag set_flag (Owns (suc k)) (vtable-Sound k) cs start []
        (record { points = tt; counted = omega arith }) in
    (m, ws, runs, agrees, owns.counted)
