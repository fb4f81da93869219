-- ===== src/Waker/Client.antt =====
-- `std::task::Waker`, as the callers of `make_waker` and `flag_waker` use it: calls of a vtable over
-- time, beside wakers that are just ids of tasks, and what a vtable has to keep.
use mini_async_runtime.Base.{
  Pick, take_at, Takes, TakesAt, take_at-Takes, ℕ, ◌≡◌, refl, sym, Option, none, some, List, [],
  ◌∷◌, ◌>>=◌, ◌∙◌, ap,
}
use mini_async_runtime.Waker.{
  Vtable, Held, Use, clones, wakes, wakes_by_ref, drops, Call, makes, uses,
}
use mini_async_runtime.Waker.Holding.{ids, pick_ids, take_at-ids}

-- The wakers as ids of tasks, beside what waking changes.
module _ {E : Type 0} (notify : E → ℕ → E) where
  simple_use : Use → E → List ℕ → Pick ℕ → E × List ℕ
  simple_use u e held none = (e, held)
  simple_use clones e held (some (id, rest)) = (e, id ∷ held)
  simple_use wakes e held (some (id, rest)) = (notify e id, rest)
  simple_use wakes_by_ref e held (some (id, rest)) = (notify e id, held)
  simple_use drops e held (some (id, rest)) = (e, rest)

  unfoldable pub simple_calls : E → List ℕ → List Call → E × List ℕ
  unfolding simple_use
  simple_calls e held [] = (e, held)
  simple_calls e held (makes id ∷ cs) = simple_calls e (id ∷ held) cs
  simple_calls e held (uses i u ∷ cs) =
      let (e', held') = simple_use u e held (take_at i held) in simple_calls e' held' cs

module _ {M : Type 0} (v : Vtable M) where
  use_held : Use → M → Held → Pick (ℕ × ℕ) → Option (M × Held)
  use_held u m ws none = some (m, ws)
  use_held clones m ws (some ((p, id), rest)) = do (m', q) ← v.clone m p; some (m', (q, id) ∷ ws)
  use_held wakes m ws (some ((p, id), rest)) = do m' ← v.wake m p; some (m', rest)
  use_held wakes_by_ref m ws (some ((p, id), rest)) = do m' ← v.wake_by_ref m p; some (m', ws)
  use_held drops m ws (some ((p, id), rest)) = do m' ← v.drop m p; some (m', rest)

  pub call : M → Held → Call → Option (M × Held)
  unfolding use_held
  call m ws (makes id) = do (m', p) ← v.make m id; some (m', (p, id) ∷ ws)
  call m ws (uses i u) = use_held u m ws (take_at i ws)

  -- Calls one after the other: none, as soon as one of them is.
  unfoldable pub calls : M → Held → List Call → Option (M × Held)
  calls m ws [] = some (m, ws)
  calls m ws (c ∷ cs) = do (m', ws') ← call m ws c; calls m' ws' cs

-- `Owns m ws`: in memory `m`, all is as the wakers `ws` need it. Each function, at the pointer of one
-- of them, succeeds and keeps that.
pub record Sound {M E : Type 0} (v : Vtable M) (effect : M → E) (notify : E → ℕ → E)
    (Owns : M → Held → Type 0) : Type 0 where
  pub make-Owns :
      (m : M) (ws : Held) (id : ℕ)
      → Owns m ws
      → (m' : M) × (p : ℕ) × (v.make m id ≡ some (m', p))
        × Owns m' ((p, id) ∷ ws)
        × (effect m' ≡ effect m)
  pub clone-Owns :
      (m : M) (ws rest : Held) (p id : ℕ)
      → Owns m ws
      → Takes ws (p, id) rest
      → (m' : M) × (q : ℕ) × (v.clone m p ≡ some (m', q))
        × Owns m' ((q, id) ∷ ws)
        × (effect m' ≡ effect m)
  pub wake-Owns :
      (m : M) (ws rest : Held) (p id : ℕ)
      → Owns m ws
      → Takes ws (p, id) rest
      → (m' : M) × (v.wake m p ≡ some m') × Owns m' rest × (effect m' ≡ notify (effect m) id)
  pub wake_by_ref-Owns :
      (m : M) (ws rest : Held) (p id : ℕ)
      → Owns m ws
      → Takes ws (p, id) rest
      → (m' : M) × (v.wake_by_ref m p ≡ some m') × Owns m' ws × (effect m' ≡ notify (effect m) id)
  pub drop-Owns :
      (m : M) (ws rest : Held) (p id : ℕ)
      → Owns m ws
      → Takes ws (p, id) rest
      → (m' : M) × (v.drop m p ≡ some m') × Owns m' rest × (effect m' ≡ effect m)

module _ {M E : Type 0} (v : Vtable M) (effect : M → E) (notify : E → ℕ → E)
    (Owns : M → Held → Type 0) (sound : Sound v effect notify Owns) where
  -- A call succeeds, with a state that owns its wakers, and agrees with the simple result.
  abbrev pub Agrees : Option (M × Held) → E × List ℕ → Type 0
  Agrees r simple =
      (m : M) × (ws : Held) × (r ≡ some (m, ws)) × Owns m ws × ((effect m, ids ws) ≡ simple)

  use-Agrees :
      (u : Use) (m : M) (ws : Held) (t : Pick (ℕ × ℕ))
      → Owns m ws
      → TakesAt ws t
      → Agrees (use_held v u m ws t) (simple_use notify u (effect m) (ids ws) (pick_ids t))
  unfolding use_held simple_use
  use-Agrees u m ws none o t = (m, ws, refl, o, refl)
  use-Agrees clones m ws (some ((p, id), rest)) o t =
      let (m', q, e, o', same) = sound.clone-Owns m ws rest p id o t in
      (m', (q, id) ∷ ws, rw e, o', rw same)
  use-Agrees wakes m ws (some ((p, id), rest)) o t =
      let (m', e, o', same) = sound.wake-Owns m ws rest p id o t in (m', rest, rw e, o', rw same)
  use-Agrees wakes_by_ref m ws (some ((p, id), rest)) o t =
      let (m', e, o', same) = sound.wake_by_ref-Owns m ws rest p id o t in
      (m', ws, rw e, o', rw same)
  use-Agrees drops m ws (some ((p, id), rest)) o t =
      let (m', e, o', same) = sound.drop-Owns m ws rest p id o t in (m', rest, rw e, o', rw same)

  call-Agrees :
      (c : Call) (cs : List Call) (m : M) (ws : Held)
      → Owns m ws
      → ((m' : M) (ws' : Held)
          → Owns m' ws'
          → Agrees (calls v m' ws' cs) (simple_calls notify (effect m') (ids ws') cs))
      → Agrees (calls v m ws (c ∷ cs)) (simple_calls notify (effect m) (ids ws) (c ∷ cs))
  unfolding calls call simple_calls
  call-Agrees (makes id) cs m ws o then =
      let (m', p, e, o', same) = sound.make-Owns m ws id o in
      let (last, held, runs, owns, agrees) = then m' ((p, id) ∷ ws) o' in
      (last, held, rw (e, runs), owns, agrees ∙ rw same)
  call-Agrees (uses i u) cs m ws o then =
      let (m', ws', e, o', same) = use-Agrees u m ws (take_at i ws) o (take_at-Takes i ws) in
      let (last, held, runs, owns, agrees) = then m' ws' o' in
      (
        last,
        held,
        rw (e, runs),
        owns,
        agrees
            ∙ ap (λ r. simple_calls notify (r.0) (r.1) cs)
                (same ∙ ap (simple_use notify u (effect m) (ids ws)) (sym (take_at-ids i ws))),
      )

  pub calls-Agrees :
      (cs : List Call) (m : M) (ws : Held)
      → Owns m ws
      → Agrees (calls v m ws cs) (simple_calls notify (effect m) (ids ws) cs)
  unfolding calls simple_calls
  calls-Agrees [] m ws o = (m, ws, refl, o, refl)
  calls-Agrees (c ∷ cs) m ws o = call-Agrees c cs m ws o (calls-Agrees cs)
