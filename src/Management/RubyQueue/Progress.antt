-- ===== src/Management/RubyQueue/Progress.antt =====
-- How the thread of `loop` gets on: ext/ruble/management/RubyQueue.cpp, with the other threads in between or without them.
use ru_ble.Base.{
  ℕ, ◌+◌, ◌-◌, ◌≤◌, ◌≡◌, ◌≢◌, refl, sym, subst, Bool, true, false, arith, ◌⊎◌, inl, inr,
}
use ru_ble.Management.RubyQueue.Invariant.{Reach-Inv, count}
use ru_ble.Management.RubyQueue.Safety.{take_safe}
use ru_ble.Management.RubyQueue.Threads.{
  Pc, System, Move, Reach, Steps, here, next, absent, created, locked, latched, at_test, at_acquire,
  at_recheck, at_take, at_call, leaving, unlocking, finished, lock, release_latch, set_running,
  test_go, test_stop, acquire, recheck_go, recheck_stop, take_item, call_item, clear_running,
  unlock,
}

module _ {ℓ} {A : Type ℓ} where
  -- How many it can still make once `stop` was called.
  abbrev pub rank : Pc A → ℕ
  rank absent = 6
  rank created = 6
  rank locked = 5
  rank latched = 4
  rank at_test = 3
  rank at_acquire = 4
  rank at_recheck = 3
  rank at_take = 5
  rank (at_call _) = 4
  rank (leaving _) = 2
  rank (unlocking _) = 1
  rank (finished _) = 0

  pub rank-le : (p : Pc A) → rank p ≤ 6
  rank-le p = ground arith

module _ {ℓ} {A : Type ℓ} {debug : Bool} where
  -- The moves of the thread itself.
  abbrev pub by_loop : {s t : System A} {p : Pc A} → Move debug s p t → Bool
  by_loop lock = true
  by_loop release_latch = true
  by_loop set_running = true
  by_loop (test_go _) = true
  by_loop (test_stop _) = true
  by_loop (acquire _) = true
  by_loop (recheck_go _) = true
  by_loop (recheck_stop _) = true
  by_loop (take_item _) = true
  by_loop call_item = true
  by_loop clear_running = true
  by_loop unlock = true
  by_loop _ = false

  -- How many of them there are among some steps.
  abbrev pub own_moves : {s t : System A} → Steps debug s t → ℕ
  own_moves here = 0
  own_moves (next st m) = own_moves st + count (by_loop m)

  -- The premise of a test that goes on.
  abbrev Guard : {s t : System A} {p : Pc A} → Move debug s p t → Type 0
  Guard {s = s} (test_go _) = s.mem.stopping ≡ false
  Guard {s = s} (recheck_go _) = s.mem.stopping ≡ false
  Guard _ = Unit

  guard : {s t : System A} {p : Pc A} (m : Move debug s p t) → Guard m
  guard (test_go h) = h
  guard (recheck_go h) = h
  guard _ = tt

  Move-rank :
      {s t : System A} {p : Pc A} (m : Move debug s p t)
      → s.pc ≡ p
      → s.mem.stopping ≡ true
      → (t.mem.stopping ≡ true) × (count (by_loop m) + rank t.pc ≤ rank s.pc)
  Move-rank (test_go h) e k = ground arith
  Move-rank m e k = ground (arith, guard m)

  pub Steps-rank :
      {s t : System A} (st : Steps debug s t)
      → s.mem.stopping ≡ true
      → (t.mem.stopping ≡ true) × (own_moves st + rank t.pc ≤ rank s.pc)
  Steps-rank here h = (h, omega arith)
  Steps-rank (next st m) h =
      let (stops, le) = Steps-rank st h in
      let (stops', le') = Move-rank m refl stops in (stops', omega (arith, le, le'))

  -- A move from the place where the thread stands.
  pub move_at :
      {t u : System A} {p : Pc A}
      → t.pc ≡ p
      → (m : Move debug t p u) → by_loop m ≡ true
      → (u : System A) × (m : Move debug t t.pc u) × (by_loop m ≡ true)
  move_at {t} {u} e m b =
      subst (λ q. (u : System A) × (m : Move debug t q u) × (by_loop m ≡ true)) (sym e) (u, m, b)

  pub can_move :
      {t : System A} (p : Pc A)
      → Reach debug t
      → t.pc ≡ p
      → p ≢ absent
      → t.mem.stopping ≡ true
      → t.stop_unreleased ≡ false
      → ((broke : Bool) × (p ≡ finished broke))
        ⊎ ((u : System A) × (m : Move debug t t.pc u) × (by_loop m ≡ true))
  can_move absent r e a h k = absurd (a refl)
  can_move created r e a h k = inr (move_at e lock refl)
  can_move locked r e a h k = inr (move_at e release_latch refl)
  can_move latched r e a h k = inr (move_at e set_running refl)
  can_move at_test r e a h k = inr (move_at e (test_stop h) refl)
  can_move {t} at_acquire r e a h k =
      let n : ℕ = t.mem.sem - 1 in
      inr (move_at e (acquire {n = n} (ground (arith, Reach-Inv r))) refl)
  can_move at_recheck r e a h k = inr (move_at e (recheck_stop h) refl)
  can_move at_take r e a h k =
      let (item, front, back) = take_safe r e in inr (move_at e (take_item back) refl)
  can_move (at_call item) r e a h k = inr (move_at e call_item refl)
  can_move (leaving broke) r e a h k = inr (move_at e clear_running refl)
  can_move (unlocking broke) r e a h k = inr (move_at e unlock refl)
  can_move (finished broke) r e a h k = inl (broke, refl)

  -- Once `stop` was called, the thread of `loop` makes at most six more moves, whatever the other threads do in
  -- between; and wherever it stands then, unless it was never created, it has finished or can make a move, as soon as `stop`
  -- has released the semaphore.
  pub loop_ends :
      {s t : System A} (st : Steps debug s t)
      → Reach debug t
      → s.mem.stopping ≡ true
      → t.stop_unreleased ≡ false
      → t.pc ≢ absent
      → (own_moves st ≤ 6)
        × (((broke : Bool) × (t.pc ≡ finished broke))
            ⊎ ((u : System A) × (m : Move debug t t.pc u) × (by_loop m ≡ true)))
  loop_ends {s} {t} st r h k a =
      let (stops, le) = Steps-rank st h in
      (omega (arith, le, rank-le s.pc), can_move t.pc r refl a stops k)
