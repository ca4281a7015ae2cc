-- ===== src/Management/RubyQueue/Launched.antt =====
-- `ensure_started` of ext/ruble/management/RubyQueue.cpp, which polls, together with the threads that run while it sleeps.
use ru_ble.Base.{
  ◌≢◌, ℕ, zero, suc, ◌+◌, ◌-◌, ◌*◌, ◌≤◌, ◌<◌, ◌≡◌, refl, ◌∙◌, Bool, true, false, ◌&&◌, Option, some,
  arith, ◌⊎◌, inl, inr, Bool-cases, ok,
}
use ru_ble.Utils.Async.{Environment, poll_loop}
use ru_ble.Utils.Async.Laws.{wait_until-poll_loop, poll_loop_holds, poll_loop_again}
use ru_ble.Management.RubyQueue.{RubyQueue, try_acquire}
use ru_ble.Management.RubyQueue.Invariant.{count}
use ru_ble.Management.RubyQueue.Progress.{move_at, by_loop, own_moves}
use ru_ble.Management.RubyQueue.Lifecycle.{
  Left, poll_latch, leave, ensure_started, ensure_started_waits,
}
use ru_ble.Management.RubyQueue.Atomic.{chain}
use ru_ble.Management.RubyQueue.Graceful.{view, Schedules, times_less}
use ru_ble.Management.RubyQueue.Threads.{
  Pc, System, Move, Steps, here, next, absent, created, locked, take_latch, start_thread, lock,
  release_latch,
}

module _ {ℓ} {A : Type ℓ} where
  -- How many moves of the loop's thread are left before the latch is released.
  abbrev pub to_latch : Pc A → ℕ
  to_latch created = 2
  to_latch locked = 1
  to_latch _ = 0

  -- The thread was created, and the latch is released or will be.
  abbrev pub Due : System A → Type ℓ
  Due s = (s.pc ≢ absent) × ((s.mem.latch ≡ true) ⊎ (0 < to_latch s.pc))

module _ {ℓ} {A : Type ℓ} {debug : Bool} where
  -- The latch is not taken.
  abbrev pub spares : {s t : System A} {p : Pc A} → Move debug s p t → Bool
  spares take_latch = false
  spares _ = true

  abbrev pub all_spare : {s t : System A} → Steps debug s t → Bool
  all_spare here = true
  all_spare (next st m) = all_spare st && spares m

  Move-Due :
      {s t : System A} {p : Pc A} (m : Move debug s p t)
      → s.pc ≡ p
      → spares m ≡ true
      → Due s
      → Due t × (to_latch t.pc ≤ to_latch s.pc - count (by_loop m))
  Move-Due take_latch e a d = cc
  Move-Due (start_thread tid h) e a d = absurd (d.0 e)
  Move-Due m e a d = ground arith

  Steps-Due :
      {s t : System A} (st : Steps debug s t)
      → all_spare st ≡ true
      → Due s
      → Due t × (to_latch t.pc ≤ to_latch s.pc - own_moves st)
  Steps-Due here a d = (d, omega arith)
  Steps-Due (next st m) a d =
      let (d', le) = Steps-Due st (ground (arith, a)) d in
      let (d'', le') = Move-Due m refl (ground (arith, a)) d' in (d'', omega (arith, le, le'))

  -- The next move of the thread, where the latch is still to be released.
  releases :
      {s : System A} (p : Pc A)
      → s.pc ≡ p
      → 0 < to_latch p
      → (t : System A) × (m : Move debug s s.pc t) × (by_loop m ≡ true)
  releases created e h = move_at e lock refl
  releases locked e h = move_at e release_latch refl
  releases p e h = absurd (omega (arith, h))

module _ {ℓ} {A W : Type ℓ} where
  -- What a poll of the latch finds and leaves.
  abbrev poll_latch_at : Bool → RubyQueue A × W → Bool × (RubyQueue A × W)
  poll_latch_at b (q, w) = (b, (record q { latch = false }, w))

  poll_latch_lem :
      (b : Bool) (u : RubyQueue A × W) → u.0.latch ≡ b → poll_latch u ≡ poll_latch_at b u
  unfolding try_acquire
  poll_latch_lem b (q, w) h = ground (arith, h)

  poll_latch-false : (u : RubyQueue A × W) → u.0.latch ≡ false → poll_latch u ≡ (false, u)
  poll_latch-false (q, w) h = poll_latch_lem false (q, w) h ∙ ground (arith, h)

module _ {ℓ} {A W : Type ℓ} (debug : Bool) (env : Environment (RubyQueue A × W))
    (rest : W → System A) (tick : ℕ) (sched : Schedules debug env rest tick)
    (spared : (u : RubyQueue A × W) → all_spare (sched.steps u) ≡ true) where
  -- What waiting for the latch comes to.
  abbrev Released : Option (Bool × (RubyQueue A × W)) → RubyQueue A × W → Type ℓ
  Released answer u =
      (v : RubyQueue A × W) × (answer ≡ some (true, v)) × Steps debug (view rest u) (view rest v)

  released :
      (n fuel end_at : ℕ) (u : RubyQueue A × W)
      → Due (view rest u)
      → to_latch (rest u.1).pc ≤ n
      → n < fuel
      → env.now u + n * tick ≤ end_at
      → Released (poll_loop env fuel poll_latch (some end_at) u) u
  released n zero end_at u d le more time = absurd (omega arith)
  released n (suc fuel) end_at (q, w) d le more time = elim (Bool-cases q.latch) [
    | inl l ↦ (
      (record q { latch = false }, w),
      poll_loop_holds env poll_latch fuel (some end_at) (q, w) _ (poll_latch_lem true (q, w) l),
      next here take_latch,
    )
    | inr l ↦
        let u : RubyQueue A × W = (q, w) in
        let st = sched.steps u in
        let left : 0 < to_latch (rest w).pc = ground (arith, d, l) in
        let (t, m, b) = releases (rest w).pc refl left in
        let own = sched.moves u m b in
        let (d', le') = Steps-Due st (spared u) d in
        let (v, e, steps) =
          released (n - 1) fuel end_at (env.sleep u) d' (omega (arith, le')) (omega (arith, left))
            (omega (arith, time, sched.quick u, times_less n tick (omega (arith, le, left)))) in
        (
          v,
          poll_loop_again env poll_latch fuel end_at u u (poll_latch-false u l) (omega arith) ∙ e,
          chain st steps,
        )
  ]

  -- Where the queue's thread was created and has released the latch or has not yet come to that, every sleep lets it make a
  -- step if it can, no other thread takes the latch, and two sleeps fit in fifteen seconds, `ensure_started` finds the queue
  -- started: it ends (fuel for three rounds is enough), throws nothing and does not call `rb_thread_kill`, and what it
  -- leaves is what the threads can make of what there was.
  pub ensure_started-released :
      (second fuel : ℕ) (t : RubyQueue A × W)
      → Due (view rest t)
      → 2 * tick ≤ 15 * second
      → 2 < fuel
      → (l : Left (RubyQueue A × W)) × (ensure_started env second fuel t ≡ some l)
        × (l.outcome ≡ ok tt)
        × (l.killed ≡ false)
        × Steps debug (view rest t) (view rest l.state)
  ensure_started-released second fuel t d fits enough =
      let (v, e, steps) =
        released 2 fuel (env.now t + 15 * second) t d (ground arith) enough (omega (arith, fits)) in
      (
        leave v,
        ensure_started_waits env second fuel t v
            (wait_until-poll_loop env poll_latch fuel (some (15 * second)) t ∙ e),
        refl,
        refl,
        steps,
      )
