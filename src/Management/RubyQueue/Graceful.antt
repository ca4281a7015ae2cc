-- ===== src/Management/RubyQueue/Graceful.antt =====
-- `stop_on_exit` of ext/ruble/management/RubyQueue.cpp, which polls, together with the threads that run while it sleeps.
use native.Mathlib.Nat.{suc-mul}
use ru_ble.Base.{
  ◌≢◌, ℕ, zero, suc, ◌+◌, ◌-◌, ◌*◌, ◌≤◌, ◌<◌, ◌≡◌, refl, sym, subst, ap, ◌∙◌, Bool, true, false,
  not, Option, some, arith, inl, inr, Bool-cases, ok,
}
use ru_ble.Utils.Async.{Environment, poll_loop}
use ru_ble.Utils.Async.Laws.{wait_until-poll_loop, poll_loop_holds, poll_loop_again}
use ru_ble.Management.RubyQueue.{RubyQueue, stop}
use ru_ble.Management.RubyQueue.Invariant.{loops}
use ru_ble.Management.RubyQueue.Safety.{is_running-loops}
use ru_ble.Management.RubyQueue.Progress.{rank-le, by_loop, own_moves, rank, Steps-rank, can_move}
use ru_ble.Management.RubyQueue.Lifecycle.{
  Left, poll_running, leave, stop_on_exit, stop_on_exit_at_once, stop_on_exit_waits,
}
use ru_ble.Management.RubyQueue.Atomic.{reached, chain}
use ru_ble.Management.RubyQueue.Threads.{
  Pc, System, Move, Reach, Steps, here, next, later, absent, set_stopping, release_stop,
}

times_suc : (n tick : ℕ) → n * tick + tick ≡ suc n * tick
times_suc n tick = sym (suc-mul n tick)

pub times_less : (n tick : ℕ) → 0 < n → (n - 1) * tick + tick ≡ n * tick
times_less zero tick h = absurd (omega arith)
times_less (suc n) tick h =
    let before : suc n - 1 ≡ n = omega arith in ap (λ m. m * tick + tick) before ∙ times_suc n tick

module _ {ℓ} {A : Type ℓ} where
  -- `stop` was called, and is over.
  abbrev Told : System A → Type 0
  Told s = (s.mem.stopping ≡ true) × (s.stop_unreleased ≡ false)

  Move-Told : {debug : Bool} {s t : System A} {p : Pc A} → Move debug s p t → Told s → Told t
  Move-Told (set_stopping k) h = ground arith
  Move-Told (release_stop k) h = ground arith
  Move-Told m h = ground arith

  Steps-Told : {debug : Bool} {s t : System A} → Steps debug s t → Told s → Told t
  Steps-Told here h = h
  Steps-Told (next st m) h = Move-Told m (Steps-Told st h)

  rank-loops : (p : Pc A) → loops p ≡ true → (p ≢ absent) × (2 ≤ rank p)
  rank-loops p h = ground arith

module _ {ℓ} {A W : Type ℓ} where
  -- The threads, where `w` is the rest of the world and `rest` what it holds of them.
  abbrev pub view : (W → System A) → RubyQueue A × W → System A
  view rest (q, w) = record (rest w) { mem = q }

  -- What is asked of the scheduler: a sleep lets the threads make some steps, one of the loop's thread among them if that can move,
  -- and it takes no longer than `tick`.
  pub record Schedules (debug : Bool) (env : Environment (RubyQueue A × W)) (rest : W → System A)
      (tick : ℕ) : Type ℓ where
    pub steps : (u : RubyQueue A × W) → Steps debug (view rest u) (view rest (env.sleep u))
    pub moves :
        (u : RubyQueue A × W) {t : System A} (m : Move debug (view rest u) (view rest u).pc t)
        → by_loop m ≡ true
        → 0 < own_moves (steps u)
    pub quick : (u : RubyQueue A × W) → env.now (env.sleep u) ≤ env.now u + tick

  -- Where a poll leaves everything as it was.
  poll_running_lem :
      {debug : Bool} (rest : W → System A) (u : RubyQueue A × W)
      → Reach debug (view rest u)
      → poll_running u ≡ (not (loops (rest u.1).pc), u)
  poll_running_lem rest (q, w) r = ground (arith, is_running-loops r)

  -- What a wait for the loop's end comes to.
  abbrev Gone :
      (debug : Bool) (rest : W → System A)
      → Option (Bool × (RubyQueue A × W))
      → RubyQueue A × W
      → Type ℓ
  Gone debug rest answer u =
      (v : RubyQueue A × W) × (answer ≡ some (true, v))
      × Steps debug (view rest u) (view rest v)
      × (loops (rest v.1).pc ≡ false)

  module _ (debug : Bool) (env : Environment (RubyQueue A × W)) (rest : W → System A) (tick : ℕ)
      (sched : Schedules debug env rest tick) where
    sleep-rank :
        (u : RubyQueue A × W)
        → Reach debug (view rest u)
        → Told (view rest u)
        → loops (rest u.1).pc ≡ true
        → rank (rest (env.sleep u).1).pc < rank (rest u.1).pc
    sleep-rank u r h l =
        let (present, _) = rank-loops (rest u.1).pc l in
        let (_, le) = Steps-rank (sched.steps u) h.0 in
        elim (can_move (rest u.1).pc r refl present h.0 h.1) [
          | inl (broke, e) ↦ absurd (ground (arith, e, l))
          | inr (t, m, b) ↦ let own = sched.moves u m b in omega (arith, own, le)
        ]

    gone :
        (n fuel end_at : ℕ) (u : RubyQueue A × W)
        → Reach debug (view rest u)
        → Told (view rest u)
        → rank (rest u.1).pc ≤ n
        → n < fuel
        → env.now u + n * tick ≤ end_at
        → Gone debug rest (poll_loop env fuel poll_running (some end_at) u) u
    gone n zero end_at u r h le more time = absurd (omega arith)
    gone n (suc fuel) end_at u r h le more time = elim (Bool-cases (loops (rest u.1).pc)) [
      | inr l ↦ (
        u,
        poll_loop_holds env poll_running fuel (some end_at) u u
            (poll_running_lem rest u r ∙ ap (λ b. (not b, u)) l),
        here,
        l,
      )
      | inl l ↦
          let less = sleep-rank u r h l in
          let st = sched.steps u in
          let (v, e, steps, left) =
            gone (n - 1) fuel end_at (env.sleep u) (reached r st) (Steps-Told st h)
              (omega (arith, less)) (omega (arith, less, rank-loops (rest u.1).pc l))
              (omega (
                arith,
                time,
                sched.quick u,
                times_less n tick (omega (arith, le, rank-loops (rest u.1).pc l)),
              )) in
          (
            v,
            poll_loop_again env poll_running fuel end_at u u
                  (poll_running_lem rest u r ∙ ap (λ b. (not b, u)) l) (omega arith)
                ∙ e,
            chain st steps,
            left,
          )
    ]

    told :
        (q : RubyQueue A) (w : W)
        → Reach debug (view rest (q, w))
        → (rest w).stop_unreleased ≡ false
        → Reach debug (view rest (stop q, w)) × Told (view rest (stop q, w))
    unfolding stop
    told q w r idle = elim (Bool-cases q.stopping) [
      | inl h ↦ (subst (Reach debug) (ground arith) r, ground arith)
      | inr h ↦ (
        subst (Reach debug) (ground arith) (later (later r (set_stopping h)) (release_stop refl)),
        ground arith,
      )
    ]

    -- Where no other thread is within `stop` and six sleeps fit in its second, `stop_on_exit` does not have to force the queue's
    -- thread: it ends (fuel for seven rounds is enough), throws nothing and does not call `rb_thread_kill`, and the loop is not
    -- running then.
    pub stop_on_exit-gone :
        (second fuel : ℕ) (t : RubyQueue A × W)
        → Reach debug (view rest t)
        → (rest t.1).stop_unreleased ≡ false
        → 6 * tick ≤ second
        → 6 < fuel
        → (l : Left (RubyQueue A × W)) × (stop_on_exit env second fuel t ≡ some l)
          × (l.outcome ≡ ok tt)
          × (l.killed ≡ false)
          × Reach debug (view rest l.state)
          × (l.state.0.stopping ≡ true)
          × (loops (rest l.state.1).pc ≡ false)
    stop_on_exit-gone second fuel (q, w) r idle fits enough =
        let (r', h) = told q w r idle in
        let answer = (is_running-loops r').1 in
        elim (Bool-cases (loops (rest w).pc)) [
          | inr l ↦ (
            leave (stop q, w),
            stop_on_exit_at_once env second fuel q (stop q) w (ground (arith, answer, h, l)),
            refl,
            refl,
            r',
            h.0,
            l,
          )
          | inl l ↦
              let end_at = env.now (stop q, w) + 1 * second in
              let (v, e, steps, left) =
                gone 6 fuel end_at (stop q, w) r' h (rank-le (rest w).pc) enough
                  (omega (arith, fits)) in
              (
                leave v,
                stop_on_exit_waits env second fuel q (stop q) w v (ground (arith, answer, h, l)) (
                    wait_until-poll_loop env poll_running fuel (some (1 * second)) (stop q, w) ∙ e),
                refl,
                refl,
                reached r' steps,
                (Steps-Told steps h).0,
                left,
              )
        ]
