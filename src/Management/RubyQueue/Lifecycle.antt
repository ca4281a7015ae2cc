-- ===== src/Management/RubyQueue/Lifecycle.antt =====
-- Starting and stopping the queue: `ensure_started` and `stop_on_exit`, which poll. `W` is the rest of
-- the world; `sleep` of the environment also is what the queue's thread does meanwhile. `second` is
-- the number of clock ticks in a second.
use ru_ble.Base.{
  ℕ, ◌+◌, ◌*◌, ◌≤◌, ◌<◌, ◌≡◌, refl, Bool, true, false, not, Option, none, some, arith,
  if◌then◌else◌, Result, ok, err, runtime_error, is_some, ◌⊎◌, inl, inr, Bool-cases,
}
use ru_ble.Utils.Async.{Environment, wait_until, deadline}
use ru_ble.Utils.Async.Laws.{wait_until_lem, wait_until_total, before_poll, EndsAt}
use ru_ble.Management.RubyQueue.{RubyQueue, stop, kill, try_acquire, is_running, is_stopped}

-- What a call leaves: the state, whether `rb_thread_kill` was called, and what was thrown.
pub record Left {ℓ} (S : Type ℓ) : Type ℓ where
  pub state : S
  pub killed : Bool
  pub outcome : Result (Unit {0})

is_stopped-running {ℓ} :
    {A : Type ℓ} (s : RubyQueue A)
    → (is_stopped s).0 ≡ true
    → (is_running (is_stopped s).1).0 ≡ false
unfolding is_stopped is_running
is_stopped-running s h = ground arith

module _ {ℓ} {A W : Type ℓ} where
  -- `_startup_latch.try_acquire()`, as the predicate of a wait.
  abbrev pub poll_latch : RubyQueue A × W → Bool × (RubyQueue A × W)
  poll_latch (s, w) = ((try_acquire s).0, ((try_acquire s).1, w))

  -- `!rq->running()`
  abbrev pub poll_running : RubyQueue A × W → Bool × (RubyQueue A × W)
  poll_running (s, w) = (not (is_running s).0, ((is_running s).1, w))

  abbrev pub kill_it : Result (Unit {0}) → RubyQueue A × W → Left (RubyQueue A × W)
  kill_it outcome (s, w) = record {
    state = ((kill s).0, w);
    killed = (kill s).1;
    outcome = outcome;
  }

  abbrev pub leave : RubyQueue A × W → Left (RubyQueue A × W)
  leave t = record { state = t; killed = false; outcome = ok tt }

  after_latch : Option (Bool × (RubyQueue A × W)) → Option (Left (RubyQueue A × W))
  after_latch none = none
  after_latch (some (b, t)) = some (if b then leave t else kill_it (err runtime_error) t)

  after_stop : Option (Bool × (RubyQueue A × W)) → Option (Left (RubyQueue A × W))
  after_stop none = none
  after_stop (some (b, t)) = some (if b then leave t else kill_it (ok tt) t)

  -- How `ensure_started` leaves, by what its last poll, at `u`, found.
  abbrev pub Started : RubyQueue A × W → Left (RubyQueue A × W) → Type 0
  Started u l =
      ((u.0.latch ≡ true) × (l.outcome ≡ ok tt) × (l.killed ≡ false))
      ⊎ ((u.0.latch ≡ false)
          × (l.outcome ≡ err runtime_error)
          × (l.state.0.stopping ≡ true)
          × (l.killed ≡ is_some l.state.0.rb_thread))

  after_latch_lem :
      (u : RubyQueue A × W) (answer : Bool × (RubyQueue A × W))
      → poll_latch u ≡ answer
      → (l : Left (RubyQueue A × W)) × (after_latch (some answer) ≡ some l) × Started u l
  unfolding after_latch try_acquire kill
  after_latch_lem (s, w) (true, t) h = (leave t, refl, inl (ground arith))
  after_latch_lem (s, w) (false, t) h = (kill_it (err runtime_error) t, refl, inr (ground arith))

  after_stop_lem :
      (u : RubyQueue A × W) (answer : Bool × (RubyQueue A × W))
      → poll_running u ≡ answer
      → (l : Left (RubyQueue A × W)) × (after_stop (some answer) ≡ some l)
        × (l.outcome ≡ ok tt)
        × (((is_running l.state.0).0 ≡ false)
            ⊎ ((l.state.0.stopping ≡ true) × (l.killed ≡ is_some l.state.0.rb_thread)))
  unfolding after_stop is_running kill
  after_stop_lem (s, w) (true, t) h = (leave t, refl, refl, inl (ground arith))
  after_stop_lem (s, w) (false, t) h = (kill_it (ok tt) t, refl, refl, inr (ground arith))

module _ {ℓ} {A W : Type ℓ} (env : Environment (RubyQueue A × W)) (second : ℕ) where
  pub ensure_started : ℕ → RubyQueue A × W → Option (Left (RubyQueue A × W))
  unfolding after_latch
  ensure_started fuel t = after_latch (wait_until env fuel poll_latch (some (15 * second)) t)

  pub stop_on_exit : ℕ → RubyQueue A × W → Option (Left (RubyQueue A × W))
  unfolding after_stop
  stop_on_exit fuel (s, w) =
      let (gone, s') = is_stopped (stop s) in
      if gone
      then some (leave (s', w))
      else after_stop (wait_until env fuel poll_running (some (1 * second)) (s', w))

  pub ensure_started_waits :
      (fuel : ℕ) (t v : RubyQueue A × W)
      → wait_until env fuel poll_latch (some (15 * second)) t ≡ some (true, v)
      → ensure_started fuel t ≡ some (leave v)
  unfolding ensure_started after_latch
  ensure_started_waits fuel t v e = ground (arith, e)

  pub stop_on_exit_at_once :
      (fuel : ℕ) (s s' : RubyQueue A) (w : W)
      → is_stopped (stop s) ≡ (true, s')
      → stop_on_exit fuel (s, w) ≡ some (leave (s', w))
  unfolding stop_on_exit
  stop_on_exit_at_once fuel s s' w h = ground (arith, h)

  pub stop_on_exit_waits :
      (fuel : ℕ) (s s' : RubyQueue A) (w : W) (v : RubyQueue A × W)
      → is_stopped (stop s) ≡ (false, s')
      → wait_until env fuel poll_running (some (1 * second)) (s', w) ≡ some (true, v)
      → stop_on_exit fuel (s, w) ≡ some (leave v)
  unfolding stop_on_exit after_stop
  stop_on_exit_waits fuel s s' w v h e = ground (arith, h, e)

  -- How `ensure_started`, called at `t`, leaves: poll number `k` was the last, which means that it found the latch released
  -- or came after the fifteen seconds and no earlier one did either, and `l` is as this poll gives it.
  abbrev pub Waited : RubyQueue A × W → Left (RubyQueue A × W) → Type ℓ
  Waited t l =
      (k : ℕ) × (answer : Bool × (RubyQueue A × W)) × EndsAt env poll_latch
        (deadline env (some (15 * second)) t) t k answer
      × Started (before_poll env poll_latch k t) l

  -- `ensure_started` ends (fuel for two rounds more than its fifteen seconds is enough, if sleeping
  -- moves the clock on and polling does not move it back). It returns only if its last poll found
  -- the latch released; otherwise it throws, with `stop` called, and it has called
  -- `rb_thread_kill` exactly if a thread was recorded.
  pub ensure_started_lem :
      (t : RubyQueue A × W)
      → ((u : RubyQueue A × W) → env.now u < env.now (env.sleep u))
      → ((u : RubyQueue A × W) → env.now u ≤ env.now (poll_latch u).1)
      → (l : Left (RubyQueue A × W)) × (ensure_started (15 * second + 2) t ≡ some l) × Waited t l
  unfolding ensure_started
  ensure_started_lem t passes keeps =
      let (answer, e) = wait_until_total env poll_latch (15 * second) t passes keeps in
      let (k, ends) = wait_until_lem env poll_latch _ (some (15 * second)) t answer e in
      let (l, f, g) = after_latch_lem (before_poll env poll_latch k t) answer ends.last in
      (l, rw e f, (k, answer, ends, g))

  -- `stop_on_exit` ends (fuel for two rounds more than its one second is enough, if sleeping moves
  -- the clock on and polling does not move it back) and throws nothing. Afterwards the loop is not
  -- running, or `stop` was called and `rb_thread_kill` too, unless no thread was recorded.
  pub stop_on_exit_lem :
      (t : RubyQueue A × W)
      → ((u : RubyQueue A × W) → env.now u < env.now (env.sleep u))
      → ((u : RubyQueue A × W) → env.now u ≤ env.now (poll_running u).1)
      → (l : Left (RubyQueue A × W)) × (stop_on_exit (1 * second + 2) t ≡ some l)
        × (l.outcome ≡ ok tt)
        × (((is_running l.state.0).0 ≡ false)
            ⊎ ((l.state.0.stopping ≡ true) × (l.killed ≡ is_some l.state.0.rb_thread)))
  unfolding stop_on_exit
  stop_on_exit_lem (s, w) passes keeps = elim (Bool-cases (is_stopped (stop s)).0) [
    | inl b ↦ (leave ((is_stopped (stop s)).1, w), rw b, refl, inl (is_stopped-running (stop s) b))
    | inr b ↦
        let t : RubyQueue A × W = ((is_stopped (stop s)).1, w) in
        let (answer, e) = wait_until_total env poll_running (1 * second) t passes keeps in
        let (k, ends) = wait_until_lem env poll_running _ (some (1 * second)) t answer e in
        let (l, f, o, g) = after_stop_lem (before_poll env poll_running k t) answer ends.last in
        (l, rw (b, e) f, o, g)
  ]
