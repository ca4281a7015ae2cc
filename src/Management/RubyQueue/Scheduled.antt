-- ===== src/Management/RubyQueue/Scheduled.antt =====
-- A scheduler that lets the queue's thread make one step in each sleep, for the tests of what waits for that thread.
use ru_ble.Base.{ℕ, ◌+◌, ◌<◌, ◌≡◌, refl, true, false, Option, none, some, arith}
use ru_ble.Utils.Async.{Environment}
use ru_ble.Management.RubyQueue.{RubyQueue, new_queue}
use ru_ble.Management.RubyQueue.Launched.{spares, all_spare}
use ru_ble.Management.RubyQueue.Progress.{by_loop, own_moves}
use ru_ble.Management.RubyQueue.Determined.{loop_step, loop_step_lem, loop_step-OwnMove}
use ru_ble.Management.RubyQueue.Graceful.{view, Schedules}
use ru_ble.Management.RubyQueue.Threads.{
  Pc, created, take_latch, System, Move, Reach, Steps, init, here, next, begin, later, start_thread,
  lock, release_latch, set_running,
}

abbrev pub turned : System ℕ → Option (System ℕ) → System ℕ
turned s none = s
turned s (some t) = t

abbrev pub turn : System ℕ → System ℕ
turn s = turned s (loop_step s s.pc)

turned-Steps :
    (s : System ℕ) (o : Option (System ℕ)) → loop_step s s.pc ≡ o → Steps false s (turned s o)
turned-Steps s none e = here
turned-Steps s (some t) e = next here (loop_step-OwnMove s s.pc t e).0

turned-Steps_moves :
    (s : System ℕ) (o : Option (System ℕ)) (e : loop_step s s.pc ≡ o) {t : System ℕ}
    (m : Move false s s.pc t)
    → by_loop m ≡ true
    → 0 < own_moves (turned-Steps s o e)
unfolding turned-Steps
turned-Steps_moves s none e m b = absurd (ground (arith, e, loop_step_lem m b))
turned-Steps_moves s (some t) e m b =
    ground (arith, (loop_step-OwnMove {debug = false} s s.pc t e).1)

-- The rest of the world is the threads and a clock, which each sleep moves on by one.
abbrev pub environment : Environment (RubyQueue ℕ × (System ℕ × ℕ))
environment = record {
  now = λ u. u.1.1;
  sleep = λ u. let t = turn (view (λ w. w.0) u) in (t.mem, (t, u.1.1 + 1));
}

abbrev pub threads : System ℕ × ℕ → System ℕ
threads w = w.0

pub environment-Schedules : Schedules false environment threads 1
environment-Schedules = record {
  steps = λ u. turned-Steps (view threads u) (loop_step (view threads u) (view threads u).pc) refl;
  moves = λ u m b.
      turned-Steps_moves (view threads u) (loop_step (view threads u) (view threads u).pc) refl m b;
  quick = λ u. omega arith;
}

-- The loop is about to test `_stopping`.
unfoldable pub at_loop_test : (s : System ℕ) × Reach false s
at_loop_test =
    (_, later (later (later (later begin (start_thread 42 refl)) lock) release_latch) set_running)

by_loop-spares :
    {s t : System ℕ} {p : Pc ℕ} (m : Move false s p t) → by_loop m ≡ true → spares m ≡ true
by_loop-spares take_latch b = cc
by_loop-spares m b = refl

turned-all_spare :
    (s : System ℕ) (o : Option (System ℕ)) (e : loop_step s s.pc ≡ o)
    → all_spare (turned-Steps s o e) ≡ true
unfolding turned-Steps
turned-all_spare s none e = refl
turned-all_spare s (some t) e =
    let (m, b) = loop_step-OwnMove {debug = false} s s.pc t e in by_loop-spares m b

-- The thread was created and has not yet done anything.
abbrev pub just_created : System ℕ
just_created = record init {
  mem = record new_queue { starting = true; rb_thread = some 42 };
  pc = created;
}

pub environment-all_spare :
    (u : RubyQueue ℕ × (System ℕ × ℕ)) → all_spare (environment-Schedules.steps u) ≡ true
unfolding environment-Schedules turned-Steps
environment-all_spare u =
    turned-all_spare (view threads u) (loop_step (view threads u) (view threads u).pc) refl
