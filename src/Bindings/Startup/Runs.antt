-- ===== src/Bindings/Startup/Runs.antt =====
-- Loading where the queue's thread releases the latch while the caller sleeps.
use ru_ble.Base.{ℕ, ◌+◌, ◌*◌, ◌≡◌, refl, true, some, [], ◌∷◌, arith, err, runtime_error}
use ru_ble.Utils.Async.{Environment}
use ru_ble.Management.RubyQueue.{RubyQueue, new_queue, start}
use ru_ble.Management.RubyQueue.Lifecycle.{Left, Waited}
use ru_ble.Bindings.Startup.{unloaded, Globals, init, init_each}
use ru_ble.Base.{List}
use ru_ble.Base.{some, ok, err, runtime_error}
use ru_ble.Utils.ExceptionHandling.{
  Output, on_terminate, threw_nested, print_stacktrace, print_backtrace,
}
use ru_ble.Bindings.Startup.Laws.{Loaded, enter_again, refused, init_lem, init_again, init_succeeds}
use ru_ble.Management.RubyQueue.Scheduled.{
  environment, threads, environment-Schedules, environment-all_spare, just_created,
}
use ru_ble.Management.RubyQueue.Graceful.{view}
use ru_ble.Management.RubyQueue.Threads.{System, Steps}
use ru_ble.Base.{false, inr}

abbrev World : Type 0
World = RubyQueue ℕ × ℕ

abbrev releasing : Environment World
releasing = record { now = λ t. t.1; sleep = λ t. (record t.0 { latch = true }, t.1 + 1) }

abbrev before : Globals ℕ
before = unloaded 70

abbrev queue : RubyQueue ℕ
queue = new_queue

init_lem_example :
    (g : Globals ℕ) × (l : Left World) × (init releasing 1 71 9 5 80 (15 * 1 + 2) before (queue, 0)
      ≡ some (g, l))
    × Loaded 70 71 9 g
    × Waited releasing 1 ((start 5 queue).0, 0) l
init_lem_example = init_lem releasing 1 71 9 5 80 70 queue 0 (λ u. omega arith) (λ u. omega arith)

-- The queue's thread has been created, and makes one step in each sleep.
init_succeeds_example :
    (g : Globals ℕ) × (l : Left (RubyQueue ℕ × (System ℕ × ℕ))) × (init environment 1 71 9 42 80 3
        before
        (queue, (just_created, 0))
      ≡ some (g, l))
    × Loaded 70 71 9 g
    × (l.outcome ≡ ok tt)
    × (l.killed ≡ false)
    × Steps false (view threads ((start 42 queue).0, (just_created, 0))) (view threads l.state)
init_succeeds_example =
    init_succeeds environment 1 71 9 42 80 false threads 1 3 70 queue (just_created, 0)
      environment-Schedules environment-all_spare (λ e. cc, inr (omega arith)) (omega arith)
      (omega arith)

-- The latch is released already where it is loaded first; then it is loaded twice again.
abbrev started : World
started = (record queue { latch = true }, 0)

first_load :
    (g : Globals ℕ) × (l : Left World) × (init releasing 1 71 9 5 80 17 before started
      ≡ some (g, l))
first_load =
    let (g, l, e, set, waited) =
      init_lem {R = ℕ} releasing 1 71 9 5 80 70 (record queue { latch = true }) 0 (λ u. omega arith)
        (λ u. omega arith) in
    (g, l, e)

abbrev times : List (ℕ × World)
times = (4, (queue, 6)) ∷ (0, started) ∷ []

init_again_example :
    Loaded 70 71 9 first_load.0
    × (init_each releasing 1 71 9 5 80 times first_load.0
        ≡ some (
          record first_load.0 { in_ruby = enter_again times first_load.0.in_ruby },
          refused times,
        ))
init_again_example =
    init_again releasing 1 71 9 5 80 17 70 started times first_load.0 first_load.1 first_load.2

-- The world counts what was printed. Ruby's backtrace cannot be had.
abbrev printer : Output ℕ
printer = record {
  print = λ text n. (ok tt, n + 1);
  stacktrace = λ n. (ok tt, n + 10);
  rb_backtrace = λ n. (err runtime_error, n);
}

-- What was printed up to there.
no_backtrace : on_terminate printer (some 70) 0 ≡ (threw_nested, 13)
unfolding on_terminate print_stacktrace print_backtrace
no_backtrace = refl
