-- ===== src/Management/RubyQueue/Runs.antt =====
-- The queue with numbers for closures: runs of its threads, and a clock that each sleep moves on.
use mathlib.Core.List.{reverse, Perm}
use ru_ble.Base.{ℕ, ◌+◌, ◌≤◌, ◌<◌, ◌≡◌, refl, inl, true, false, some, List, [], ◌∷◌, ◌++◌, length}
use ru_ble.Utils.Async.{Environment}
use ru_ble.Management.RubyQueue.{
  RubyQueue, new_queue, push, stop, pop_back, push_all, drain, round, exits, after_acquire,
}
use ru_ble.Management.RubyQueue.Order.{push-stop}
use ru_ble.Management.RubyQueue.Safety.{
  take_safe, wakes_up, in_hand, called-perm, called_after_stop,
}
use ru_ble.Base.{Bool, arith, ◌⊎◌}
use ru_ble.Management.RubyQueue.Progress.{by_loop, own_moves, loop_ends}
use ru_ble.Management.RubyQueue.Drained.{alone}
use ru_ble.Management.RubyQueue.InOrder.{called_in_order}
use ru_ble.Management.RubyQueue.Starvation.{Served, passed_over}
use ru_ble.Management.RubyQueue.Determined.{items_called}
use ru_ble.Management.RubyQueue.Atomic.{pushes, asks_running, Ran}
use ru_ble.Management.RubyQueue.Sessions.{Turn, calls_one, goes_round, play, play-Ran}
use ru_ble.Management.RubyQueue.{is_running}
use ru_ble.Management.RubyQueue.Threads.{call_item}
use ru_ble.Base.{◌*◌}
use ru_ble.Management.RubyQueue.Threads.{Steps, Move, at_test, finished, set_stopping, release_stop}
use ru_ble.Management.RubyQueue.Mailbox.{quiet, submit, Run, view, events, steps_refine}
use ru_ble.Management.RubyQueue.Capacity.{semaphore_max, push_unbounded}
use ru_ble.Management.RubyQueue.Threads.{
  System, init, Reach, here, next, begin, later, at_take, at_call, take_item, start_thread, lock,
  release_latch, set_running, test_go, acquire, recheck_go, check, put, release_push,
}

-- One item was pushed, and the loop is about to test `_stopping` for the first time.
pushed_one : (s : System ℕ) × Reach false s
pushed_one = (
  _,
  later
      (later
        (later
          (later (later (later (later begin (check refl)) (put 7 refl)) (release_push refl))
            (start_thread 42 refl))
          lock)
        release_latch)
      set_running,
)

waiting : (s : System ℕ) × Reach false s
unfolding pushed_one
waiting = (_, later pushed_one.1 (test_go refl))

taking : (s : System ℕ) × Reach false s
unfolding waiting
taking = (_, later (later waiting.1 (acquire refl)) (recheck_go refl))

take_safe_example : (item : ℕ) × (front : List ℕ) × (pop_back taking.0.mem.q ≡ some (item, front))
unfolding taking
take_safe_example = take_safe taking.1 refl

wakes_up_example : 0 < waiting.0.mem.sem
unfolding waiting
wakes_up_example = wakes_up waiting.1 refl refl refl (inl (λ e. cc))

called-perm_example :
    Perm taking.0.pushed (taking.0.called ++ (in_hand taking.0.pc ++ taking.0.mem.q))
called-perm_example = called-perm taking.1

-- `stop` was called while the loop was about to take an item.
abbrev stopped : System ℕ
stopped = record init {
  mem = record new_queue { q = 6 ∷ 7 ∷ []; sem = 1; stopping = true };
  pc = at_take;
  stop_unreleased = true;
}

abbrev took : System ℕ
took = record stopped { mem = record stopped.mem { q = 6 ∷ [] }; pc = at_call 7 }

called_after_stop_example :
    (took.mem.stopping ≡ true) × (length took.called ≤ length stopped.called + 1)
unfolding pop_back
called_after_stop_example =
    called_after_stop {debug = false} {s = stopped} {t = took} (next here (take_item refl)) refl

abbrev fresh : RubyQueue ℕ
fresh = new_queue

abbrev items : List ℕ
items = 1 ∷ 2 ∷ 3 ∷ []

-- The newest first.
last_in_first_out : (drain 4 (push_all false items fresh)).0 ≡ 3 ∷ 2 ∷ 1 ∷ []
unfolding push_all drain round pop_back push
last_in_first_out = refl

push-stop_example :
    let t = stop fresh in
    (push true 7 t ≡ t)
    × ((push false 7 t).q ≡ [] ++ (7 ∷ []))
    × ((push false 7 t).sem ≡ t.sem + 1)
    × (round (push false 7 t) ≡ exits)
    × (drain 3 (push false 7 t) ≡ ([], push false 7 t))
    × (false ≡ false → after_acquire (push false 7 t) (push false 7 t).sem ≡ exits)
push-stop_example = push-stop false 7 fresh 3

-- The rest of the world is the clock.
abbrev ticking : Environment (RubyQueue ℕ × ℕ)
ticking = record { now = λ t. t.1; sleep = λ t. (t.0, t.1 + 1) }

push_unbounded_example :
    (s : System ℕ) × Reach false s
    × (s.unreleased ≡ 1)
    × (s.mem.stopping ≡ false)
    × (length s.mem.q ≡ semaphore_max + 1)
    × (s.mem.sem ≡ semaphore_max)
    × (semaphore_max < s.mem.sem + 1)
push_unbounded_example = push_unbounded false 7 semaphore_max (omega arith)

-- The thread calls the item and stands at the test again.
calling : (t : System ℕ) × Steps false pushed_one.0 t
unfolding pushed_one pop_back
calling = (
  _,
  next
      (next (next (next (next here (test_go refl)) (acquire refl)) (recheck_go refl))
        (take_item refl))
      call_item,
)

items_called_example :
    ((t : System ℕ) × (st : Steps false pushed_one.0 t) × (alone st ≡ true)
      × (own_moves st ≡ 5 * length pushed_one.0.mem.q))
    × (calling.0.pc ≡ at_test)
    × (calling.0.mem.q ≡ [])
    × (calling.0.called ≡ pushed_one.0.called ++ reverse pushed_one.0.mem.q)
unfolding pushed_one calling pop_back
items_called_example = items_called calling.1 pushed_one.1 refl refl refl refl refl

-- `stop` was called before the thread was created.
stop_called : (s : System ℕ) × Reach false s
stop_called = (_, later begin (set_stopping refl))

-- Then it released the semaphore, and the thread was created.
started_late : (t : System ℕ) × Steps false stop_called.0 t
unfolding stop_called
started_late = (_, next (next here (release_stop refl)) (start_thread 42 refl))

late_reached : Reach false started_late.0
unfolding stop_called started_late
late_reached = later (later stop_called.1 (release_stop refl)) (start_thread 42 refl)

loop_ends_example :
    (own_moves started_late.1 ≤ 6)
    × (((broke : Bool) × (started_late.0.pc ≡ finished broke))
        ⊎ ((u : System ℕ) × (m : Move false started_late.0 started_late.0.pc u) × (by_loop m
              ≡ true)))
unfolding stop_called started_late
loop_ends_example = loop_ends started_late.1 late_reached refl refl (λ e. cc)

-- One item is submitted, and a step later still waits.
submitting : (t : System ℕ) × Steps false init t
submitting = (_, next (next (next here (check refl)) (put 7 refl)) (release_push refl))

steps_refine_example : Run (events submitting.1) (view init) (view submitting.0)
steps_refine_example = steps_refine submitting.1

submitted : events submitting.1 ≡ quiet ∷ submit 7 ∷ quiet ∷ []
unfolding submitting
submitted = refl

-- Two items are pushed, the loop calls the newest, a third is pushed, and the loop calls what is left.
abbrev turns : List (Turn ℕ)
turns =
    calls_one (pushes 8)
    ∷ goes_round 1
    ∷ calls_one (pushes 9)
    ∷ calls_one asks_running
    ∷ goes_round 5
    ∷ []

play-Ran_example :
    Ran false pushed_one.0
      (play false turns pushed_one.0.mem).1
      (play false turns pushed_one.0.mem).0
unfolding pushed_one
play-Ran_example = play-Ran turns pushed_one.0 pushed_one.1 refl

played : (play false turns pushed_one.0.mem).0 ≡ 8 ∷ 9 ∷ 7 ∷ []
unfolding pushed_one drain round pop_back push is_running
played = refl

called_in_order_example :
    (length taking.0.mem.q ≤ 1)
    × (taking.0.pushed ≡ taking.0.called ++ (in_hand taking.0.pc ++ taking.0.mem.q))
unfolding taking waiting pushed_one
called_in_order_example = called_in_order taking.1 refl

-- Item 7 waits, and three later ones are called.
passed_over_example : Served false pushed_one.0 (8 ∷ 9 ∷ 10 ∷ [])
unfolding pushed_one
passed_over_example = passed_over (8 ∷ 9 ∷ 10 ∷ []) pushed_one.0 refl refl
