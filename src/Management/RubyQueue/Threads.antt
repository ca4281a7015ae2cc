-- ===== src/Management/RubyQueue/Threads.antt =====
-- The queue's threads, one shared access at a time: the Ruby thread that runs `loop`, any number of
-- threads in `push`, and threads in `stop`, interleaved in any order.
use ru_ble.Base.{ℕ, suc, ◌+◌, ◌≡◌, Bool, true, false, ◌&&◌, some, List, [], ◌∷◌, ◌++◌}
use ru_ble.Management.RubyQueue.{RubyQueue, new_queue, pop_back}

-- Where the thread of `loop` stands.
pub data Pc {ℓ} (A : Type ℓ) : Type ℓ where
  absent : Pc A  -- no thread was created yet
  created : Pc A  -- before the lock of `_run_mtx`
  locked : Pc A  -- before `_startup_latch.release()`
  latched : Pc A  -- before `_running.test_and_set()`
  at_test : Pc A  -- the condition of the `while`
  at_acquire : Pc A  -- before `_sem.acquire()`
  at_recheck : Pc A  -- the test of `_stopping` behind it
  at_take : Pc A  -- the block that takes the last item
  at_call : A → Pc A  -- before `rb_thread_call_with_gvl`
  leaving : Bool → Pc A  -- behind the `while`; whether it was left by `break`
  unlocking : Bool → Pc A  -- `_running` is clear, `_run_mtx` is held
  finished : Bool → Pc A

-- `checked` threads have passed the test of `push`, and `unreleased` ones have put their item into
-- the queue and not yet released the semaphore; `stop_unreleased` is the same for `stop`. The items
-- that were put into the queue and those that were called are kept, in order.
pub record System {ℓ} (A : Type ℓ) : Type ℓ where
  pub mem : RubyQueue A
  pub pc : Pc A
  pub checked : ℕ
  pub unreleased : ℕ
  pub stop_unreleased : Bool
  pub pushed : List A
  pub called : List A

abbrev pub init {ℓ} : {A : Type ℓ} → System A
init = record {
  mem = new_queue;
  pc = absent;
  checked = 0;
  unreleased = 0;
  stop_unreleased = false;
  pushed = [];
  called = [];
}

module _ {ℓ} {A : Type ℓ} (debug : Bool) where
  -- A step from `s` at the program counter `p`, which is that of `s`.
  pub data Move (s : System A) : Pc A → System A → Type ℓ where
    -- `start`, in one step: the flag is tested and set, the thread is created and `_rb_thread` is set. Its caller holds Ruby's
    -- global lock, which the new thread needs before it comes to `loop`; what others could see in between is left out.
    start_thread :
        (tid : ℕ)
        → s.mem.starting ≡ false
        → Move s absent (record s {
          mem = record s.mem { starting = true; rb_thread = some tid };
          pc = created;
        })
    -- `loop`
    lock : Move s created (record s { mem = record s.mem { run_mtx = true }; pc = locked })
    release_latch : Move s locked (record s { mem = record s.mem { latch = true }; pc = latched })
    set_running : Move s latched (record s { mem = record s.mem { running = true }; pc = at_test })
    test_go : s.mem.stopping ≡ false → Move s at_test (record s { pc = at_acquire })
    test_stop : s.mem.stopping ≡ true → Move s at_test (record s { pc = leaving false })
    acquire :
        {n : ℕ}
        → s.mem.sem ≡ suc n
        → Move s at_acquire (record s { mem = record s.mem { sem = n }; pc = at_recheck })
    recheck_go : s.mem.stopping ≡ false → Move s at_recheck (record s { pc = at_take })
    recheck_stop : s.mem.stopping ≡ true → Move s at_recheck (record s { pc = leaving true })
    take_item :
        {item : A} {front : List A}
        → pop_back s.mem.q ≡ some (item, front)
        → Move s at_take (record s { mem = record s.mem { q = front }; pc = at_call item })
    call_item :
        {item : A}
        → Move s (at_call item) (record s { pc = at_test; called = s.called ++ (item ∷ []) })
    clear_running :
        {broke : Bool}
        → Move s
            (leaving broke)
            (record s { mem = record s.mem { running = false }; pc = unlocking broke })
    unlock :
        {broke : Bool}
        → Move s
            (unlocking broke)
            (record s { mem = record s.mem { run_mtx = false }; pc = finished broke })
    -- `push`
    check :
        {p : Pc A}
        → (s.mem.stopping && debug) ≡ false
        → Move s p (record s { checked = s.checked + 1 })
    put :
        {p : Pc A} {n : ℕ} (fn : A)
        → s.checked ≡ suc n
        → Move s p (record s {
          mem = record s.mem { q = s.mem.q ++ (fn ∷ []) };
          checked = n;
          unreleased = s.unreleased + 1;
          pushed = s.pushed ++ (fn ∷ []);
        })
    release_push :
        {p : Pc A} {n : ℕ}
        → s.unreleased ≡ suc n
        → Move s p (record s { mem = record s.mem { sem = s.mem.sem + 1 }; unreleased = n })
    -- `stop`
    set_stopping :
        {p : Pc A}
        → s.mem.stopping ≡ false
        → Move s p (record s { mem = record s.mem { stopping = true }; stop_unreleased = true })
    release_stop :
        {p : Pc A}
        → s.stop_unreleased ≡ true
        → Move s p
            (record s { mem = record s.mem { sem = s.mem.sem + 1 }; stop_unreleased = false })
    -- `running`, where it finds the flag set and the mutex free.
    clear_stale :
        {p : Pc A}
        → s.mem.running ≡ true
        → s.mem.run_mtx ≡ false
        → Move s p (record s { mem = record s.mem { running = false } })
    -- `_startup_latch.try_acquire()` in `ensure_started`
    take_latch : {p : Pc A} → Move s p (record s { mem = record s.mem { latch = false } })

  -- What can follow a state.
  pub data Steps (s : System A) : System A → Type ℓ where
    here : Steps s s
    next : {t u : System A} → Steps s t → Move t t.pc u → Steps s u

  pub data Reach : System A → Type ℓ where
    begin : Reach init
    later : {s t : System A} → Reach s → Move s s.pc t → Reach t
