-- ===== src/Management/RubyQueue/Invariant.antt =====
-- What holds in every reachable state of the queue's threads.
use ru_ble.Base.{ℕ, ◌+◌, ◌≤◌, ◌≡◌, refl, Bool, true, false, [], ◌∷◌, arith, length, length-append}
use ru_ble.Management.RubyQueue.Order.{pop_back_lem}
use ru_ble.Management.RubyQueue.Threads.{
  Pc, System, init, Move, Reach, begin, later, absent, created, at_test, at_acquire, at_recheck,
  at_take, at_call, leaving, unlocking, finished, start_thread, lock, release_latch, set_running,
  test_go, test_stop, acquire, recheck_go, recheck_stop, take_item, call_item, clear_running,
  unlock, check, put, release_push, set_stopping, release_stop, clear_stale, take_latch,
}

abbrev pub count : Bool → ℕ
count true = 1
count false = 0

module _ {ℓ} {A : Type ℓ} where
  -- A token that the loop has taken from the semaphore and not yet used for an item.
  abbrev pub held : Pc A → ℕ
  held at_recheck = 1
  held at_take = 1
  held (leaving broke) = count broke
  held (unlocking broke) = count broke
  held (finished broke) = count broke
  held _ = 0

  abbrev pub has_mutex : Pc A → Bool
  has_mutex absent = false
  has_mutex created = false
  has_mutex (finished _) = false
  has_mutex _ = true

  -- Inside the `while`, or just behind it.
  abbrev pub loops : Pc A → Bool
  loops at_test = true
  loops at_acquire = true
  loops at_recheck = true
  loops at_take = true
  loops (at_call _) = true
  loops (leaving _) = true
  loops _ = false

  abbrev pub is_absent : Pc A → Bool
  is_absent absent = true
  is_absent _ = false

  -- Behind a test that found `_stopping` clear.
  abbrev pub went_on : Pc A → Bool
  went_on at_acquire = true
  went_on at_take = true
  went_on _ = false

  abbrev pub has_left : Pc A → Bool
  has_left (leaving _) = true
  has_left (unlocking _) = true
  has_left (finished _) = true
  has_left _ = false

  pub record Inv (s : System A) : Type ℓ where
    -- Each item in the queue has a token: in the semaphore, on its way there, or held by the loop;
    -- `stop` adds one more.
    pub tokens :
        s.mem.sem + s.unreleased + count s.stop_unreleased + held s.pc
        ≡ length s.mem.q + count s.mem.stopping
    pub wakes : went_on s.pc ≡ true → count s.mem.stopping ≤ s.mem.sem + count s.stop_unreleased
    pub stops : count s.stop_unreleased ≤ count s.mem.stopping
    pub left : has_left s.pc ≡ true → s.mem.stopping ≡ true
    pub mutex : s.mem.run_mtx ≡ has_mutex s.pc
    pub flagged : s.mem.running ≡ loops s.pc
    pub once : (s.mem.starting ≡ false) → s.pc ≡ absent

  init-Inv : Inv init
  init-Inv = record {
    tokens = omega arith;
    wakes = λ h. cc;
    stops = omega arith;
    left = λ h. cc;
    mutex = refl;
    flagged = refl;
    once = λ h. refl;
  }

  -- Every step of any thread keeps the invariant.
  pub Move-Inv :
      {debug : Bool} {s t : System A} {p : Pc A} → Move debug s p t → s.pc ≡ p → Inv s → Inv t
  Move-Inv (start_thread tid h) e v = ground arith
  Move-Inv lock e v = ground arith
  Move-Inv release_latch e v = ground arith
  Move-Inv set_running e v = ground arith
  Move-Inv (test_go h) e v = ground arith
  Move-Inv (test_stop h) e v = ground arith
  Move-Inv (acquire h) e v = ground arith
  Move-Inv (recheck_go h) e v = ground arith
  Move-Inv (recheck_stop h) e v = ground arith
  Move-Inv {s} (take_item {item} {front} h) e v =
      ground (arith, pop_back_lem s.mem.q h, length-append front (item ∷ []))
  Move-Inv call_item e v = ground arith
  Move-Inv clear_running e v = ground arith
  Move-Inv unlock e v = ground arith
  Move-Inv (check h) e v = ground arith
  Move-Inv {s} (put fn h) e v = ground (arith, length-append s.mem.q (fn ∷ []))
  Move-Inv (release_push h) e v = ground arith
  Move-Inv (set_stopping h) e v = ground arith
  Move-Inv (release_stop h) e v = ground arith
  Move-Inv (clear_stale h k) e v = ground arith
  Move-Inv take_latch e v = ground arith

  -- So it holds in every reachable state.
  pub Reach-Inv : {debug : Bool} {s : System A} → Reach debug s → Inv s
  Reach-Inv begin = init-Inv
  Reach-Inv (later r m) = Move-Inv m refl (Reach-Inv r)
