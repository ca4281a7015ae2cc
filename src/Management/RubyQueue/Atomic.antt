-- ===== src/Management/RubyQueue/Atomic.antt =====
-- The functions of ext/ruble/management/RubyQueue.cpp as single steps: each is a run of the thread that calls it, which makes
-- one shared access at a time.
use mathlib.Core.List.{append-nil, append_assoc}
use ru_ble.Base.{
  ℕ, ◌≡◌, refl, sym, subst, ap, ◌∙◌, Bool, true, false, ◌&&◌, some, List, [], ◌++◌, arith, ◌⊎◌, inl,
  inr, Bool-cases,
}
use ru_ble.Management.RubyQueue.{
  RubyQueue, push, stop, start, kill, is_running, is_stopped, try_acquire,
}
use ru_ble.Management.RubyQueue.Invariant.{Reach-Inv}
use ru_ble.Management.RubyQueue.Threads.{
  System, Move, Reach, Steps, here, next, later, absent, created, start_thread, check, put,
  release_push, set_stopping, release_stop, clear_stale, take_latch,
}

-- What any thread but that of `loop` may call.
pub data Call {ℓ} (A : Type ℓ) : Type ℓ where
  pushes : A → Call A
  starts : ℕ → Call A
  stops kills asks_running asks_stopped acquires_latch : Call A

module _ {ℓ} {A : Type ℓ} where
  -- What a call leaves of the queue.
  abbrev pub after : Bool → Call A → RubyQueue A → RubyQueue A
  after debug (pushes fn) q = push debug fn q
  after debug (starts tid) q = (start tid q).0
  after debug stops q = stop q
  after debug kills q = (kill q).0
  after debug asks_running q = (is_running q).1
  after debug asks_stopped q = (is_stopped q).1
  after debug acquires_latch q = (try_acquire q).1

  -- A run of the threads from `s` that leaves the queue as `q` is and calls `items`. The loop's thread is where it was, unless
  -- it was created, and as many other threads are at each place of `push` and `stop`.
  pub record Ran (debug : Bool) (s : System A) (q : RubyQueue A) (items : List A) : Type ℓ where
    pub final : System A
    pub steps : Steps debug s final
    pub mem : final.mem ≡ q
    pub called : final.called ≡ s.called ++ items
    pub pc : (final.pc ≡ s.pc) ⊎ (s.pc ≡ absent)
    pub within :
        (final.checked ≡ s.checked)
        × (final.unreleased ≡ s.unreleased)
        × (final.stop_unreleased ≡ s.stop_unreleased)

  pub nothing : {debug : Bool} {q : RubyQueue A} (s : System A) → s.mem ≡ q → Ran debug s q []
  nothing s e = record {
    final = s;
    steps = here;
    mem = e;
    called = sym (append-nil s.called);
    pc = inl refl;
    within = (refl, refl, refl);
  }

  onto :
      {debug : Bool} {s : System A} {p q : RubyQueue A} {items : List A}
      → Ran debug s p items
      → p ≡ q
      → Ran debug s q items
  onto {debug} {s} {items = items} ran e = subst (λ q. Ran debug s q items) e ran

  push-Ran : {debug : Bool} (s : System A) (fn : A) → Ran debug s (push debug fn s.mem) []
  unfolding push
  push-Ran {debug} s fn = elim (Bool-cases (s.mem.stopping && debug)) [
    | inl h ↦ nothing s (ground arith)
    | inr h ↦ record {
      final = _;
      steps =
          next (next (next here (check h)) (put {n = s.checked} fn (omega arith)))
            (release_push {n = s.unreleased} (omega arith));
      mem = ground arith;
      called = sym (append-nil s.called);
      pc = inl refl;
      within = (refl, refl, refl);
    }
  ]

  stop-Ran :
      {debug : Bool} (s : System A)
      → (s.mem.stopping ≡ false → s.stop_unreleased ≡ false)
      → Ran debug s (stop s.mem) []
  unfolding stop
  stop-Ran s idle = elim (Bool-cases s.mem.stopping) [
    | inl h ↦ nothing s (ground arith)
    | inr h ↦ record {
      final = _;
      steps = next (next here (set_stopping h)) (release_stop refl);
      mem = ground arith;
      called = sym (append-nil s.called);
      pc = inl refl;
      within = (refl, refl, sym (idle h));
    }
  ]

  abbrev started : ℕ → System A → System A
  started tid s = record s {
    mem = record s.mem { starting = true; rb_thread = some tid };
    pc = created;
  }

  start-Ran :
      {debug : Bool} (s : System A) (tid : ℕ)
      → (s.mem.starting ≡ false → s.pc ≡ absent)
      → Ran debug s (start tid s.mem).0 []
  unfolding start
  start-Ran {debug} s tid once = elim (Bool-cases s.mem.starting) [
    | inl h ↦ nothing s (ground arith)
    | inr h ↦ record {
      final = started tid s;
      steps =
          next here
            (subst (λ p. Move debug s p (started tid s)) (sym (once h)) (start_thread tid h));
      mem = ground arith;
      called = sym (append-nil s.called);
      pc = inr (once h);
      within = (refl, refl, refl);
    }
  ]

  is_running-Ran : {debug : Bool} (s : System A) → Ran debug s (is_running s.mem).1 []
  unfolding is_running
  is_running-Ran s = elim (Bool-cases s.mem.running) [
    | inr h ↦ nothing s (ground arith)
    | inl h ↦ elim (Bool-cases s.mem.run_mtx) [
      | inl k ↦ nothing s (ground arith)
      | inr k ↦ record {
        final = _;
        steps = next here (clear_stale h k);
        mem = ground arith;
        called = sym (append-nil s.called);
        pc = inl refl;
        within = (refl, refl, refl);
      }
    ]
  ]

  is_stopped-Ran : {debug : Bool} (s : System A) → Ran debug s (is_stopped s.mem).1 []
  unfolding is_stopped
  is_stopped-Ran s = elim (Bool-cases s.mem.stopping) [
    | inl h ↦ onto (is_running-Ran s) (ground arith)
    | inr h ↦ nothing s (ground arith)
  ]

  try_acquire-Ran : {debug : Bool} (s : System A) → Ran debug s (try_acquire s.mem).1 []
  unfolding try_acquire
  try_acquire-Ran s = record {
    final = _;
    steps = next here take_latch;
    mem = refl;
    called = sym (append-nil s.called);
    pc = inl refl;
    within = (refl, refl, refl);
  }

  -- Each function, as a step, is a run of the thread that calls it.
  pub after-Ran :
      {debug : Bool} {s : System A}
      → Reach debug s
      → (call : Call A) → Ran debug s (after debug call s.mem) []
  unfolding kill
  after-Ran {s} r (pushes fn) = push-Ran s fn
  after-Ran {s} r (starts tid) = start-Ran s tid (Reach-Inv r).once
  after-Ran {s} r stops = stop-Ran s (ground (arith, (Reach-Inv r).stops))
  after-Ran {s} r kills = stop-Ran s (ground (arith, (Reach-Inv r).stops))
  after-Ran {s} r asks_running = is_running-Ran s
  after-Ran {s} r asks_stopped = is_stopped-Ran s
  after-Ran {s} r acquires_latch = try_acquire-Ran s

  pub chain :
      {debug : Bool} {s t u : System A} → Steps debug s t → Steps debug t u → Steps debug s u
  chain st here = st
  chain st (next tu m) = next (chain st tu) m

  pub reached : {debug : Bool} {s t : System A} → Reach debug s → Steps debug s t → Reach debug t
  reached r here = r
  reached r (next st m) = later (reached r st) m

  -- One run behind another.
  pub chain-Ran :
      {debug : Bool} {s : System A} {p q : RubyQueue A} {items rest : List A}
      → (first : Ran debug s p items) → Ran debug first.final q rest
      → Ran debug s q (items ++ rest)
  chain-Ran {s = s} {items = items} {rest = rest} first second = record {
    final = second.final;
    steps = chain first.steps second.steps;
    mem = second.mem;
    called =
        second.called ∙ (ap (λ xs. xs ++ rest) first.called ∙ append_assoc s.called items rest);
    pc = ground (arith, first.pc, second.pc);
    within = ground (arith, first.within, second.within);
  }
