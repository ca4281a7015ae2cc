-- ===== src/Management/RubyQueue/Sessions.antt =====
-- The functions of ext/ruble/management/RubyQueue.cpp as single steps, one after another, against the threads.
use ru_ble.Base.{
  ℕ, zero, suc, ◌≡◌, refl, sym, subst, Bool, false, Option, none, some, List, [], ◌∷◌, ◌++◌, arith,
  inl,
}
use ru_ble.Management.RubyQueue.{
  RubyQueue, Round, exits, blocks, faults, push, stop, start, kill, is_running, is_stopped,
  try_acquire, round, drain, pop_back, calls, after_acquire,
}
use ru_ble.Management.RubyQueue as Queue
use ru_ble.Management.RubyQueue.Drained.{tests}
use ru_ble.Management.RubyQueue.Threads.{
  test_go, acquire, take_item, recheck_go, call_item, System, Reach, Steps, here, next, at_test,
}
use ru_ble.Management.RubyQueue.Atomic.{Call, after, Ran, nothing, after-Ran, chain-Ran, reached}

module _ {ℓ} {A : Type ℓ} where
  take_item_lem :
      (q : RubyQueue A) (last : Option (A × List A)) {item : A} {q' : RubyQueue A}
      → Queue.take_item q last ≡ calls item q'
      → (front : List A) × (last ≡ some (item, front)) × (q' ≡ record q { q = front })
  unfolding Queue.take_item
  take_item_lem q none h = cc
  take_item_lem q (some (item, front)) h = (front, ground arith, ground arith)

  after_acquire_lem :
      (q : RubyQueue A) (sem : ℕ) {item : A} {q' : RubyQueue A}
      → q.stopping ≡ false
      → after_acquire q sem ≡ calls item q'
      → (n : ℕ) × (sem ≡ suc n)
        × (front : List A) × (pop_back q.q ≡ some (item, front))
        × (q' ≡ record q { q = front; sem = n })
  unfolding after_acquire
  after_acquire_lem q zero go h = cc
  after_acquire_lem q (suc n) go h =
      let (front, last, left) =
        take_item_lem (record q { sem = n }) (pop_back q.q) (ground (arith, h, go)) in
      (n, refl, front, last, left)

  -- A round of the loop that calls an item is a run of its thread, from one test of `_stopping` to the next.
  round-Ran :
      {debug : Bool} {item : A} {q' : RubyQueue A} (s : System A)
      → s.pc ≡ at_test
      → round s.mem ≡ calls item q'
      → Ran debug s q' (item ∷ [])
  unfolding round
  round-Ran {debug} {item} s e h =
      let go : s.mem.stopping ≡ false = ground (arith, h) in
      let (n, token, front, last, left) =
        after_acquire_lem s.mem s.mem.sem go (ground (arith, h, go)) in
      let t : System A = record s {
        mem = record s.mem { q = front; sem = n };
        pc = at_test;
        called = s.called ++ (item ∷ []);
      } in
      let run : Steps debug (tests s) t =
        next
          (next (next (next (next here (test_go go)) (acquire token)) (recheck_go go))
            (take_item last))
          call_item in
      record {
        final = t;
        steps = subst (λ (x : System A). Steps debug x t) (λ i. record s { pc = sym e i }) run;
        mem = sym left;
        called = refl;
        pc = inl (sym e);
        within = (refl, refl, refl);
      }

  -- The calls of one round and of those behind it.
  abbrev ahead : ℕ → RubyQueue A → Round A → List A × RubyQueue A
  ahead fuel q r = elim r [
    | exits ↦ ([], q)
    | blocks ↦ ([], q)
    | faults ↦ ([], q)
    | calls item q' ↦ let (items, t) = drain fuel q' in (item ∷ items, t)
  ]

  ahead-Ran :
      {debug : Bool} (fuel : ℕ) (s : System A) (r : Round A)
      → ((t : System A) → t.pc ≡ at_test → Ran debug t (drain fuel t.mem).1 (drain fuel t.mem).0)
      → s.pc ≡ at_test
      → round s.mem ≡ r
      → Ran debug s (ahead fuel s.mem r).1 (ahead fuel s.mem r).0
  ahead-Ran {debug} fuel s (calls item q') behind e h =
      let first : Ran debug s q' (item ∷ []) = round-Ran s e h in
      let rest = behind first.final (ground (arith, first.pc, e)) in
      chain-Ran first
        (subst (λ q. Ran debug first.final (drain fuel q).1 (drain fuel q).0) first.mem rest)
  ahead-Ran fuel s exits behind e h = nothing s refl
  ahead-Ran fuel s blocks behind e h = nothing s refl
  ahead-Ran fuel s faults behind e h = nothing s refl

  -- The loop's thread runs alone for at most so many rounds.
  drain-Ran :
      {debug : Bool} (fuel : ℕ) (s : System A)
      → s.pc ≡ at_test
      → Ran debug s (drain fuel s.mem).1 (drain fuel s.mem).0
  unfolding drain
  drain-Ran zero s e = nothing s refl
  drain-Ran (suc fuel) s e = ahead-Ran fuel s (round s.mem) (drain-Ran fuel) e refl

-- Another thread calls a function, or the loop gets so many rounds.
pub data Turn {ℓ} (A : Type ℓ) : Type ℓ where
  calls_one : Call A → Turn A
  goes_round : ℕ → Turn A

module _ {ℓ} {A : Type ℓ} where
  -- What the functions, as steps, call and leave.
  abbrev pub play : Bool → List (Turn A) → RubyQueue A → List A × RubyQueue A
  play debug [] q = ([], q)
  play debug (calls_one call ∷ turns) q = play debug turns (after debug call q)
  play debug (goes_round fuel ∷ turns) q =
      let (items, q') = drain fuel q in
      let (rest, q'') = play debug turns q' in (items ++ rest, q'')

  -- The functions as single steps do what the threads can do: from every state that the threads can get to with the loop
  -- about to test `_stopping`, and for every sequence of calls of `push`, `start`, `stop`, `kill` (up to `rb_thread_kill`), `running`, `stopped` and
  -- `_startup_latch.try_acquire` and of rounds of the loop, the threads have a run that leaves the queue as these functions
  -- leave it and calls the items that they call, in the same order, with the loop at the test again and as many other threads
  -- at each place of `push` and `stop` as before.
  pub play-Ran :
      {debug : Bool} (turns : List (Turn A)) (s : System A)
      → Reach debug s
      → s.pc ≡ at_test
      → Ran debug s (play debug turns s.mem).1 (play debug turns s.mem).0
  play-Ran [] s r e = nothing s refl
  play-Ran {debug} (calls_one call ∷ turns) s r e =
      let first = after-Ran r call in
      let rest = play-Ran turns first.final (reached r first.steps) (ground (arith, first.pc, e)) in
      chain-Ran first (
        subst (λ q. Ran debug first.final (play debug turns q).1 (play debug turns q).0) first.mem
          rest)
  play-Ran {debug} (goes_round fuel ∷ turns) s r e =
      let first = drain-Ran fuel s e in
      let rest = play-Ran turns first.final (reached r first.steps) (ground (arith, first.pc, e)) in
      chain-Ran first (
        subst (λ q. Ran debug first.final (play debug turns q).1 (play debug turns q).0) first.mem
          rest)
