-- ===== src/Management/RubyQueue/Determined.antt =====
-- The thread of `loop` has no choice: where it moves alone, each state has one next.
use mathlib.Core.List.{reverse}
use mathlib.Core.Option.{some_inj}
use ru_ble.Base.{
  ◌≡◌, refl, length, ap, sym, ◌∙◌, Bool, true, false, ◌&&◌, arith, ◌*◌, suc, zero, Option, none,
  some, if◌then◌else◌, [], ◌∷◌, ◌++◌,
}
use ru_ble.Base.{Option-cases, Bool-cases, inl, inr, subst, ◌-◌}
use ru_ble.Management.RubyQueue.{pop_back}
use ru_ble.Management.RubyQueue.Progress.{by_loop, own_moves}
use ru_ble.Management.RubyQueue.Drained.{alone, run-Drains}
use ru_ble.Management.RubyQueue.Threads.{
  Pc, Move, System, Steps, Reach, here, next, absent, created, locked, latched, at_test, at_acquire,
  at_recheck, at_take, at_call, leaving, unlocking, finished, test_go, test_stop, lock,
  release_latch, set_running, acquire, recheck_go, recheck_stop, take_item, call_item,
  clear_running, unlock,
}

both : (x y : Bool) → x && y ≡ true → (x ≡ true) × (y ≡ true)
both true y h = (refl, h)
both false y h = cc

module _ {ℓ} {A : Type ℓ} where
  -- What the thread does next; `none` means that it waits, or that there is no thread.
  abbrev pub loop_step : System A → Pc A → Option (System A)
  loop_step s absent = none
  loop_step s created = some (record s { mem = record s.mem { run_mtx = true }; pc = locked })
  loop_step s locked = some (record s { mem = record s.mem { latch = true }; pc = latched })
  loop_step s latched = some (record s { mem = record s.mem { running = true }; pc = at_test })
  loop_step s at_test =
      some
        (if s.mem.stopping then record s { pc = leaving false } else record s { pc = at_acquire })
  loop_step s at_acquire = elim s.mem.sem [
    | zero ↦ none
    | suc n ↦ some (record s { mem = record s.mem { sem = n }; pc = at_recheck })
  ]
  loop_step s at_recheck =
      some (if s.mem.stopping then record s { pc = leaving true } else record s { pc = at_take })
  loop_step s at_take = elim (pop_back s.mem.q) [
    | none ↦ none
    | some (item, front) ↦ some (record s { mem = record s.mem { q = front }; pc = at_call item })
  ]
  loop_step s (at_call item) = some (record s { pc = at_test; called = s.called ++ (item ∷ []) })
  loop_step s (leaving broke) =
      some (record s { mem = record s.mem { running = false }; pc = unlocking broke })
  loop_step s (unlocking broke) =
      some (record s { mem = record s.mem { run_mtx = false }; pc = finished broke })
  loop_step s (finished broke) = none

  pub loop_step_lem :
      {debug : Bool} {s t : System A} {p : Pc A} (m : Move debug s p t)
      → by_loop m ≡ true
      → loop_step s p ≡ some t
  loop_step_lem lock b = refl
  loop_step_lem release_latch b = refl
  loop_step_lem set_running b = refl
  loop_step_lem (test_go h) b = ground (arith, h)
  loop_step_lem (test_stop h) b = ground (arith, h)
  loop_step_lem (acquire h) b = ground (arith, h)
  loop_step_lem (recheck_go h) b = ground (arith, h)
  loop_step_lem (recheck_stop h) b = ground (arith, h)
  loop_step_lem (take_item h) b = ground (arith, h)
  loop_step_lem call_item b = refl
  loop_step_lem clear_running b = refl
  loop_step_lem unlock b = refl
  loop_step_lem m b = cc

  -- A step of the thread to a given state.
  abbrev OwnMove : Bool → System A → Pc A → System A → Type ℓ
  OwnMove debug s p t = (m : Move debug s p t) × (by_loop m ≡ true)

  own_move :
      {debug : Bool} {s u : System A} {p : Pc A} (t : System A) (m : Move debug s p u)
      → by_loop m ≡ true
      → some u ≡ some t
      → OwnMove debug s p t
  own_move {debug} {s} {p = p} t m b e = subst (OwnMove debug s p) (some_inj.0 e) (m, b)

  -- The thread can make the move that `loop_step` says.
  pub loop_step-OwnMove :
      {debug : Bool} (s : System A) (p : Pc A) (t : System A)
      → loop_step s p ≡ some t
      → OwnMove debug s p t
  loop_step-OwnMove s absent t e = cc
  loop_step-OwnMove s created t e = own_move t lock refl e
  loop_step-OwnMove s locked t e = own_move t release_latch refl e
  loop_step-OwnMove s latched t e = own_move t set_running refl e
  loop_step-OwnMove s at_test t e = elim (Bool-cases s.mem.stopping) [
    | inl h ↦ own_move t (test_stop h) refl (ground (arith, e, h))
    | inr h ↦ own_move t (test_go h) refl (ground (arith, e, h))
  ]
  loop_step-OwnMove s at_acquire t e =
      own_move t (acquire {n = s.mem.sem - 1} (ground (arith, e))) refl (ground (arith, e))
  loop_step-OwnMove s at_recheck t e = elim (Bool-cases s.mem.stopping) [
    | inl h ↦ own_move t (recheck_stop h) refl (ground (arith, e, h))
    | inr h ↦ own_move t (recheck_go h) refl (ground (arith, e, h))
  ]
  loop_step-OwnMove s at_take t e = elim (Option-cases (pop_back s.mem.q)) [
    | inl h ↦ absurd (ground (arith, e, h))
    | inr ((item, front), h) ↦ own_move t (take_item h) refl (ground (arith, e, h))
  ]
  loop_step-OwnMove s (at_call item) t e = own_move t call_item refl e
  loop_step-OwnMove s (leaving broke) t e = own_move t clear_running refl e
  loop_step-OwnMove s (unlocking broke) t e = own_move t unlock refl e
  loop_step-OwnMove s (finished broke) t e = cc

  deterministic :
      {debug : Bool} {s r t u : System A} (m : Move debug s s.pc t) (n : Move debug r r.pc u)
      → s ≡ r
      → by_loop m ≡ true
      → by_loop n ≡ true
      → t ≡ u
  deterministic m n same a b =
      some_inj.0 (
        sym (loop_step_lem m a)
        ∙ (ap (λ (s : System A). loop_step s s.pc) same ∙ loop_step_lem n b))

  -- Two runs of the thread alone that have as many moves end in the same state.
  pub alone_unique :
      {debug : Bool} {s t u : System A} (st : Steps debug s t) (su : Steps debug s u)
      → alone st ≡ true
      → alone su ≡ true
      → own_moves st ≡ own_moves su
      → t ≡ u
  alone_unique here here a b e = refl
  alone_unique here (next su n) a b e = absurd (ground (arith, a, b, e))
  alone_unique (next st m) here a b e = absurd (ground (arith, a, b, e))
  alone_unique (next st m) (next su n) a b e =
      let (a', last) = both (alone st) (by_loop m) a in
      let (b', last') = both (alone su) (by_loop n) b in
      let fewer : own_moves st ≡ own_moves su = ground (arith, e, last, last') in
      deterministic m n (alone_unique st su a' b' fewer) last last'

  -- Where the loop is about to test `_stopping`, `stop` was not called and no item is in the queue whose release of the
  -- semaphore is still to come, the thread of `loop` can move alone five times for each item that waits; and in every run
  -- of so many moves it calls each of these items, the newest first, and stands at the test again with an empty queue.
  pub items_called :
      {debug : Bool} {s u : System A} (su : Steps debug s u)
      → Reach debug s
      → s.pc ≡ at_test
      → s.mem.stopping ≡ false
      → s.unreleased ≡ 0
      → alone su ≡ true
      → own_moves su ≡ 5 * length s.mem.q
      → ((t : System A) × (st : Steps debug s t) × (alone st ≡ true)
          × (own_moves st ≡ 5 * length s.mem.q))
        × (u.pc ≡ at_test)
        × (u.mem.q ≡ [])
        × (u.called ≡ s.called ++ reverse s.mem.q)
  items_called {s = s} su r e h k a moves =
      let (t, st, b, n, p, q, c) = run-Drains r e h k in
      let same = alone_unique st su b a (n ∙ sym moves) in
      ((t, st, b, n), rw same at p, rw same at q, rw same at c)
