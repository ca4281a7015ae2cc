-- ===== src/Management/RubyQueue/Safety.antt =====
-- What the queue's threads can rely on, in every reachable state.
use mathlib.Core.List.{Perm, append_assoc, perm_append_singleton}
use mathlib.Core.List.Perm
use ru_ble.Base.{
  ℕ, ◌+◌, ◌≤◌, ◌<◌, ◌≡◌, refl, ◌≢◌, ◌⊎◌, inl, inr, Bool, true, false, ◌&&◌, not, some, List, [],
  ◌∷◌, ◌++◌, arith, length, length-append,
}
use ru_ble.Management.RubyQueue.{pop_back, is_running, is_stopped}
use ru_ble.Management.RubyQueue.Order.{pop_back_lem, pop_back-total}
use ru_ble.Management.RubyQueue.Invariant.{Reach-Inv, loops}
use ru_ble.Management.RubyQueue.Threads.{
  Pc, System, Move, Reach, Steps, here, next, begin, later, at_acquire, at_take, at_call, test_go,
  recheck_go, take_item, call_item, put,
}

module _ {ℓ} {A : Type ℓ} where
  -- The assertion of `loop` never fails: where the loop is about to take an item there is one,
  -- whatever the other threads do.
  pub take_safe :
      {debug : Bool} {s : System A}
      → Reach debug s
      → s.pc ≡ at_take
      → (item : A) × (front : List A) × (pop_back s.mem.q ≡ some (item, front))
  take_safe {s} r e = pop_back-total s.mem.q (ground (arith, Reach-Inv r))

  -- No wakeup is lost: where the loop waits for the semaphore and no other thread is in the middle
  -- of `push` or `stop`, it goes on if an item waits or `stop` was called.
  pub wakes_up :
      {debug : Bool} {s : System A}
      → Reach debug s
      → s.pc ≡ at_acquire
      → s.unreleased ≡ 0
      → s.stop_unreleased ≡ false
      → (s.mem.q ≢ []) ⊎ (s.mem.stopping ≡ true)
      → 0 < s.mem.sem
  wakes_up {s} r e n p (inl h) = ground (arith, Reach-Inv r)
  wakes_up {s} r e n p (inr h) = ground (arith, Reach-Inv r)

  -- `running` answers whether the loop is running, and changes nothing; `stopped` answers whether
  -- `stop` was called and the loop is not running, and changes nothing.
  pub is_running-loops :
      {debug : Bool} {s : System A}
      → Reach debug s
      → (is_running s.mem ≡ (loops s.pc, s.mem))
        × (is_stopped s.mem ≡ (s.mem.stopping && not (loops s.pc), s.mem))
  unfolding is_running is_stopped
  is_running-loops {s} r = ground (arith, Reach-Inv r)

  -- The item that the loop has taken and not yet called.
  abbrev pub in_hand : Pc A → List A
  in_hand (at_call item) = item ∷ []
  in_hand _ = []

  abbrev pub Kept : System A → Type ℓ
  Kept s = Perm s.pushed (s.called ++ (in_hand s.pc ++ s.mem.q))

  Move-Kept :
      {debug : Bool} {s t : System A} {p : Pc A} → Move debug s p t → s.pc ≡ p → Kept s → Kept t
  Move-Kept {s} (take_item {item} {front} h) e v =
      Perm.trans (rw (e, pop_back_lem s.mem.q h) at v)
        (Perm.append_left s.called (perm_append_singleton item front))
  Move-Kept {s} (call_item {item}) e v = rw (append_assoc s.called (item ∷ []) s.mem.q) (rw e at v)
  Move-Kept {s} (put fn h) e v =
      rw
        (
          ← append_assoc (in_hand s.pc) s.mem.q (fn ∷ []),
          ← append_assoc s.called (in_hand s.pc ++ s.mem.q) (fn ∷ []),
        )
        (Perm.append_right (fn ∷ []) v)
  Move-Kept m e v = ground arith

  -- No item is lost and none is called twice: those called, the one in hand and those in the queue
  -- are together the pushed ones.
  pub called-perm :
      {debug : Bool} {s : System A}
      → Reach debug s
      → Perm s.pushed (s.called ++ (in_hand s.pc ++ s.mem.q))
  called-perm begin = Perm.rfl
  called-perm (later r m) = Move-Kept m refl (called-perm r)

  -- What the loop may still call once `stop` was called.
  abbrev owed : Pc A → ℕ
  owed at_take = 1
  owed (at_call _) = 1
  owed _ = 0

  -- The premise of a move, for the catch-all clause below.
  abbrev Guard : {debug : Bool} {s t : System A} {p : Pc A} → Move debug s p t → Type 0
  Guard {s = s} (recheck_go _) = s.mem.stopping ≡ false
  Guard _ = Unit

  guard : {debug : Bool} {s t : System A} {p : Pc A} (m : Move debug s p t) → Guard m
  guard (recheck_go h) = h
  guard _ = tt

  Move-owed :
      {debug : Bool} {s t : System A} {p : Pc A}
      → Move debug s p t
      → s.pc ≡ p
      → s.mem.stopping ≡ true
      → (t.mem.stopping ≡ true) × (length t.called + owed t.pc ≤ length s.called + owed s.pc)
  Move-owed (test_go g) e h = ground arith
  Move-owed {s} (call_item {item}) e h = ground (arith, length-append s.called (item ∷ []))
  Move-owed m e h = ground (arith, guard m)

  Steps-owed :
      {debug : Bool} {s t : System A}
      → Steps debug s t
      → s.mem.stopping ≡ true
      → (t.mem.stopping ≡ true) × (length t.called + owed t.pc ≤ length s.called + owed s.pc)
  Steps-owed here h = (h, omega arith)
  Steps-owed (next st m) h =
      let (h', le) = Steps-owed st h in let (h'', le') = Move-owed m refl h' in (h'', omega arith)

  owed-le : (p : Pc A) → owed p ≤ 1
  owed-le p = ground arith

  -- Once `stop` was called it stays so, and at most one more item is called, whatever the threads
  -- do and however many items wait.
  pub called_after_stop :
      {debug : Bool} {s t : System A}
      → Steps debug s t
      → s.mem.stopping ≡ true
      → (t.mem.stopping ≡ true) × (length t.called ≤ length s.called + 1)
  called_after_stop {s} st h = ground (arith, Steps-owed st h, owed-le s.pc)
