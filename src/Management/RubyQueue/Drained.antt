-- ===== src/Management/RubyQueue/Drained.antt =====
-- The thread of `loop` by itself: ext/ruble/management/RubyQueue.cpp, from one test of `_stopping` to another.
use mathlib.Core.List.{reverse, reverse-append, append-nil, append_assoc}
use ru_ble.Base.{
  ℕ, zero, suc, ◌+◌, ◌*◌, ◌-◌, ◌≡◌, refl, sym, ap, subst, ◌∙◌, Bool, true, false, ◌&&◌, some, List,
  [], ◌∷◌, ◌++◌, arith, length, length-append,
}
use ru_ble.Management.RubyQueue.{pop_back}
use ru_ble.Management.RubyQueue.Order.{pop_back_lem, pop_back-total}
use ru_ble.Management.RubyQueue.Invariant.{Reach-Inv}
use ru_ble.Management.RubyQueue.Progress.{by_loop, own_moves}
use ru_ble.Management.RubyQueue.Threads.{
  System, Reach, Steps, here, next, at_test, test_go, acquire, recheck_go, take_item, call_item,
}

module _ {ℓ} {A : Type ℓ} {debug : Bool} where
  -- No other thread makes a step.
  abbrev pub alone : {s t : System A} → Steps debug s t → Bool
  alone here = true
  alone (next st m) = alone st && by_loop m

module _ {ℓ} {A : Type ℓ} where
  abbrev pub tests : System A → System A
  tests s = record s { pc = at_test }

  -- What a state leads to, where the thread moves alone.
  abbrev pub Drains : Bool → System A → ℕ → List A → Type ℓ
  Drains debug s moves calls =
      (t : System A) × (st : Steps debug s t) × (alone st ≡ true)
      × (own_moves st ≡ moves)
      × (t.pc ≡ at_test)
      × (t.mem.q ≡ [])
      × (t.called ≡ calls)

  -- A round takes the last item and calls it.
  abbrev called_last : System A → A → List A → System A
  called_last s item front = record s {
    mem = record s.mem { q = front; sem = s.mem.sem - 1 };
    called = s.called ++ (item ∷ []);
  }

  round_steps :
      {debug : Bool} {s0 : System A} (s : System A) (item : A) (front : List A)
      → (st : Steps debug s0 (tests s)) → alone st ≡ true
      → s.mem.stopping ≡ false
      → s.mem.sem ≡ suc (s.mem.sem - 1)
      → pop_back s.mem.q ≡ some (item, front)
      → (st' : Steps debug s0 (tests (called_last s item front))) × (alone st' ≡ true)
        × (own_moves st' ≡ own_moves st + 5)
  round_steps s item front st a h k e = (
    next (next (next (next (next st (test_go h)) (acquire k)) (recheck_go h)) (take_item e))
        call_item,
    ground (arith, a),
    omega arith,
  )

  length-zero : (xs : List A) → length xs ≡ 0 → xs ≡ []
  length-zero [] h = refl
  length-zero (x ∷ xs) h = absurd (omega (arith, h))

  called-reverse :
      (called : List A) (item : A) (front q : List A)
      → q ≡ front ++ (item ∷ [])
      → (called ++ (item ∷ [])) ++ reverse front ≡ called ++ reverse q
  called-reverse called item front q e =
      rw (e, reverse-append front (item ∷ []), append_assoc called (item ∷ []) (reverse front)) refl

  drains :
      {debug : Bool} {s0 : System A} (n : ℕ) (s : System A)
      → (st : Steps debug s0 (tests s)) → alone st ≡ true
      → s.mem.stopping ≡ false
      → s.mem.sem ≡ n
      → length s.mem.q ≡ n
      → Drains debug s0 (own_moves st + 5 * n) (s.called ++ reverse s.mem.q)
  drains zero s st a h k l =
      let none_left : s.mem.q ≡ [] = length-zero s.mem.q l in
      (tests s, st, a, omega arith, refl, none_left, rw (none_left, append-nil s.called) refl)
  drains (suc n) s st a h k l =
      let (item, front, e) = pop_back-total s.mem.q (omega (arith, l)) in
      let split = pop_back_lem s.mem.q e in
      let (st', a', moves) = round_steps s item front st a h (omega (arith, k)) e in
      let shorter : length front ≡ n =
        omega (arith, l, ap length split, length-append front (item ∷ [])) in
      let (t, st'', a'', moves', p, q, c) =
        drains n (called_last s item front) st' a' h (omega (arith, k)) shorter in
      (
        t,
        st'',
        a'',
        omega (arith, moves, moves'),
        p,
        q,
        c ∙ called-reverse s.called item front s.mem.q split,
      )

  -- The run of the thread alone that calls every item that waits.
  pub run-Drains :
      {debug : Bool} {s : System A}
      → Reach debug s
      → s.pc ≡ at_test
      → s.mem.stopping ≡ false
      → s.unreleased ≡ 0
      → Drains debug s (5 * length s.mem.q) (s.called ++ reverse s.mem.q)
  run-Drains {debug} {s} r e h k =
      let here_again : tests s ≡ s = λ i. record s { pc = sym e i } in
      let tokens : s.mem.sem ≡ length s.mem.q = ground (arith, Reach-Inv r) in
      let run : Drains debug (tests s) (5 * length s.mem.q) (s.called ++ reverse s.mem.q) =
        let (t, st, a, n, p, q, c) = drains (length s.mem.q) s here refl h tokens refl in
        (t, st, a, omega (arith, n), p, q, c) in
      subst (λ (x : System A). Drains debug x (5 * length x.mem.q) (x.called ++ reverse x.mem.q))
        here_again run
