-- ===== src/Management/RubyQueue/Order.antt =====
-- The order in which the loop calls the items that wait.
use mathlib.Core.List.{reverse, reverse-cons, append-nil, append_assoc, reverse-reverse}
use ru_ble.Base.{
  ℕ, zero, suc, ◌+◌, ◌<◌, ◌≡◌, refl, Bool, true, false, Option, none, some, List, [], ◌∷◌, ◌++◌,
  arith, length, ap, ◌∙◌, length-append,
}
use ru_ble.Management.RubyQueue.{
  RubyQueue, pop_back, behind, push_all, push, stop, round, drain, exits, after_acquire,
}

module _ {ℓ} {A : Type ℓ} where
  pub pop_back-append : (xs : List A) (x : A) → pop_back (xs ++ (x ∷ [])) ≡ some (x, xs)
  unfolding pop_back
  pop_back-append [] x = refl
  pop_back-append (y ∷ []) x = refl
  pop_back-append (y ∷ z ∷ r) x = rw (pop_back-append (z ∷ r) x, pop_back)

  behind_lem :
      (y : A) (last : Option (A × List A)) {x : A} {front : List A}
      → behind y last ≡ some (x, front)
      → (rest : List A) × (last ≡ some (x, rest)) × (front ≡ y ∷ rest)
  behind_lem y none h = cc
  behind_lem y (some (z, rest)) h = (rest, ground arith, ground arith)

  pub pop_back_lem :
      (xs : List A) {x : A} {front : List A}
      → pop_back xs ≡ some (x, front)
      → xs ≡ front ++ (x ∷ [])
  unfolding pop_back
  pop_back_lem [] h = cc
  pop_back_lem (y ∷ []) h = ground arith
  pop_back_lem (y ∷ z ∷ r) h =
      let (rest, e, f) = behind_lem y (pop_back (z ∷ r)) h in
      rw f (ap (◌∷◌ y) (pop_back_lem (z ∷ r) e))

  pub pop_back-total :
      (xs : List A) → 0 < length xs → (x : A) × (front : List A) × (pop_back xs ≡ some (x, front))
  unfolding pop_back
  pop_back-total [] h = absurd (omega arith)
  pop_back-total (y ∷ []) h = (y, [], refl)
  pop_back-total (y ∷ z ∷ r) h =
      let (x, front, e) = pop_back-total (z ∷ r) (omega arith) in (x, y ∷ front, rw (e, pop_back))

  -- With no other thread, the loop calls the items that wait from the last to the first, uses up
  -- the semaphore, and then waits.
  drain-reverse :
      (ys : List A) (fuel : ℕ) (s : RubyQueue A)
      → s.stopping ≡ false
      → s.q ≡ reverse ys
      → s.sem ≡ length ys
      → length ys < fuel
      → drain fuel s ≡ (ys, record s { q = []; sem = 0 })
  unfolding drain round
  drain-reverse [] zero s p e n h = absurd (omega arith)
  drain-reverse (y ∷ ys) zero s p e n h = absurd (omega arith)
  drain-reverse [] (suc fuel) s p e n h = ground arith
  drain-reverse (y ∷ ys) (suc fuel) s p e n h = ground (
    arith,
    reverse-cons y ys,
    pop_back-append (reverse ys) y,
    drain-reverse ys fuel (record s { q = reverse ys; sem = length ys }),
  )

  push_all_lem :
      (debug : Bool) (fns : List A) (s : RubyQueue A)
      → s.stopping ≡ false
      → push_all debug fns s ≡ record s { q = s.q ++ fns; sem = s.sem + length fns }
  unfolding push_all
  push_all_lem debug [] s p = ground (arith, append-nil s.q)
  push_all_lem debug (fn ∷ fns) s p =
      ground (arith, push_all_lem debug fns (push debug fn s), append_assoc s.q (fn ∷ []) fns)

  length-reverse : (fns : List A) → length (reverse fns) ≡ length fns
  length-reverse [] = omega arith
  length-reverse (fn ∷ fns) =
      rw (reverse-cons fn fns, length-append (reverse fns) (fn ∷ []))
        (omega (arith, length-reverse fns))

  -- What is pushed while the loop is busy is called in the reverse order, the newest first: if the
  -- queue is empty and not stopped, the loop calls the pushed items from the last to the first, and
  -- the queue is then as it was.
  pub drain-push_all :
      (debug : Bool) (fns : List A) (s : RubyQueue A)
      → s.stopping ≡ false
      → s.q ≡ []
      → s.sem ≡ 0
      → drain (length fns + 1) (push_all debug fns s) ≡ (reverse fns, s)
  drain-push_all debug fns s p e n = rw (push_all_lem debug fns s p) (
      drain-reverse (reverse fns) (length fns + 1) _ p (ground (arith, reverse-reverse fns))
        (omega (arith, length-reverse fns)) (omega (arith, length-reverse fns))
      ∙ ground arith)

  -- Once `stop` was called, `push` does nothing in a debug build; in any other build the item is queued all the same and the
  -- semaphore is released. In every build the loop leaves its `while` without calling anything, whatever is queued: at the
  -- test of the next round, and also where it stands at the semaphore then, which is released if this call of `stop` is the
  -- first.
  pub push-stop :
      (debug : Bool) (fn : A) (s : RubyQueue A) (fuel : ℕ)
      → let t = stop s in
        let u = push debug fn t in
        (push true fn t ≡ t)
        × ((push false fn t).q ≡ s.q ++ (fn ∷ []))
        × ((push false fn t).sem ≡ t.sem + 1)
        × (round u ≡ exits)
        × (drain fuel u ≡ ([], u))
        × (s.stopping ≡ false → after_acquire u u.sem ≡ exits)
  unfolding push stop round drain after_acquire
  push-stop debug fn s zero = ground arith
  push-stop debug fn s (suc fuel) = ground arith
