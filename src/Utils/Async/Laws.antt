-- ===== src/Utils/Async/Laws.antt =====
-- What a wait answers, and that it ends.
use ru_ble.Base.{
  ℕ, zero, suc, ◌+◌, ◌≤◌, ◌<◌, ◌≡◌, refl, Bool, true, false, ◌||◌, Option, some, arith, inl, inr,
  Bool-cases,
}
use ru_ble.Utils.Async.{Environment, is_timed_out, poll_loop, deadline, wait_until}

module _ {ℓ} {S : Type ℓ} (env : Environment S) (fn : S → Bool × S) where
  -- The state before poll number `k`, if the earlier ones did not end the wait.
  abbrev pub before_poll : ℕ → S → S
  before_poll zero s = s
  before_poll (suc k) s = before_poll k (env.sleep (fn s).1)

  abbrev pub poll_ends : Option ℕ → S → Bool
  poll_ends end_at s = (fn s).0 || is_timed_out env end_at (fn s).1

  -- Poll number `k` is the last: its result is the answer, and every earlier one neither held nor
  -- came after the deadline.
  pub record EndsAt (end_at : Option ℕ) (s : S) (k : ℕ) (answer : Bool × S) : Type ℓ where
    pub last : fn (before_poll k s) ≡ answer
    pub over : poll_ends end_at (before_poll k s) ≡ true
    pub earlier : (j : ℕ) → j < k → poll_ends end_at (before_poll j s) ≡ false

  EndsAt-suc :
      (end_at : Option ℕ) (s : S) (k : ℕ) (answer : Bool × S)
      → poll_ends end_at s ≡ false
      → EndsAt end_at (env.sleep (fn s).1) k answer
      → EndsAt end_at s (suc k) answer
  EndsAt-suc end_at s k answer open_still e = record {
    last = e.last;
    over = e.over;
    earlier = before;
  }
    where
      before : (j : ℕ) → j < suc k → poll_ends end_at (before_poll j s) ≡ false
      before zero h = open_still
      before (suc j) h = e.earlier j (omega arith)

  poll_loop_ends :
      (fuel : ℕ) (end_at : Option ℕ) (s : S) (answer : Bool × S)
      → poll_loop env fuel fn end_at s ≡ some answer
      → (k : ℕ) × EndsAt end_at s k answer
  unfolding poll_loop
  poll_loop_ends zero end_at s answer h = cc
  poll_loop_ends (suc fuel) end_at s answer h = elim (Bool-cases (poll_ends end_at s)) [
    | inl over ↦
        (0, record { last = ground arith; over = over; earlier = λ j lt. absurd (omega arith) })
    | inr open_still ↦
        let (k, e) = poll_loop_ends fuel end_at (env.sleep (fn s).1) answer (ground arith) in
        (suc k, EndsAt-suc end_at s k answer open_still e)
  ]

  pub poll_loop_holds :
      (fuel : ℕ) (end_at : Option ℕ) (s s' : S)
      → fn s ≡ (true, s')
      → poll_loop env (suc fuel) fn end_at s ≡ some (true, s')
  unfolding poll_loop
  poll_loop_holds fuel end_at s s' h = ground (arith, h)

  pub poll_loop_again :
      (fuel end_at : ℕ) (s s' : S)
      → fn s ≡ (false, s')
      → env.now s' ≤ end_at
      → poll_loop env (suc fuel) fn (some end_at) s
        ≡ poll_loop env fuel fn (some end_at) (env.sleep s')
  unfolding poll_loop is_timed_out
  poll_loop_again fuel end_at s s' h le = ground (arith, h)

  poll_loop_total :
      (fuel end_at : ℕ) (s : S)
      → ((t : S) → env.now t < env.now (env.sleep t))
      → ((t : S) → env.now t ≤ env.now (fn t).1)
      → 0 < fuel
      → end_at + 1 < fuel + env.now s
      → (answer : Bool × S) × (poll_loop env fuel fn (some end_at) s ≡ some answer)
  unfolding poll_loop
  poll_loop_total zero end_at s passes keeps pos h = absurd (omega arith)
  poll_loop_total (suc fuel) end_at s passes keeps pos h =
      elim (Bool-cases (poll_ends (some end_at) s)) [
        | inl over ↦ (fn s, rw over)
        | inr open_still ↦ rw open_still (
            poll_loop_total fuel end_at (env.sleep (fn s).1) passes keeps (later open_still).0
              (later open_still).1)
      ]
    where
      later :
          poll_ends (some end_at) s ≡ false
          → (0 < fuel) × (end_at + 1 < fuel + env.now (env.sleep (fn s).1))
      later o = unfold is_timed_out in ground (arith, passes (fn s).1, keeps s)

  pub wait_until-poll_loop :
      (fuel : ℕ) (duration : Option ℕ) (s : S)
      → wait_until env fuel fn duration s ≡ poll_loop env fuel fn (deadline env duration s) s
  unfolding wait_until
  wait_until-poll_loop fuel duration s = refl

  -- The answer of `wait_until` is that of its last poll. The predicate held there or, given a
  -- timeout, the clock had passed the start plus the timeout; at each earlier poll neither was so.
  pub wait_until_lem :
      (fuel : ℕ) (duration : Option ℕ) (s : S) (answer : Bool × S)
      → wait_until env fuel fn duration s ≡ some answer
      → (k : ℕ) × EndsAt (deadline env duration s) s k answer
  unfolding wait_until
  wait_until_lem fuel duration s answer h = poll_loop_ends fuel (deadline env duration s) s answer h

  -- A wait with a timeout ends: if each sleep moves the clock on and no poll moves it back, fuel
  -- for two rounds more than the timeout is enough.
  pub wait_until_total :
      (duration : ℕ) (s : S)
      → ((t : S) → env.now t < env.now (env.sleep t))
      → ((t : S) → env.now t ≤ env.now (fn t).1)
      → (answer : Bool × S) × (wait_until env (duration + 2) fn (some duration) s ≡ some answer)
  unfolding wait_until
  wait_until_total duration s passes keeps =
      poll_loop_total (duration + 2) (env.now s + duration) s passes keeps (omega arith)
        (omega arith)

  -- A wait with a timeout ends and answers rightly. If each sleep moves the clock on and no poll moves it back, fuel for two
  -- rounds more than the timeout is enough, and the answer is that of the last poll: the predicate held there or the clock
  -- had passed the start plus the timeout, and at each earlier poll neither was so.
  pub wait_until_ends :
      (duration : ℕ) (s : S)
      → ((t : S) → env.now t < env.now (env.sleep t))
      → ((t : S) → env.now t ≤ env.now (fn t).1)
      → (answer : Bool × S) × (wait_until env (duration + 2) fn (some duration) s ≡ some answer)
        × (k : ℕ) × EndsAt (deadline env (some duration) s) s k answer
  wait_until_ends duration s passes keeps =
      let (answer, e) = wait_until_total duration s passes keeps in
      let (k, ends) = wait_until_lem (duration + 2) (some duration) s answer e in
      (answer, e, k, ends)
