-- ===== src/Utils/Async.antt =====
-- ext/ruble/utils/async.hpp and async.cpp: polling a predicate until it holds or time is up.
-- `S` is all that the predicate, the clock and other threads can touch. A predicate may change it,
-- and `sleep` is everything that happens in `thread_sleep`, the steps of other threads included.
pub mod Laws
mod Runs
use ru_ble.Base.{ℕ, zero, suc, ◌+◌, Bool, true, false, ◌||◌, Option, none, some, ltb, if◌then◌else◌}

-- The clock and `thread_sleep`.
pub record Environment {ℓ} (S : Type ℓ) : Type ℓ where
  pub now : S → ℕ
  pub sleep : S → S

module _ {ℓ} {S : Type ℓ} (env : Environment S) where
  -- `is_timed_out`: never without a timeout.
  pub is_timed_out : Option ℕ → S → Bool
  is_timed_out none s = false
  is_timed_out (some end_at) s = ltb end_at (env.now s)

  -- The loop; `none` means that the fuel ran out.
  pub poll_loop : ℕ → (S → Bool × S) → Option ℕ → S → Option (Bool × S)
  unfolding is_timed_out
  poll_loop zero fn end_at s = none
  poll_loop (suc fuel) fn end_at s =
      let (fn_result, s') = fn s in
      let rest = poll_loop fuel fn end_at (env.sleep s') in
      if fn_result || is_timed_out end_at s' then some (fn_result, s') else rest

  abbrev pub deadline : Option ℕ → S → Option ℕ
  deadline none s = none
  deadline (some duration) s = some (env.now s + duration)

  pub wait_until : ℕ → (S → Bool × S) → Option ℕ → S → Option (Bool × S)
  unfolding poll_loop
  wait_until fuel fn duration s = poll_loop fuel fn (deadline duration s) s
