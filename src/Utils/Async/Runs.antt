-- ===== src/Utils/Async/Runs.antt =====
-- Waits at concrete clocks.
use ru_ble.Base.{ℕ, ◌+◌, ◌≡◌, refl, Bool, true, false, some, leb}
use ru_ble.Utils.Async.{Environment, is_timed_out, poll_loop, wait_until}

-- A clock that each sleep moves on by one.
abbrev ticking : Environment ℕ
ticking = record { now = λ s. s; sleep = λ s. s + 1 }

abbrev past_five : ℕ → Bool × ℕ
past_five s = (leb 5 s, s)

waits : wait_until ticking 9 past_five (some 7) 2 ≡ some (true, 5)
unfolding wait_until poll_loop is_timed_out
waits = refl

gives_up : wait_until ticking 9 past_five (some 1) 2 ≡ some (false, 4)
unfolding wait_until poll_loop is_timed_out
gives_up = refl
