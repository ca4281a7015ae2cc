-- ===== src/Bindings/Startup/Termination.antt =====
-- `wrap_termination_handler` together with the handler that it sets.
use ru_ble.Base.{ℕ, ◌≡◌, none, Result, ok, err, arith}
use ru_ble.Utils.ExceptionHandling.{
  Output, Ending, threw_nested, handled_by, and_then, print_stacktrace, print_backtrace,
  on_terminate,
}
use ru_ble.Bindings.Startup.{Globals, wrap_termination_handler}

module _ {W : Type 0} (out : Output W) where
  -- Both backtraces, the second only if nothing was thrown by the first.
  abbrev pub print_both : W → Result (Unit {0}) × W
  print_both = and_then (print_stacktrace out) (print_backtrace out)

  -- The handler that was set before.
  abbrev pub ended : ℕ → Result (Unit {0}) → Ending
  ended handler (ok _) = handled_by handler
  ended handler (err e) = threw_nested

  -- Where no handler was kept, `wrap_termination_handler` throws nothing and sets its own handler, which prints both
  -- backtraces, and then calls the handler that was set before; but if printing throws, it ends there with a nested
  -- exception, and the handler that was set before is not called.
  termination_lem :
      {R : Type 0} (ours : ℕ) (g : Globals R) (w : W)
      → g.old_terminate_handler ≡ none
      → let (r, g') = wrap_termination_handler ours g in
        (r ≡ ok tt)
        × (g'.terminate_handler ≡ ours)
        × (on_terminate out g'.old_terminate_handler w
            ≡ (ended g.terminate_handler (print_both w).0, (print_both w).1))
  unfolding wrap_termination_handler on_terminate
  termination_lem ours g w h = ground (arith, h)
