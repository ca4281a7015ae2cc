-- ===== src/Utils/Ruby.antt =====
-- `ensure_ruby` of ext/ruble/utils/ruby.hpp: a function is called in Ruby. `S` is all else that it can change. It may
-- throw, and unwinding destroys the guard; its own guards are gone when it returns. `rb_thread_call_with_gvl` calls its argument in the same thread.
pub mod Ensured
use ru_ble.Base.{ℕ, Bool, true, false, List, length, if◌then◌else◌, Result, ok, err}
use ru_ble.Utils.RubyContext.{InRuby, state, assert_in_ruby_guard, destroy}

abbrev pub InRubyFn : Type 0 → Type 0 → Type 0
InRubyFn S T = InRuby → S → Result T × S

module _ {S T : Type 0} where
  -- The function that `rb_thread_call_with_gvl` is given.
  unfoldable pub invoke : InRubyFn S T → InRuby → S → InRuby × Result T × S
  invoke fn in_ruby s =
      let guarded = assert_in_ruby_guard in_ruby in
      let (r, s') = fn guarded s in (destroy guarded (length in_ruby.guards), r, s')

  unfoldable pub ensure_ruby : InRubyFn S T → InRuby → S → InRuby × Result T × S
  unfolding invoke
  ensure_ruby fn in_ruby s =
      let (r, s') = fn in_ruby s in if state in_ruby then (in_ruby, r, s') else invoke fn in_ruby s

  -- The function is called with its arguments in Ruby.
  ensuring_ruby :
      {Args : Type 0} → (Args → InRubyFn S T) → Args → InRuby → S → InRuby × Result T × S
  unfolding ensure_ruby
  ensuring_ruby fn args in_ruby s = ensure_ruby (fn args) in_ruby s

-- What can be turned into a VALUE: one already, an object of Rice with its VALUE, or an object of RuBLE with the VALUE that
-- its `self` gives, which may be behind a pointer or a shared pointer.
pub data RubySource : Type 0 where
  value rice_object has_ruby_object : ℕ → RubySource
  pointer_to shared_to : RubySource → RubySource

unfoldable pub to_ruby_value : RubySource → ℕ
to_ruby_value (value v) = v
to_ruby_value (rice_object v) = v
to_ruby_value (has_ruby_object self) = self
to_ruby_value (pointer_to x) = to_ruby_value x
to_ruby_value (shared_to x) = to_ruby_value x

-- An object of Rice made of the VALUE.
to_ruby_object : {T : Type 0} → (ℕ → T) → RubySource → T
unfolding to_ruby_value
to_ruby_object of_value x = of_value (to_ruby_value x)
