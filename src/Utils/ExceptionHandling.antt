-- ===== src/Utils/ExceptionHandling.antt =====
-- ext/ruble/utils/exception_handling.hpp and exception_handling.cpp, with cpp_protect of utils/ruby.hpp: the handler that
-- is called when the program terminates, and exceptions that are thrown again with a backtrace. `W` is the world that the
-- output goes to; what is thrown by the output derives from `std::exception`.
pub mod Laws
mod Runs
use ru_ble.Base.{ℕ, Bool, true, false, Option, none, some, if◌then◌else◌, Result, ok, err, Error}
use ru_ble.Base.Texts.{Text, codes}

-- The output: a text, the stack trace of boost, and Ruby's backtrace.
pub record Output (W : Type 0) : Type 0 where
  pub print : Text → W → Result (Unit {0}) × W
  pub stacktrace : W → Result (Unit {0}) × W
  pub rb_backtrace : W → Result (Unit {0}) × W

-- How a function that does not return ends. A handler is a number, and `returned` is the end of a handler that returns.
pub data Ending : Type 0 where
  returned aborted threw threw_nested : Ending
  handled_by : ℕ → Ending

abbrev pub and_then :
    {W : Type 0}
    → (W → Result (Unit {0}) × W)
    → (W → Result (Unit {0}) × W)
    → W
    → Result (Unit {0}) × W
and_then first second w = let (r, w') = first w in elim r [ err e ↦ (err e, w') | ok _ ↦ second w' ]

module _ {W : Type 0} (out : Output W) where
  -- The two blocks of the handler.
  unfoldable pub print_stacktrace : W → Result (Unit {0}) × W
  print_stacktrace =
      and_then (out.print (codes "C++ Backtrace: \n"))
        (and_then out.stacktrace (out.print (codes "\n")))

  unfoldable pub print_backtrace : W → Result (Unit {0}) × W
  print_backtrace =
      and_then (out.print (codes "Ruby Backtrace: \n"))
        (and_then out.rb_backtrace (out.print (codes "\n\n")))

  abbrev pub old_handler : Option ℕ → Ending
  old_handler none = returned
  old_handler (some h) = handled_by h

  -- The handler that `wrap_termination_handler` sets, with `_old_terminate_handler`.
  unfoldable pub on_terminate : Option ℕ → W → Ending × W
  unfolding print_stacktrace print_backtrace
  on_terminate old w =
      let (r, w1) = print_stacktrace w in
      elim r [
        | err e ↦ (threw_nested, w1)
        | ok _ ↦
            let (r', w2) = print_backtrace w1 in
            elim r' [ err e ↦ (threw_nested, w2) | ok _ ↦ (old_handler old, w2) ]
      ]

  -- A failure to print the apology is not caught.
  abort_with_stack : W → Ending × W
  abort_with_stack w =
      let (r, w1) = out.stacktrace w in
      elim r [
        | ok _ ↦ (aborted, w1)
        | err e ↦
            let (r', w2) = out.print (codes "Could not generate C++ stacktrace. Skipping.\n") w1 in
            elim r' [ ok _ ↦ (aborted, w2) | err e' ↦ (threw, w2) ]
      ]

-- An exception: its class, whether that derives from `std::exception`, its message, and whether it has a backtrace.
pub record Exception : Type 0 where
  pub class : ℕ
  pub is_std : Bool
  pub what : Text
  pub traced : Bool

-- What a function returns or throws, with its exception.
pub data Outcome (T : Type 0) : Type 0 where
  throws : Exception → Outcome T
  gives : T → Outcome T

-- What Ruby gets: a value, or an exception of a class of Ruby with a message.
pub data RubyOutcome (T : Type 0) : Type 0 where
  raises : ℕ → Text → RubyOutcome T
  returns : T → RubyOutcome T

-- `boost::enable_error_info` of an exception that is known as one of a class is a parameter.
module _ (enable_error_info : ℕ → Exception → Exception) where
  unfoldable pub add_backtrace : ℕ → Exception → Exception
  add_backtrace static_class e = record (enable_error_info static_class e) { traced = true }

  unfoldable pub throw_with_backtrace : {T : Type 0} → ℕ → Exception → Outcome T
  unfolding add_backtrace
  throw_with_backtrace static_class e = throws (add_backtrace static_class e)

  -- What is caught as a `std::exception`, whose class has the number `std_exception`, and thrown again.
  unfoldable pub catch_std : {S T : Type 0} → ℕ → Outcome T × S → Outcome T × S
  unfolding throw_with_backtrace
  catch_std std_exception (gives v, s) = (gives v, s)
  catch_std std_exception (throws e, s) =
      (if e.is_std then throw_with_backtrace std_exception e else throws e, s)

  -- `protect` is `Rice::detail::cpp_protect`.
  unfoldable pub cpp_protect :
      {S T : Type 0}
      → ((S → Outcome T × S) → S → RubyOutcome T × S)
      → ℕ
      → (S → Outcome T × S)
      → S
      → RubyOutcome T × S
  unfolding catch_std
  cpp_protect protect std_exception fn = protect (λ s. catch_std std_exception (fn s))
