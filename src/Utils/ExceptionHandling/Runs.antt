-- ===== src/Utils/ExceptionHandling/Runs.antt =====
-- Exceptions of the classes 0 (`std::exception`), 1 (`std::runtime_error`) and 2, which does not derive from it.
use ru_ble.Base.{ℕ, ◌+◌, ◌≡◌, refl, true, false}
use ru_ble.Base.Texts.{Text, codes}
use ru_ble.Utils.ExceptionHandling.{
  Exception, Outcome, throws, RubyOutcome, raises, cpp_protect, catch_std, throw_with_backtrace,
  add_backtrace,
}
use ru_ble.Utils.ExceptionHandling.Laws.{copy_as, to_ruby}

abbrev not_found : Exception
not_found = record { class = 1; is_std = true; what = codes "not found"; traced = false }

abbrev what_of : ℕ → Text
what_of n = codes "std::exception"

-- Each class of C++ has one of Ruby.
abbrev ruby_class : ℕ → ℕ
ruby_class n = n + 100

abbrev search : ℕ → Outcome ℕ × ℕ
search s = (throws not_found, s + 1)

abbrev protect : (ℕ → Outcome ℕ × ℕ) → ℕ → RubyOutcome ℕ × ℕ
protect fn s = to_ruby ruby_class (fn s)

message_is_lost :
    cpp_protect (copy_as what_of) protect 0 search 7 ≡ (raises 100 (codes "std::exception"), 8)
unfolding cpp_protect catch_std throw_with_backtrace add_backtrace
message_is_lost = refl
