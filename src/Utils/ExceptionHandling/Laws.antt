-- ===== src/Utils/ExceptionHandling/Laws.antt =====
-- What Ruby learns of an exception that `cpp_protect` passes on.
use ru_ble.Base.{ℕ, ◌≡◌, refl, ◌∙◌, arith, ◌==◌, if◌then◌else◌}
use ru_ble.Base.Texts.{Text}
use ru_ble.Utils.ExceptionHandling.{
  Exception, Outcome, throws, gives, RubyOutcome, raises, returns, add_backtrace,
  throw_with_backtrace, catch_std, cpp_protect,
}

-- What is documented of `boost::enable_error_info`: it copies the exception as one of the class that it is known as. The
-- message of a copy that is of a base class is that of the base class.
abbrev pub copy_as : (ℕ → Text) → ℕ → Exception → Exception
copy_as what_of static_class e =
    if e.class == static_class
    then e
    else record e { class = static_class; what = what_of static_class }

abbrev pub Copies : (ℕ → Text) → (ℕ → Exception → Exception) → Type 0
Copies what_of enable_error_info =
    (static_class : ℕ) (e : Exception)
    → enable_error_info static_class e ≡ copy_as what_of static_class e

module _ (class_for : ℕ → ℕ) {S T : Type 0} where
  abbrev pub to_ruby : Outcome T × S → RubyOutcome T × S
  to_ruby (gives v, s) = (returns v, s)
  to_ruby (throws e, s) = (raises (class_for e.class) e.what, s)

  -- What is documented of `Rice::detail::cpp_protect`: it gives what the function gives, and an exception becomes one of the class of
  -- Ruby that belongs to its class, with its message.
  abbrev pub Protects : ((S → Outcome T × S) → S → RubyOutcome T × S) → Type 0
  Protects protect = (fn : S → Outcome T × S) (s : S) → protect fn s ≡ to_ruby (fn s)

  -- What Ruby gets of what a function gives or throws: a value is kept; of an exception that derives from `std::exception` the
  -- class is forgotten, and so is the message, unless it is of that very class.
  abbrev pub forgets : (ℕ → Text) → ℕ → Outcome T × S → RubyOutcome T × S
  forgets what_of std_exception (gives v, s) = (returns v, s)
  forgets what_of std_exception (throws e, s) =
      if e.is_std
      then (
        raises (class_for std_exception)
            (if e.class == std_exception then e.what else what_of std_exception),
        s,
      )
      else (raises (class_for e.class) e.what, s)

  forgets-catch_std :
      (what_of : ℕ → Text) (enable_error_info : ℕ → Exception → Exception) (std_exception : ℕ)
      (r : Outcome T × S)
      → Copies what_of enable_error_info
      → to_ruby (catch_std enable_error_info std_exception r) ≡ forgets what_of std_exception r
  unfolding catch_std throw_with_backtrace add_backtrace
  forgets-catch_std what_of enable_error_info std_exception (gives v, s) copies = refl
  forgets-catch_std what_of enable_error_info std_exception (throws e, s) copies =
      ground (arith, copies std_exception e)

  -- Through `cpp_protect` Ruby gets the value that the function gives. An exception that derives from `std::exception`
  -- reaches Ruby as one of the class for `std::exception`, and unless it is of that very class, with the
  -- message of that class in place of its own; one that does not derive from it reaches Ruby as it is.
  pub cpp_protect_lem :
      (what_of : ℕ → Text) (enable_error_info : ℕ → Exception → Exception)
      (protect : (S → Outcome T × S) → S → RubyOutcome T × S) (std_exception : ℕ)
      (fn : S → Outcome T × S) (s : S)
      → Copies what_of enable_error_info
      → Protects protect
      → cpp_protect enable_error_info protect std_exception fn s
        ≡ forgets what_of std_exception (fn s)
  unfolding cpp_protect
  cpp_protect_lem what_of enable_error_info protect std_exception fn s copies doc =
      doc _ s ∙ forgets-catch_std what_of enable_error_info std_exception (fn s) copies
