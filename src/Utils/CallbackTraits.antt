-- ===== src/Utils/CallbackTraits.antt =====
-- ext/ruble/utils/RubyCallbackTraits.hpp and RubyCallbackTraits.cpp: whether a Ruby proc can be called
-- with a given number of positional arguments.
pub mod Arity
mod Runs
use ru_ble.Base.{
  ℕ, zero, suc, ◌+◌, ◌%◌, Bool, true, false, ◌&&◌, List, [], ◌∷◌, ltb, leb, ◌==◌, if◌then◌else◌,
  Result, ok, err, invalid_argument,
}

-- The kinds of a parameter, as `Proc#parameters` gives them. The constructor of the source also
-- counts any other kind (`block`, `nokey`), which nothing reads.
pub data ParameterType : Type 0 where
  req opt rest keyreq key keyrest other : ParameterType

-- A `VALUE` that was given for a callback: nil, a proc with its parameters, or any other object.
pub data Value : Type 0 where
  nil_value : Value
  proc_value : Bool → List ParameterType → ℕ → Value
  object_value : ℕ → Value

-- `uint_least8_t`, on platforms where it has eight bits.
abbrev pub u8 : ℕ → ℕ
u8 n = n % 256

-- `_is_lambda`, and the entries of `_map` that are read.
pub record CallbackTraits : Type 0 where
  pub is_lambda : Bool
  pub req_count : ℕ
  pub opt_count : ℕ
  pub rest_count : ℕ
  pub keyreq_count : ℕ

-- `++_map[type]`
pub count_type : ParameterType → CallbackTraits → CallbackTraits
count_type req t = record t { req_count = u8 (t.req_count + 1) }
count_type opt t = record t { opt_count = u8 (t.opt_count + 1) }
count_type rest t = record t { rest_count = u8 (t.rest_count + 1) }
count_type keyreq t = record t { keyreq_count = u8 (t.keyreq_count + 1) }
count_type key t = t
count_type keyrest t = t
count_type other t = t

pub count_all : List ParameterType → CallbackTraits → CallbackTraits
unfolding count_type
count_all [] t = t
count_all (p ∷ ps) t = count_all ps (count_type p t)

-- The constructor.
pub traits_of : Value → Result CallbackTraits
unfolding count_all
traits_of nil_value = err invalid_argument
traits_of (object_value id) = err invalid_argument
traits_of (proc_value is_lambda params id) = ok (
    count_all params (record {
      is_lambda = is_lambda;
      req_count = 0;
      opt_count = 0;
      rest_count = 0;
      keyreq_count = 0;
    }))

pub accepts_n_args : CallbackTraits → ℕ → Bool
accepts_n_args t n =
    if t.is_lambda
    then (if ltb 0 t.keyreq_count
        then false
        else (let most = if ltb 0 t.rest_count then 255 else u8 (t.req_count + t.opt_count) in
            leb t.req_count n && leb n most))
    else true

-- `n` is a `uint8_t`. The answer is whether nothing is thrown.
unfoldable pub assert_accepts_n_args : Value → ℕ → Bool → Result (Unit {0})
unfolding traits_of accepts_n_args
assert_accepts_n_args nil_value n allow_nil = if allow_nil then ok tt else err invalid_argument
assert_accepts_n_args (object_value id) n allow_nil = err invalid_argument
assert_accepts_n_args (proc_value is_lambda params id) n allow_nil =
    elim (traits_of (proc_value is_lambda params id)) [
      | err e ↦ err e
      | ok t ↦ if accepts_n_args t (u8 n) then ok tt else err invalid_argument
    ]
