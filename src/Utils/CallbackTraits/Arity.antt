-- ===== src/Utils/CallbackTraits/Arity.antt =====
-- The test of a proc's parameters against Ruby's rule for calling a lambda.
use ru_ble.Base.{
  ℕ, ◌+◌, ◌≤◌, ◌<◌, ◌≡◌, refl, ◌↔◌, ◌⊎◌, inl, inr, Bool, true, false, List, [], ◌∷◌, arith, length,
  ok, err, invalid_argument, Bool-cases,
}
use ru_ble.Utils.CallbackTraits.{
  ParameterType, req, opt, rest, keyreq, key, keyrest, other, Value, nil_value, proc_value,
  object_value, u8, CallbackTraits, count_type, count_all, accepts_n_args, assert_accepts_n_args,
}

abbrev pub one_if : Bool → ℕ
one_if true = 1
one_if false = 0

pub is_type : ParameterType → ParameterType → Bool
is_type req req = true
is_type opt opt = true
is_type rest rest = true
is_type keyreq keyreq = true
is_type _ _ = false

-- How many parameters have that kind.
pub number_of : ParameterType → List ParameterType → ℕ
unfolding is_type
number_of p [] = 0
number_of p (q ∷ qs) = one_if (is_type p q) + number_of p qs

count_all_lem :
    (ps : List ParameterType) (t : CallbackTraits)
    → t.req_count + length ps < 256
    → t.opt_count + length ps < 256
    → t.rest_count + length ps < 256
    → t.keyreq_count + length ps < 256
    → count_all ps t ≡ record {
      is_lambda = t.is_lambda;
      req_count = t.req_count + number_of req ps;
      opt_count = t.opt_count + number_of opt ps;
      rest_count = t.rest_count + number_of rest ps;
      keyreq_count = t.keyreq_count + number_of keyreq ps;
    }
unfolding count_all number_of
count_all_lem [] t a b c d = ground arith
count_all_lem (req ∷ ps) t a b c d = ground (arith, count_all_lem ps (count_type req t))
count_all_lem (opt ∷ ps) t a b c d = ground (arith, count_all_lem ps (count_type opt t))
count_all_lem (rest ∷ ps) t a b c d = ground (arith, count_all_lem ps (count_type rest t))
count_all_lem (keyreq ∷ ps) t a b c d = ground (arith, count_all_lem ps (count_type keyreq t))
count_all_lem (key ∷ ps) t a b c d = ground (arith, count_all_lem ps (count_type key t))
count_all_lem (keyrest ∷ ps) t a b c d = ground (arith, count_all_lem ps (count_type keyrest t))
count_all_lem (other ∷ ps) t a b c d = ground (arith, count_all_lem ps (count_type other t))

-- Ruby's rule for calling a lambda with `n` positional arguments and nothing else: no keyword is
-- required, each required parameter gets one, and what is over finds an optional parameter or a
-- rest parameter.
abbrev pub CanCall : List ParameterType → ℕ → Type 0
CanCall ps n =
    (number_of keyreq ps ≡ 0)
    × (number_of req ps ≤ n)
    × ((n ≤ number_of req ps + number_of opt ps) ⊎ (0 < number_of rest ps))

req_opt-le : (ps : List ParameterType) → number_of req ps + number_of opt ps ≤ length ps
unfolding number_of
req_opt-le [] = omega arith
req_opt-le (p ∷ ps) = ground (arith, req_opt-le ps)

abbrev nothing_counted : Bool → CallbackTraits
nothing_counted b = record {
  is_lambda = b;
  req_count = 0;
  opt_count = 0;
  rest_count = 0;
  keyreq_count = 0;
}

counted :
    (b : Bool) (ps : List ParameterType)
    → length ps < 256
    → count_all ps (nothing_counted b) ≡ record {
      is_lambda = b;
      req_count = number_of req ps;
      opt_count = number_of opt ps;
      rest_count = number_of rest ps;
      keyreq_count = number_of keyreq ps;
    }
counted b ps h = ground (
  arith,
  count_all_lem ps (nothing_counted b) (omega arith) (omega arith) (omega arith) (omega arith),
)

accepts_iff :
    (ps : List ParameterType) (n : ℕ)
    → length ps < 256
    → n < 256
    → (accepts_n_args (count_all ps (nothing_counted true)) n ≡ true) ↔ CanCall ps n
unfolding accepts_n_args
accepts_iff ps n h hn =
    rw (counted true ps h) (ground (arith, req_opt-le ps), ground (arith, req_opt-le ps))

accepts_proc :
    (ps : List ParameterType) (n : ℕ)
    → length ps < 256
    → accepts_n_args (count_all ps (nothing_counted false)) n ≡ true
unfolding accepts_n_args
accepts_proc ps n h = rw (counted false ps h)

small : (n : ℕ) → n < 256 → u8 n ≡ n
small n h = omega arith

-- A lambda of less than 256 parameters passes the check for `n` below 256 arguments exactly if Ruby
-- can call it with them; a proc that is no lambda always passes, nil passes exactly if it is
-- allowed, and any other object is refused.
pub assert_accepts_iff :
    (ps : List ParameterType) (n id : ℕ) (allow_nil : Bool)
    → length ps < 256
    → n < 256
    → ((assert_accepts_n_args (proc_value true ps id) n allow_nil ≡ ok tt) ↔ CanCall ps n)
      × (assert_accepts_n_args (proc_value false ps id) n allow_nil ≡ ok tt)
      × ((assert_accepts_n_args nil_value n allow_nil ≡ ok tt) ↔ (allow_nil ≡ true))
      × (assert_accepts_n_args (object_value id) n allow_nil ≡ err invalid_argument)
unfolding assert_accepts_n_args
assert_accepts_iff ps n id allow_nil h hn = (
  rw (small n hn) (ground (arith, accepts_iff ps n h hn), ground (arith, accepts_iff ps n h hn)),
  rw (accepts_proc ps (u8 n) h),
  (ground arith, ground arith),
  refl,
)

-- The check answers or throws one error.
pub assert_accepts_cases :
    (v : Value) (n : ℕ) (allow_nil : Bool)
    → (assert_accepts_n_args v n allow_nil ≡ ok tt)
      ⊎ (assert_accepts_n_args v n allow_nil ≡ err invalid_argument)
unfolding assert_accepts_n_args
assert_accepts_cases nil_value n allow_nil = ground arith
assert_accepts_cases (object_value id) n allow_nil = inr refl
assert_accepts_cases (proc_value is_lambda ps id) n allow_nil =
    elim (Bool-cases (accepts_n_args (count_all ps (nothing_counted is_lambda)) (u8 n))) [
      | inl e ↦ inl (rw e)
      | inr e ↦ inr (rw e)
    ]

pub assert_accepts_nil : (n : ℕ) → assert_accepts_n_args nil_value n true ≡ ok tt
unfolding assert_accepts_n_args
assert_accepts_nil n = refl
