-- ===== src/Utils/CallbackTraits/Runs.antt =====
-- A lambda with two required parameters and an optional one.
use ru_ble.Base.{◌≡◌, refl, ◌↔◌, true, false, List, [], ◌∷◌, arith, ok, err, invalid_argument}
use ru_ble.Utils.CallbackTraits.{
  ParameterType, req, opt, proc_value, nil_value, object_value, assert_accepts_n_args,
}
use ru_ble.Utils.CallbackTraits.Arity.{CanCall, assert_accepts_iff}

abbrev params : List ParameterType
params = req ∷ req ∷ opt ∷ []

too_few : assert_accepts_n_args (proc_value true params 9) 1 true ≡ err invalid_argument
unfolding assert_accepts_n_args
too_few = refl

assert_accepts_iff_example :
    ((assert_accepts_n_args (proc_value true params 9) 3 false ≡ ok tt) ↔ CanCall params 3)
    × (assert_accepts_n_args (proc_value false params 9) 3 false ≡ ok tt)
    × ((assert_accepts_n_args nil_value 3 false ≡ ok tt) ↔ (false ≡ true))
    × (assert_accepts_n_args (object_value 9) 3 false ≡ err invalid_argument)
assert_accepts_iff_example = assert_accepts_iff params 3 9 false (omega arith) (omega arith)
