-- ===== src/Containers/Callback/Runs.antt =====
-- A callback for two arguments.
use ru_ble.Base.{◌≡◌, refl, true, [], ◌∷◌, err, invalid_argument}
use ru_ble.Utils.CallbackTraits.{req, proc_value, assert_accepts_n_args}
use ru_ble.Containers.Callback.{Callback, new_callback, set}

abbrev two_args : Callback
two_args = new_callback 2

lambda_of_one : set two_args (proc_value true (req ∷ []) 5) ≡ (err invalid_argument, two_args)
unfolding set assert_accepts_n_args
lambda_of_one = refl
