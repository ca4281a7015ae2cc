-- ===== src/Containers/Callback.antt =====
-- ext/ruble/containers/Callback.hpp: a place for a Ruby proc that is called with a fixed number of
-- arguments. `O` stands for Ruby objects.
pub mod Laws
mod Runs
use ru_ble.Base.{
  ℕ, Bool, true, false, not, Option, none, some, List, [], ◌∷◌, ◌==◌, ◌&&◌, if◌then◌else◌, length,
  Result, ok, err, fault,
}
use ru_ble.Utils.CallbackTraits.{
  Value, nil_value, proc_value, object_value, assert_accepts_n_args, u8,
}

pub record Callback : Type 0 where
  pub arg_count : ℕ
  pub cb : Value

-- The constructor.
abbrev pub new_callback : ℕ → Callback
new_callback arg_count = record { arg_count = arg_count; cb = nil_value }

-- `set`: what it throws, and the state afterwards.
pub set : Callback → Value → Result (Unit {0}) × Callback
set c v = elim (assert_accepts_n_args v (u8 c.arg_count) true) [
  | err e ↦ (err e, c)
  | ok _ ↦ (ok tt, record c { cb = v })
]

pub clear : Callback → Result (Unit {0}) × Callback
unfolding set
clear c = set c nil_value

-- A call of a proc, with its arguments.
pub record Call {ℓ} (O : Type ℓ) : Type ℓ where
  pub proc : ℕ
  pub args : List O

unfoldable pub call_of {ℓ} : {O : Type ℓ} → Value → List O → Option (Call O)
call_of nil_value args = none
call_of (proc_value is_lambda params id) args = some (record { proc = id; args = args })
call_of (object_value id) args = some (record { proc = id; args = args })

-- `fire`: the call that it makes, if any. In a debug build the number of arguments is asserted.
unfoldable pub fire {ℓ} : {O : Type ℓ} → Bool → Callback → List O → Result (Option (Call O))
unfolding call_of
fire debug c args =
    if debug && not (length args == c.arg_count) then err fault else ok (call_of c.cb args)

-- `operator bool`. `false`, which the source tests for too, is an object that `set` never stores.
pub is_set : Callback → Bool
is_set c = elim c.cb [ nil_value ↦ false | _ ↦ true ]
