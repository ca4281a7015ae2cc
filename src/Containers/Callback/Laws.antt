-- ===== src/Containers/Callback/Laws.antt =====
-- What a callback holds and calls.
use ru_ble.Base.{
  ℕ, ◌<◌, ◌≡◌, ◌⊎◌, inl, inr, Bool, true, false, none, List, [], arith, length, ok, err,
  invalid_argument,
}
use ru_ble.Utils.CallbackTraits.{
  Value, nil_value, proc_value, object_value, assert_accepts_n_args, u8,
}
use ru_ble.Utils.CallbackTraits.Arity.{
  CanCall, assert_accepts_iff, assert_accepts_cases, assert_accepts_nil,
}
use ru_ble.Containers.Callback.{Callback, set, clear, fire, is_set, call_of}

-- What `set` and `clear` leave in a callback for fewer than 256 arguments: nothing, a proc that is no lambda, or a
-- lambda that Ruby can call with the arguments of `fire`.
abbrev pub Callable : Callback → Value → Type 0
Callable c nil_value = Unit
Callable c (proc_value false params id) = Unit
Callable c (proc_value true params id) = CanCall params c.arg_count
Callable c (object_value id) = ⊥

abbrev Small : Value → Type 0
Small (proc_value is_lambda params id) = length params < 256
Small _ = Unit

small : (n : ℕ) → n < 256 → u8 n ≡ n
small n h = omega arith

accepted :
    (c : Callback) (v : Value)
    → c.arg_count < 256
    → Small v
    → assert_accepts_n_args v (u8 c.arg_count) true ≡ ok tt
    → Callable c v
accepted c nil_value h k p = tt
accepted c (object_value id) h k p =
    cc ((assert_accepts_iff [] (u8 c.arg_count) id true (omega arith) (omega arith)).3)
accepted c (proc_value false params id) h k p = tt
accepted c (proc_value true params id) h k p =
    (assert_accepts_iff params c.arg_count id true k h).0.0 (rw (small c.arg_count h) at p)

-- For fewer than 256 arguments and parameters, `set` throws and changes nothing, or stores the value; then `fire` calls that proc with exactly its
-- arguments, and if the proc is a lambda Ruby can call it with as many as the callback is for. After `clear`,
-- which never throws, `fire` calls nothing.
set-fire :
    {O : Type 0} (debug : Bool) (c : Callback) (v : Value) (args : List O)
    → c.arg_count < 256
    → Small v
    → length args ≡ c.arg_count
    → let s = set c v in
      (((s.0 ≡ err invalid_argument) × (s.1 ≡ c))
        ⊎ ((s.0 ≡ ok tt)
            × (s.1.cb ≡ v)
            × Callable c v
            × (fire debug s.1 args ≡ ok (call_of v args))
            × (is_set s.1 ≡ (elim v [ nil_value ↦ false | _ ↦ true ]))))
      × ((clear c).0 ≡ ok tt)
      × (fire debug (clear c).1 args ≡ ok none)
unfolding set fire clear is_set
set-fire debug c v args h k e = elim (assert_accepts_cases v (u8 c.arg_count) true) [
  | inl p ↦ (
    inr (rw (p, set), rw (p, set), accepted c v h k p, ground arith, ground arith),
    ground (arith, assert_accepts_nil (u8 c.arg_count)),
    ground (arith, assert_accepts_nil (u8 c.arg_count)),
  )
  | inr p ↦ (
    inl (rw (p, set), rw (p, set)),
    ground (arith, assert_accepts_nil (u8 c.arg_count)),
    ground (arith, assert_accepts_nil (u8 c.arg_count)),
  )
]
