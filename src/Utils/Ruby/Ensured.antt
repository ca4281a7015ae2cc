-- ===== src/Utils/Ruby/Ensured.antt =====
-- In which context `ensure_ruby` calls a function, and what it leaves.
use ru_ble.Base.{
  ◌+◌, ◌<◌, ◌≡◌, refl, Bool, true, Option, some, List, [], ◌∷◌, ◌++◌, arith, length, Bool-cases,
  inl, inr,
}
use ru_ble.Utils.RubyContext.{InRuby, state, word, assert_in_ruby_guard, destroy, holds}
use ru_ble.Utils.Ruby.{InRubyFn, ensure_ruby}

holds-append : (gs : List (Option Bool)) → holds (gs ++ (some true ∷ [])) (length gs) ≡ true
holds-append [] = refl
holds-append (g ∷ gs) = holds-append gs

-- A function is called once, in Ruby, on the state it was given, and its result or exception is passed on. Afterwards the
-- counter of guards is what it was.
pub ensure_ruby_lem :
    {S T : Type 0} (fn : InRubyFn S T) (in_ruby : InRuby) (s : S)
    → in_ruby.use_count + 1 < word
    → (r : InRuby) × (state r ≡ true)
      × ((ensure_ruby fn in_ruby s).1 ≡ (fn r s).0)
      × ((ensure_ruby fn in_ruby s).2 ≡ (fn r s).1)
      × ((ensure_ruby fn in_ruby s).0.use_count ≡ in_ruby.use_count)
      × (state (ensure_ruby fn in_ruby s).0 ≡ state in_ruby)
unfolding ensure_ruby assert_in_ruby_guard destroy state
ensure_ruby_lem fn in_ruby s h = elim (Bool-cases (state in_ruby)) [
  | inl inside ↦ (in_ruby, inside, ground arith, ground arith, ground arith, ground arith)
  | inr outside ↦ (
    assert_in_ruby_guard in_ruby,
    ground arith,
    ground arith,
    ground arith,
    ground (arith, holds-append in_ruby.guards),
    ground (arith, holds-append in_ruby.guards),
  )
]
