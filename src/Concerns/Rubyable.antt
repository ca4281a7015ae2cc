-- ===== src/Concerns/Rubyable.antt =====
-- ext/ruble/concerns/Rubyable.hpp: the Ruby object of a C++ object, which is made at its first use. `none` is `Qnil`, and
-- `Data_Object` makes the object `fresh`.
pub mod Once
mod Runs
use ru_ble.Base.{
  ℕ, Bool, true, false, Option, none, some, List, [], ◌∷◌, if◌then◌else◌, suc, ok, Result,
}
use ru_ble.Utils.RubyContext.{InRuby, state}
use ru_ble.Utils.Ruby.{InRubyFn}

-- The object, and the number of the next one that Ruby allocates.
pub record Rubyable : Type 0 where
  pub self : Option ℕ
  pub fresh : ℕ

unfoldable pub get_or_allocate_rb_object : InRuby → Rubyable → Option ℕ × Rubyable
get_or_allocate_rb_object in_ruby r = elim r.self [
  | some self ↦ (some self, r)
  | none ↦
      if state in_ruby
      then (some r.fresh, record { self = some r.fresh; fresh = suc r.fresh })
      else (none, r)
]

-- `self`
unfoldable pub self : InRuby → Rubyable → Option ℕ × Rubyable
unfolding get_or_allocate_rb_object
self in_ruby r = elim r.self [ some v ↦ (some v, r) | none ↦ get_or_allocate_rb_object in_ruby r ]

-- `Rubyable::ruby_mark`
unfoldable pub ruby_mark : Rubyable → List ℕ
ruby_mark r = elim r.self [ none ↦ [] | some v ↦ v ∷ [] ]

-- `self` as a function that `ensure_ruby` can call.
abbrev pub self_fn : InRubyFn Rubyable (Option ℕ)
self_fn in_ruby r = let (v, r') = self in_ruby r in (ok v, r')
