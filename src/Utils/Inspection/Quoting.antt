-- ===== src/Utils/Inspection/Quoting.antt =====
-- `ruby_inspect` and `ruby_quote_string` of ext/ruble/utils/inspection.cpp, on any thread. `S` is the state of Ruby.
use ru_ble.Base.{◌+◌, ◌<◌, ◌≡◌, ap, ◌∙◌, true, Result, ok, err, arith}
use ru_ble.Base.Texts.{Text}
use ru_ble.Utils.RubyContext.{InRuby, state, word}
use ru_ble.Utils.Ruby.{InRubyFn, ensure_ruby}
use ru_ble.Utils.Ruby.Ensured.{ensure_ruby_lem}

-- `String.new` and `inspect`, with the conversion of its result.
pub record Strings (S Object : Type 0) : Type 0 where
  pub new_string : Text → S → Result Object × S
  pub inspect : Object → InRubyFn S Text

module _ {S Object : Type 0} (ruby : Strings S Object) where
  unfoldable pub ruby_inspect : Object → InRuby → S → InRuby × Result Text × S
  ruby_inspect obj in_ruby s = ensure_ruby (ruby.inspect obj) in_ruby s

  -- The guards of `ruby_inspect` are gone when it returns.
  unfoldable pub quote_fn : Text → InRubyFn S Text
  unfolding ruby_inspect
  quote_fn str in_ruby s =
      let (made, s') = ruby.new_string str s in
      elim made [
        | err e ↦ (err e, s')
        | ok obj ↦ let (guards, r, s'') = ruby_inspect obj in_ruby s' in (r, s'')
      ]

  unfoldable pub ruby_quote_string : Text → InRuby → S → InRuby × Result Text × S
  unfolding quote_fn
  ruby_quote_string str in_ruby s = ensure_ruby (quote_fn str) in_ruby s

  quote_in_ruby :
      (str : Text) (r : InRuby) (s s' : S) (obj : Object)
      → state r ≡ true
      → ruby.new_string str s ≡ (ok obj, s')
      → quote_fn str r s ≡ ruby.inspect obj r s'
  unfolding quote_fn ruby_inspect ensure_ruby
  quote_in_ruby str r s s' obj h e = ground (arith, e, h)

  -- On any thread, if Ruby can make the string, it is inspected in Ruby, once; what that returns or throws is passed on, and
  -- the counter of guards is what it was.
  pub ruby_quote_string_lem :
      (str : Text) (in_ruby : InRuby) (s s' : S) (obj : Object)
      → in_ruby.use_count + 1 < word
      → ruby.new_string str s ≡ (ok obj, s')
      → (r : InRuby) × (state r ≡ true)
        × ((ruby_quote_string str in_ruby s).1 ≡ (ruby.inspect obj r s').0)
        × ((ruby_quote_string str in_ruby s).2 ≡ (ruby.inspect obj r s').1)
        × ((ruby_quote_string str in_ruby s).0.use_count ≡ in_ruby.use_count)
  unfolding ruby_quote_string
  ruby_quote_string_lem str in_ruby s s' obj h e =
      let (r, inside, x, y, z, w) = ensure_ruby_lem (quote_fn str) in_ruby s h in
      let q = quote_in_ruby str r s s' obj inside e in
      (r, inside, x ∙ ap (λ t. t.0) q, y ∙ ap (λ t. t.1) q, z)
