-- ===== src/Concerns/Rubyable/Once.antt =====
-- The Ruby object of an object is made once.
use ru_ble.Base.{
  ℕ, ◌+◌, ◌<◌, ◌≡◌, ◌⊎◌, inl, inr, true, false, none, some, [], ◌∷◌, arith, ok, Option-cases,
}
use ru_ble.Utils.RubyContext.{InRuby, state, word}
use ru_ble.Utils.Ruby.{ensure_ruby}
use ru_ble.Utils.Ruby.Ensured.{ensure_ruby_lem}
use ru_ble.Concerns.Rubyable.{Rubyable, self, self_fn, ruby_mark}

-- In Ruby there is an object afterwards, and it is the one that is returned.
self_in_ruby :
    (in_ruby : InRuby) (r : Rubyable)
    → state in_ruby ≡ true
    → (v : ℕ) × ((self in_ruby r).0 ≡ some v)
      × ((self in_ruby r).1.self ≡ some v)
      × ((r.self ≡ none) ⊎ ((self in_ruby r).1 ≡ r))
unfolding self
self_in_ruby in_ruby r h = elim (Option-cases r.self) [
  | inl e ↦ (r.fresh, ground arith, ground arith, inl e)
  | inr (v, e) ↦ (v, ground arith, ground arith, inr (ground arith))
]

self_again :
    (in_ruby : InRuby) (r : Rubyable) {v : ℕ} → r.self ≡ some v → self in_ruby r ≡ (some v, r)
unfolding self
self_again in_ruby r h = ground arith

-- Through `ensure_ruby`, `self` always returns an object, from Ruby or not. Any later call, anywhere, returns the
-- same object and makes none, and the object is what `ruby_mark` marks. Outside Ruby and without
-- `ensure_ruby`, a call makes none: it returns the object there is, or nil.
pub self_once :
    (in_ruby elsewhere : InRuby) (r : Rubyable)
    → in_ruby.use_count + 1 < word
    → state elsewhere ≡ false
    → (v : ℕ) × ((ensure_ruby self_fn in_ruby r).1 ≡ ok (some v))
      × (r' : Rubyable) × ((ensure_ruby self_fn in_ruby r).2 ≡ r')
      × ((later : InRuby) → self later r' ≡ (some v, r'))
      × (ruby_mark r' ≡ v ∷ [])
      × (self elsewhere r ≡ (r.self, r))
unfolding self ruby_mark
self_once in_ruby elsewhere r h out =
    let (g, inside, e, f, _, _) = ensure_ruby_lem self_fn in_ruby r h in
    let (v, a, b, _) = self_in_ruby g r inside in
    (
      v,
      ground (arith, e, a),
      (self g r).1,
      f,
      (λ later. self_again later (self g r).1 b),
      ground (arith, b),
      ground arith,
    )
