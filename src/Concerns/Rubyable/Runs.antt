-- ===== src/Concerns/Rubyable/Runs.antt =====
-- A byte array that was made on a thread of SimpleBLE.
use ru_ble.Base.{◌≡◌, refl, none, some, [], ok}
use ru_ble.Utils.RubyContext.{InRuby, state, assert_in_ruby_guard, destroy}
use ru_ble.Utils.Ruby.{ensure_ruby, invoke}
use ru_ble.Concerns.Rubyable.{Rubyable, self, self_fn, get_or_allocate_rb_object}

abbrev outside : InRuby
outside = record { use_count = 0; guards = [] }

abbrev unused : Rubyable
unused = record { self = none; fresh = 12 }

-- Without `ensure_ruby` it has no object.
no_object : self outside unused ≡ (none, unused)
unfolding self get_or_allocate_rb_object state
no_object = refl

-- With it, the next object is made for it.
first_object : (ensure_ruby self_fn outside unused).1 ≡ ok (some 12)
unfolding ensure_ruby invoke self get_or_allocate_rb_object state assert_in_ruby_guard destroy
first_object = refl
