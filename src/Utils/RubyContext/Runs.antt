-- ===== src/Utils/RubyContext/Runs.antt =====
-- The guard of the main thread, which is assigned a new one.
use ru_ble.Base.{◌+◌, ◌<◌, ◌≡◌, ◌↔◌, ◌⊎◌, refl, true, none, [], ◌∷◌, arith}
use ru_ble.Utils.RubyContext.{InRuby, state, new_guard, assert_in_ruby_guard, move_assign, destroy}
use ru_ble.Utils.RubyContext.Guards.{
  Reached, start, made, asserted, assigned, destroyed, held, is_live, use_count_lem,
}

abbrev nothing : InRuby
nothing = record { use_count = 0; guards = [] }

abbrev initialised : InRuby
initialised = destroy (move_assign (assert_in_ruby_guard (new_guard nothing)) 0 1) 1

abbrev shut_down : InRuby
shut_down = destroy initialised 0

-- No guard is left, and the counter is not 0.
shut_down_lem : shut_down ≡ record { use_count = 1; guards = none ∷ none ∷ [] }
unfolding destroy move_assign assert_in_ruby_guard new_guard
shut_down_lem = refl

shut_down-Reached : Reached shut_down 1
unfolding destroy move_assign assert_in_ruby_guard new_guard is_live
shut_down-Reached =
    destroyed 0 refl
      (destroyed 1 refl (assigned 0 1 refl refl (omega arith) (asserted (made start))))

shut_down-held : held shut_down.guards ≡ 0
unfolding destroy move_assign assert_in_ruby_guard new_guard held
shut_down-held = refl

use_count_lem_example :
    (shut_down.use_count ≡ held shut_down.guards + 1)
    × ((state shut_down ≡ true) ↔ ((0 < held shut_down.guards) ⊎ (0 < 1)))
use_count_lem_example = use_count_lem shut_down-Reached (rw shut_down-held (omega arith))
