-- ===== src/Concerns/ValueTracker.antt =====
-- ext/ruble/concerns/CharacteristicValueTracker.hpp and CharacteristicValueTracker.cpp: the last value of a
-- characteristic. `can_notify`, which a subclass answers, is a parameter.
pub mod Laws
mod Runs
use ru_ble.Base.{
  ℕ, Bool, true, false, not, ◌&&◌, Option, none, some, List, [], ◌∷◌, ltb, if◌then◌else◌, Result,
  ok, err, runtime_error,
}
use ru_ble.Containers.ByteArray.{ByteArray, byte_count, differs}

pub record Tracker : Type 0 where
  pub track_values : Option Bool
  pub value : Option ByteArray

-- The constructor.
abbrev pub new_tracker : Option Bool → Tracker
new_tracker enabled = record { track_values = enabled; value = none }

unfoldable pub value_tracking : Bool → Tracker → Bool
value_tracking can_notify t = elim t.track_values [ none ↦ can_notify | some b ↦ b ]

-- Whether the value changed, and the state afterwards.
unfoldable pub record_new_value : Bool → Tracker → ByteArray → Bool × Tracker
unfolding value_tracking
record_new_value can_notify t new_data = if not (value_tracking can_notify t) then (true, t) else (
  elim t.value [ none ↦ ltb 0 (byte_count new_data) | some old ↦ differs old new_data ],
  record t { value = some new_data },
)

-- What is thrown, and the state afterwards.
pub set_value_tracking : Bool → Tracker → Bool → Result (Unit {0}) × Tracker
set_value_tracking can_notify t new_value =
    if new_value && not can_notify then (err runtime_error, t) else (
      ok tt,
      record { track_values = some new_value; value = if new_value then t.value else none },
    )

unfoldable pub last_value : Tracker → Option ByteArray
last_value t = t.value
