-- ===== src/Concerns/ValueTracker/Runs.antt =====
-- The heart rate 7, 7, 8 from a characteristic that notifies.
use ru_ble.Base.{
  ℕ, ◌≡◌, refl, ◌⊎◌, Bool, true, false, Option, none, some, List, [], ◌∷◌, if◌then◌else◌, Result,
  ok, err, runtime_error,
}
use ru_ble.Containers.ByteArray.{ByteArray, differs, equals, spaceship}
use ru_ble.Concerns.ValueTracker.{Tracker, new_tracker, record_new_value, set_value_tracking}
use ru_ble.Concerns.ValueTracker.Laws.{changes, empty, IsConsistent, tracker-IsConsistent}

abbrev rate : ℕ → ByteArray
rate n = record { bytes = n ∷ [] }

abbrev rates : List ByteArray
rates = rate 7 ∷ rate 7 ∷ rate 8 ∷ []

abbrev fresh : Tracker
fresh = new_tracker none

changes_of_rates : changes empty rates ≡ true ∷ false ∷ true ∷ []
unfolding changes differs equals spaceship ru_ble.Base.Texts.compare_text
changes_of_rates = refl

fresh-IsConsistent : IsConsistent true fresh
fresh-IsConsistent = record { allowed = λ h. refl; kept = λ v h. cc }

tracker-IsConsistent_example :
    IsConsistent true (new_tracker none)
    × IsConsistent true (record_new_value true fresh (rate 7)).1
    × IsConsistent true (set_value_tracking true fresh false).1
tracker-IsConsistent_example = tracker-IsConsistent true fresh (rate 7) false fresh-IsConsistent
