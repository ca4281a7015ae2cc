-- ===== src/Concerns/ValueTracker/Laws.antt =====
-- Which of a sequence of values count as new, and what the tracker keeps of them.
use ru_ble.Base.{
  ℕ, ◌≡◌, refl, ◌⊎◌, inl, inr, Bool, true, false, not, ◌&&◌, Option, none, some, List, [], ◌∷◌,
  arith, ltb, length, Option-cases, Ordering, if◌then◌else◌, Result, ok, err, runtime_error,
  Bool-cases,
}
use ru_ble.Containers.ByteArray.{ByteArray, differs, byte_count, equals, spaceship}
use ru_ble.Concerns.ValueTracker.{
  Tracker, new_tracker, value_tracking, record_new_value, set_value_tracking, last_value,
}

-- `record_new_value` on one value after the other: its answers, and the state afterwards.
pub record_all : Bool → Tracker → List ByteArray → List Bool × Tracker
unfolding record_new_value
record_all can_notify t [] = ([], t)
record_all can_notify t (v ∷ vs) =
    let (changed, t') = record_new_value can_notify t v in
    let (others, t'') = record_all can_notify t' vs in (changed ∷ others, t'')

abbrev pub empty : ByteArray
empty = record { bytes = [] }

abbrev pub known : Option ByteArray → ByteArray
known none = empty
known (some v) = v

-- Which values differ from the one before.
unfoldable pub changes : ByteArray → List ByteArray → List Bool
changes before [] = []
changes before (v ∷ vs) = differs before v ∷ changes v vs

abbrev pub last_of : Option ByteArray → List ByteArray → Option ByteArray
last_of o [] = o
last_of o (v ∷ vs) = last_of (some v) vs

abbrev pub all_true : List ByteArray → List Bool
all_true [] = []
all_true (v ∷ vs) = true ∷ all_true vs

compare_text-nil :
    (bs : List ℕ)
    → (elim (ru_ble.Base.Texts.compare_text [] bs) [ Ordering.eq ↦ false | _ ↦ true ])
      ≡ ltb 0 (length bs)
unfolding ru_ble.Base.Texts.compare_text
compare_text-nil [] = refl
compare_text-nil (b ∷ bs) = ground arith

differs-empty : (v : ByteArray) → differs empty v ≡ ltb 0 (byte_count v)
unfolding differs equals spaceship
differs-empty v = ground (arith, compare_text-nil v.bytes)

pub record_tracked :
    (can_notify : Bool) (t : Tracker) (v : ByteArray)
    → value_tracking can_notify t ≡ true
    → record_new_value can_notify t v ≡ (differs (known t.value) v, record t { value = some v })
unfolding record_new_value
record_tracked can_notify t v h = elim (Option-cases t.value) [
  | inl e ↦ rw (h, e, differs-empty v)
  | inr (old, e) ↦ rw (h, e)
]

record_all-tracked :
    (can_notify : Bool) (t : Tracker) (vs : List ByteArray)
    → value_tracking can_notify t ≡ true
    → record_all can_notify t vs
      ≡ (changes (known t.value) vs, record t { value = last_of t.value vs })
unfolding record_all changes value_tracking
record_all-tracked can_notify t [] h = refl
record_all-tracked can_notify t (v ∷ vs) h = rw (
  record_tracked can_notify t v h,
  record_all-tracked can_notify (record t { value = some v }) vs h,
)

record_all-untracked :
    (can_notify : Bool) (t : Tracker) (vs : List ByteArray)
    → value_tracking can_notify t ≡ false
    → record_all can_notify t vs ≡ (all_true vs, t)
unfolding record_all record_new_value value_tracking
record_all-untracked can_notify t [] h = refl
record_all-untracked can_notify t (v ∷ vs) h = rw (h, record_all-untracked can_notify t vs h)

-- With tracking, a value counts as new exactly if it differs from the one recorded before it (from
-- the empty one if there is none), and the last one is kept; without, every value counts as new and
-- nothing is kept.
pub record_all_lem :
    (can_notify : Bool) (t : Tracker) (vs : List ByteArray)
    → record_all can_notify t vs ≡ (
        if value_tracking can_notify t
        then (changes (known t.value) vs, record t { value = last_of t.value vs })
        else (all_true vs, t))
record_all_lem can_notify t vs = elim (Bool-cases (value_tracking can_notify t)) [
  | inl h ↦ rw h (record_all-tracked can_notify t vs h)
  | inr h ↦ rw h (record_all-untracked can_notify t vs h)
]

-- Tracking is on only where it was asked for or the characteristic notifies; it was asked for only
-- where the characteristic notifies; a value is kept only under tracking.
pub record IsConsistent (can_notify : Bool) (t : Tracker) : Type 0 where
  pub allowed : value_tracking can_notify t ≡ true → can_notify ≡ true
  pub kept : (v : ByteArray) → t.value ≡ some v → value_tracking can_notify t ≡ true

-- A new tracker tracks nothing that does not notify and keeps a value only while it tracks, and
-- both calls that change a tracker keep it so.
pub tracker-IsConsistent :
    (can_notify : Bool) (t : Tracker) (v : ByteArray) (b : Bool)
    → IsConsistent can_notify t
    → IsConsistent can_notify (new_tracker none)
      × IsConsistent can_notify (record_new_value can_notify t v).1
      × IsConsistent can_notify (set_value_tracking can_notify t b).1
unfolding record_new_value value_tracking set_value_tracking
tracker-IsConsistent can_notify t v b c = (
  record { allowed = λ h. h; kept = λ w h. cc },
  record { allowed = ground (arith, c.allowed); kept = ground (arith, c.kept) },
  record { allowed = ground (arith, c.allowed); kept = ground (arith, c.kept) },
)

-- Asking for tracking without the capability throws and changes nothing. Any other call sets the
-- tracking as asked; the last value is kept if it is on, and forgotten otherwise.
pub set_value_tracking_lem :
    (can_notify : Bool) (t : Tracker) (b : Bool)
    → let s = set_value_tracking can_notify t b in
      ((s.0 ≡ err runtime_error) × (b ≡ true) × (can_notify ≡ false) × (s.1 ≡ t))
      ⊎ ((s.0 ≡ ok tt)
          × (value_tracking can_notify s.1 ≡ b)
          × (last_value s.1 ≡ (if b then last_value t else none)))
unfolding set_value_tracking value_tracking last_value
set_value_tracking_lem true t true = inr (refl, refl, refl)
set_value_tracking_lem false t true = inl (refl, refl, refl, refl)
set_value_tracking_lem can_notify t false = inr (refl, refl, refl)
