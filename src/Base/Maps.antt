-- ===== src/Base/Maps.antt =====
-- `std::map<std::string, V>`: an association list in increasing order of the keys.
use Prim.Native.Nat.{Ordering}
use mathlib.Core.Path.{◌≡◌, refl}
use mathlib.Core.Option.{Option, none, some}
use mathlib.Core.Logic.{◌⊎◌}
use mathlib.Core.List.{List, [], ◌∷◌}
use native.Mathlib.Omega.{arith}
use ru_ble.Base.Tests.{if◌then◌else◌}
use ru_ble.Base.Lists.{All}
use ru_ble.Base.Texts.{
  Text, text_eq, text_eq_iff, compare_text, compare_text-eq, compare_text-gt, compare_text_refl,
  Before, Before-trans,
}

module _ {ℓ} {V : Type ℓ} where
  -- `find`, and `at` where it is not `none`.
  unfoldable pub find : Text → List (Text × V) → Option V
  find k [] = none
  find k ((j, v) ∷ m) = if text_eq j k then some v else find k m

  -- `emplace`: an entry that is there already stays.
  unfoldable pub emplace : Text → V → List (Text × V) → List (Text × V)
  emplace k v [] = (k, v) ∷ []
  emplace k v ((j, w) ∷ m) = elim (compare_text k j) [
    | Ordering.lt ↦ (k, v) ∷ (j, w) ∷ m
    | Ordering.eq ↦ (j, w) ∷ m
    | Ordering.gt ↦ (j, w) ∷ emplace k v m
  ]

  abbrev pub Above : Text → List (Text × V) → Type 0
  Above k = All (λ e. Before k e.0)

  abbrev pub IsSorted : List (Text × V) → Type 0
  IsSorted [] = Unit
  IsSorted ((k, v) ∷ m) = Above k m × IsSorted m

  -- A new key is found with its value, and every other key as before.
  pub find-emplace :
      (j k : Text) (v : V) (m : List (Text × V))
      → find k m ≡ none
      → find j (emplace k v m) ≡ (if text_eq k j then some v else find j m)
  unfolding find emplace
  find-emplace j k v [] h = refl
  find-emplace j k v ((i, w) ∷ m) h = ground (
    arith,
    find-emplace j k v m,
    compare_text-eq k i,
    text_eq_iff i k,
    text_eq_iff i j,
    text_eq_iff k j,
  )

  Above-of_Before : (k j : Text) (m : List (Text × V)) → Before k j → Above j m → Above k m
  Above-of_Before k j [] h a = tt
  Above-of_Before k j ((i, w) ∷ m) h a = (Before-trans k j i h a.0, Above-of_Before k j m h a.1)

  Above-emplace :
      (j k : Text) (v : V) (m : List (Text × V)) → Before j k → Above j m → Above j (emplace k v m)
  unfolding emplace
  Above-emplace j k v [] h a = (h, tt)
  Above-emplace j k v ((i, w) ∷ m) h a = ground (arith, Above-emplace j k v m)

  pub emplace-IsSorted :
      (k : Text) (v : V) (m : List (Text × V)) → IsSorted m → IsSorted (emplace k v m)
  unfolding emplace
  emplace-IsSorted k v [] s = (tt, tt)
  emplace-IsSorted k v ((j, w) ∷ m) s = ground (
    arith,
    emplace-IsSorted k v m,
    compare_text-gt k j,
    Above-emplace j k v m,
    Above-of_Before k j m,
  )

  find-Above : (k : Text) (m : List (Text × V)) → Above k m → find k m ≡ none
  unfolding find
  find-Above k [] a = refl
  find-Above k ((j, v) ∷ m) a =
      ground (arith, find-Above k m, a, text_eq_iff j k, compare_text_refl k)

  -- A key that is there keeps its value.
  pub emplace_again :
      (k : Text) (v w : V) (m : List (Text × V))
      → IsSorted m
      → find k m ≡ some w
      → emplace k v m ≡ m
  unfolding find emplace
  emplace_again k v w [] s h = cc
  emplace_again k v w ((j, u) ∷ m) s h = ground (
    arith,
    emplace_again k v w m,
    find-Above k m,
    Above-of_Before k j m,
    text_eq_iff j k,
    compare_text_refl k,
    s,
    h,
  )

  -- A key has the value it had, or the one that was put there.
  pub find-emplace_cases :
      (j k : Text) (v : V) (m : List (Text × V))
      → (find j (emplace k v m) ≡ find j m) ⊎ ((k ≡ j) × (find j (emplace k v m) ≡ some v))
  unfolding find emplace
  find-emplace_cases j k v [] = ground (arith, text_eq_iff k j)
  find-emplace_cases j k v ((i, w) ∷ m) =
      ground (arith, find-emplace_cases j k v m, text_eq_iff k j, compare_text-eq k i)
