-- ===== src/Utils/Containers.antt =====
-- `map_by` of ext/ruble/utils/containers.hpp: the elements of a range by a key. `V` is the class of elements, and `map_fn` is
-- the function with the dereferencing of its argument.
use ru_ble.Base.{
  ◌≡◌, Option, none, some, List, [], ◌∷◌, map, arith, if◌then◌else◌, Option-cases, inl, inr,
}
use ru_ble.Base.Texts.{Text, text_eq, text_eq_iff}
use ru_ble.Base.Maps.{find, emplace, find-emplace, emplace_again, IsSorted, emplace-IsSorted}

module _ {V : Type 0} where
  -- The constructor of `std::map` from a range of pairs, with what is in the map already.
  insert_all : List (Text × V) → List (Text × V) → List (Text × V)
  insert_all [] m = m
  insert_all ((key, val) ∷ pairs) m = insert_all pairs (emplace key val m)

  pub map_by : (V → Text) → List V → List (Text × V)
  unfolding insert_all
  map_by map_fn r = insert_all (map (λ val. (map_fn val, val)) r) []

  -- The first element with a key.
  abbrev first_with : (V → Text) → Text → List V → Option V
  first_with map_fn key [] = none
  first_with map_fn key (val ∷ r) =
      let later = first_with map_fn key r in if text_eq (map_fn val) key then some val else later

  abbrev or_else : Option V → Option V → Option V
  or_else none other = other
  or_else (some v) other = some v

  module _ (map_fn : V → Text) where
    find-emplace_first :
        (key : Text) (val : V) (m : List (Text × V))
        → IsSorted m
        → find key (emplace (map_fn val) val m)
          ≡ or_else (find key m) (first_with map_fn key (val ∷ []))
    find-emplace_first key val m s = elim (Option-cases (find (map_fn val) m)) [
      | inl fresh ↦
          ground
            (arith, fresh, find-emplace key (map_fn val) val m fresh, text_eq_iff (map_fn val) key)
      | inr (v, taken) ↦
          ground
            (arith, taken, emplace_again (map_fn val) val v m s taken, text_eq_iff (map_fn val) key)
    ]

    find-insert_all :
        (r : List V) (key : Text) (m : List (Text × V))
        → IsSorted m
        → find key (insert_all (map (λ val. (map_fn val, val)) r) m)
          ≡ or_else (find key m) (first_with map_fn key r)
    unfolding insert_all
    find-insert_all [] key m s = ground arith
    find-insert_all (val ∷ r) key m s = ground (
      arith,
      find-insert_all r key (emplace (map_fn val) val m) (emplace-IsSorted (map_fn val) val m s),
      find-emplace_first key val m s,
    )

    -- Under each key the map has the first element of the range with it, and no other key.
    map_by_lem : (r : List V) (key : Text) → find key (map_by map_fn r) ≡ first_with map_fn key r
    unfolding map_by find
    map_by_lem r key = find-insert_all r key [] tt
