-- ===== src/Management/Registry.antt =====
-- ext/ruble/management/Registry.hpp: the proxy objects of one owner by their keys. `V` is the class of SimpleBLE
-- objects, `P` the class of proxies; `key_from_value` asks the object for its address or UUID, and
-- `new_proxy` makes the proxy, with its owner, at a new address. The calls are steps, one after the other: `fetch` and `clear`
-- hold the mutex, the others do not, and calls that overlap are left out.
pub mod Fetch
pub mod Bulk
pub mod Refresh
pub mod Keyed
pub mod Abstract
pub mod Again
mod Runs
use ru_ble.Base.{
  ℕ, suc, Bool, true, false, Option, none, some, List, [], ◌∷◌, map, if◌then◌else◌, length, is_some,
  Result, ok, err, runtime_error, out_of_range, invalid_argument,
}
use ru_ble.Base.Texts.{Text}
use ru_ble.Base.Maps.{find, emplace}

-- The Ruby object of the registry, the map, and the address of the next object that `new` makes.
pub record Registry (P : Type 0) : Type 0 where
  pub self : ℕ
  pub entries : List (Text × P)
  pub next : ℕ

-- What a class of SimpleBLE objects has that names one of them; the registries of this program are for classes with one of
-- the first two.
pub data Identified (V : Type 0) : Type 0 where
  addressable uuidable : (V → Text) → Identified V
  unidentified : Identified V

key_from_value : {V : Type 0} → Identified V → V → Result Text
key_from_value unidentified v = err invalid_argument
key_from_value (addressable address) v = ok (address v)
key_from_value (uuidable uuid) v = ok (uuid v)

module _ {P : Type 0} where
  abbrev pub new_registry : ℕ → ℕ → Registry P
  new_registry self next = record { self = self; entries = []; next = next }

  pub size : Registry P → ℕ
  size r = length r.entries

  unfoldable pub contains : Registry P → Text → Bool
  contains r key = is_some (find key r.entries)

  -- `at` and `operator[]`
  unfoldable pub at : Registry P → Text → Result P
  at r addr = elim (find addr r.entries) [ none ↦ err out_of_range | some p ↦ ok p ]

  unfoldable pub clear : Registry P → Registry P
  clear r = record r { entries = [] }

  -- What `for_each` passes on, in this order.
  pub values : List (Text × P) → List P
  values [] = []
  values ((key, value) ∷ rest) = value ∷ values rest

module _ {V P : Type 0} (key_from_value : V → Text) (new_proxy : ℕ → V → P) where
  -- `emplace` of a new proxy.
  abbrev pub grown : Registry P → V → Registry P
  grown r value = record r {
    entries = emplace (key_from_value value) (new_proxy r.next value) r.entries;
    next = suc r.next;
  }

  unfoldable pub fetch : Bool → Registry P → V → Result P × Registry P
  unfolding at
  fetch during_gc r value =
      let key = key_from_value value in
      elim (find key r.entries) [
        | some found ↦ (ok found, r)
        | none ↦
            if during_gc then (err runtime_error, r) else (at (grown r value) key, grown r value)
      ]

  -- An exception ends `transform`; what was fetched before stays.
  unfoldable pub map_to_objects : Bool → Registry P → List V → Result (List P) × Registry P
  unfolding fetch
  map_to_objects during_gc r [] = (ok [], r)
  map_to_objects during_gc r (v ∷ vs) =
      let (p, r') = fetch during_gc r v in
      let (ps, r'') = map_to_objects during_gc r' vs in
      elim p [
        | err e ↦ (err e, r')
        | ok q ↦ elim ps [ err e ↦ (err e, r'') | ok qs ↦ (ok (q ∷ qs), r'') ]
      ]

  pub map_to_ruby_objects :
      {O : Type 0} → (P → O) → Bool → Registry P → List V → Result (List O) × Registry P
  unfolding map_to_objects
  map_to_ruby_objects self during_gc r vs =
      let (ps, r') = map_to_objects during_gc r vs in
      (elim ps [ err e ↦ err e | ok qs ↦ ok (map self qs) ], r')

  -- The loop of `Peripheral::services` and `Service::characteristics`.
  unfoldable pub fetch_each : Bool → Registry P → List V → Result (Unit {0}) × Registry P
  unfolding fetch
  fetch_each during_gc r [] = (ok tt, r)
  fetch_each during_gc r (v ∷ vs) =
      let (p, r') = fetch during_gc r v in
      let rest = fetch_each during_gc r' vs in elim p [ err e ↦ (err e, r') | ok q ↦ rest ]
