-- ===== src/Bindings/Service/Lookup.antt =====
-- What a service finds under a UUID.
use ru_ble.Base.{
  ℕ, ◌≡◌, refl, ◌⊎◌, inl, inr, Bool, false, ◌||◌, none, some, List, arith, if◌then◌else◌, ok, err,
  out_of_range, Bool-cases,
}
use ru_ble.Base.Texts.{Text}
use ru_ble.Base.Maps.{find}
use ru_ble.Management.Registry.{Registry, contains, at}
use ru_ble.Management.Registry.Refresh.{has_key, fetch_each_lem}
use ru_ble.Bindings.Service.{characteristics, get}

module _ {V P : Type 0} (uuid_of : V → Text) (new_characteristic : ℕ → V → P) where
  -- `operator[]` of a service returns a proxy that is there without asking SimpleBLE. Where none is, it puts
  -- every characteristic that SimpleBLE lists in the registry, unless this is a garbage collection, which
  -- changes nothing, and keeps the proxies it has. Then it returns the one under the UUID, and
  -- `out_of_range` is thrown exactly where there is none.
  pub get_characteristic_lem :
      (during_gc : Bool) (listed : List V) (r : Registry P) (uuid j : Text)
      → (r' : Registry P) × (get uuid_of new_characteristic during_gc listed r uuid
          ≡ (elim (find uuid r'.entries) [ none ↦ err out_of_range | some p ↦ ok p ], r'))
        × ((find j r.entries ≡ none) ⊎ (find j r'.entries ≡ find j r.entries))
        × (contains r' j ≡ (
            contains r j
            || (if during_gc || contains r uuid
                then false
                else has_key uuid_of new_characteristic j listed)))
  unfolding get characteristics at
  get_characteristic_lem during_gc listed r uuid j =
      elim (Bool-cases (during_gc || contains r uuid)) [
        | inl h ↦ (r, ground arith, inr refl, ground arith)
        | inr h ↦
            let (r', e, x, c) = fetch_each_lem uuid_of new_characteristic r listed in
            (r', ground (arith, e), x j, ground (arith, c j))
      ]
