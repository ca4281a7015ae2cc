-- ===== src/Bindings/Peripheral/Lookup.antt =====
-- What a peripheral finds under a UUID.
use ru_ble.Base.{
  ℕ, ◌≡◌, refl, ◌⊎◌, inr, Bool, true, false, ◌||◌, none, some, List, arith, if◌then◌else◌, ok,
}
use ru_ble.Base.Texts.{Text}
use ru_ble.Base.Maps.{find}
use ru_ble.Management.Registry.{Registry, contains, at}
use ru_ble.Management.Registry.Refresh.{has_key, fetch_each_lem}
use ru_ble.Bindings.Peripheral.{services, get, null_if_missing}

module _ {V P : Type 0} (uuid_of : V → Text) (new_service : ℕ → V → P) where
  at_cases : (r : Registry P) (uuid : Text) → null_if_missing (at r uuid) ≡ ok (find uuid r.entries)
  unfolding at
  at_cases r uuid = ground arith

  -- `operator[]` throws nothing. Outside a garbage collection it first puts every service that SimpleBLE lists
  -- in the registry, whether or not the UUID is there already, and keeps the proxies it has; during one it
  -- changes nothing. Then it returns what the registry holds under the UUID: null where neither the registry
  -- held it before nor, outside a garbage collection, SimpleBLE lists it.
  get_lem :
      (during_gc : Bool) (listed : List V) (r : Registry P) (uuid j : Text)
      → (r' : Registry P) × (get uuid_of new_service during_gc listed (some r) uuid
          ≡ (ok (find uuid r'.entries), some r'))
        × ((find j r.entries ≡ none) ⊎ (find j r'.entries ≡ find j r.entries))
        × (contains r' j
            ≡ (contains r j || (if during_gc then false else has_key uuid_of new_service j listed)))
  unfolding get services
  get_lem true listed r uuid j = (r, rw (at_cases r uuid), inr refl, ground arith)
  get_lem false listed r uuid j =
      let (r', e, x, c) = fetch_each_lem uuid_of new_service r listed in
      (r', ground (arith, e, at_cases r' uuid), x j, c j)
