-- ===== src/Bindings/Service/Runs.antt =====
-- Two peripherals with the battery service, and a service with one proxy.
use ru_ble.Base.{
  ℕ, ◌≡◌, ◌==◌, refl, false, none, List, [], ◌∷◌, if◌then◌else◌, ok, err, out_of_range,
}
use ru_ble.Base.Texts.{Text, codes, text_eq, compare_text}
use ru_ble.Base.Maps.{find, emplace}
use ru_ble.Management.Registry.{Registry, contains, at, fetch_each, fetch}
use ru_ble.Management.RegistryFactory.{RegistryFactory, new_factory, find_hash}
use ru_ble.Bindings.Device.{device}
use ru_ble.Bindings.Service.{get, characteristics}
use ru_ble.Bindings.Service.Owners.{
  OwnedService, Proxy, service_hash, CharacteristicRegistry, characteristic_registry,
  fetch_characteristic, read_proxy, same_uuid_lem,
}

abbrev name : Text → Text
name v = v

abbrev number : ℕ → Text → ℕ
number n v = n

abbrev registry : Registry ℕ
registry = record { self = 3; entries = (codes "2a37", 40) ∷ []; next = 41 }

abbrev listed : List Text
listed = codes "2a38" ∷ []

-- `operator[]` asks for the characteristics, and then finds the new one.
gets_new : (get name number false listed registry (codes "2a38")).0 ≡ ok 41
unfolding get characteristics contains at fetch_each fetch find emplace text_eq compare_text
gets_new = refl

gets_none : (get name number false listed registry (codes "2a39")).0 ≡ err out_of_range
unfolding get characteristics contains at fetch_each fetch find emplace text_eq compare_text
gets_none = refl

abbrev battery : ℕ → OwnedService
battery p = record { peripheral = p; service = record { uuid = codes "180f" } }

abbrev hasher : Text → ℕ
hasher [] = 5
hasher (c ∷ t) = c

abbrev logs : ℕ → List Text
logs i = []

abbrev none_yet : RegistryFactory CharacteristicRegistry
none_yet = new_factory

none_found : find_hash (service_hash hasher 1 2 (battery 0)) none_yet.registries ≡ none
unfolding find_hash
none_found = refl

same_uuid_lem_example :
    let f' = (characteristic_registry hasher 1 2 3 none_yet (battery 0)).1 in
    let r = (characteristic_registry hasher 1 2 3 f' (battery 1)).0 in
    (r.owner ≡ battery 0)
    × (p : Proxy) × ((fetch_characteristic r (codes "2a19")).0 ≡ ok p)
    × (read_proxy device p logs
        ≡ (ok (record { bytes = 0 ∷ [] }), λ i. if i == 0 then codes "2a19" ∷ [] else logs i))
    × ((read_proxy device p logs).1 1 ≡ logs 1)
same_uuid_lem_example =
    same_uuid_lem hasher 1 2 3 device logs none_yet (battery 0) (battery 1) (codes "2a19") refl
      (λ e. cc) none_found
