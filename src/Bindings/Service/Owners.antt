-- ===== src/Bindings/Service/Owners.antt =====
-- The registries of characteristics of all services: Service.cpp with `characteristicRegistryFactory`. A service object is
-- named here by its peripheral, a number, with its UUID; `states` gives the state of each peripheral.
use ru_ble.Base.{ℕ, ◌≡◌, ◌≢◌, refl, ap, false, none, ◌==◌, if◌then◌else◌, arith, Result, ok}
use ru_ble.Base.Texts.{Text}
use ru_ble.Base.Maps.{find}
use ru_ble.Containers.ByteArray.{ByteArray}
use ru_ble.Utils.Hash.{hash_wrapped}
use ru_ble.Management.Registry.{Registry, new_registry, fetch}
use ru_ble.Management.Registry.Fetch.{fetch_new}
use ru_ble.Management.RegistryFactory.{RegistryFactory, registry, find_hash}
use ru_ble.Bindings.Peripheral.{Backend}
use ru_ble.Bindings.Peripheral
use ru_ble.Bindings.Service.{Service, read}

pub record OwnedService : Type 0 where
  pub peripheral : ℕ
  pub service : Service

-- A proxy of a characteristic: its owner and its UUID.
pub record Proxy : Type 0 where
  pub owner : OwnedService
  pub uuid : Text

pub record CharacteristicRegistry : Type 0 where
  pub owner : OwnedService
  pub proxies : Registry Proxy

abbrev pub registry_for : ℕ → OwnedService → CharacteristicRegistry
registry_for self s = record { owner = s; proxies = new_registry self 0 }

module _ (hasher : Text → ℕ) (type_code simple_code : ℕ) where
  -- `std::hash<RuBLE::Service>`: the UUID is all of the service that it sees.
  unfoldable pub service_hash : OwnedService → ℕ
  service_hash s = hash_wrapped hasher type_code simple_code s.service.uuid

  -- What the constructor of a service keeps as `_characteristic_registry`.
  unfoldable pub characteristic_registry :
      ℕ
      → RegistryFactory CharacteristicRegistry
      → OwnedService
      → CharacteristicRegistry × RegistryFactory CharacteristicRegistry
  unfolding service_hash
  characteristic_registry self f s = registry service_hash (registry_for self) f s

-- What SimpleBLE knows of a service.
record SimpleService : Type 0 where
  uuid : Text
  service_data : ByteArray

record NewService : Type 0 where
  owned : OwnedService
  underlying : SimpleService
  characteristic_registry : CharacteristicRegistry

module _ (hasher : Text → ℕ) (type_code simple_code : ℕ) where
  -- The constructor.
  new_service :
      ℕ
      → RegistryFactory CharacteristicRegistry
      → ℕ
      → SimpleService
      → NewService × RegistryFactory CharacteristicRegistry
  unfolding characteristic_registry
  new_service self f owner simple =
      let owned : OwnedService = record {
        peripheral = owner;
        service = record { uuid = simple.uuid };
      } in
      let (r, f') = characteristic_registry hasher type_code simple_code self f owned in
      (record { owned = owned; underlying = simple; characteristic_registry = r }, f')

-- `Service::data`
service_data : NewService → ByteArray
service_data s = s.underlying.service_data

-- `fetch` makes a proxy with the owner of the registry.
abbrev pub proxy_of : OwnedService → ℕ → Text → Proxy
proxy_of owner n uuid = record { owner = owner; uuid = uuid }

unfoldable pub fetch_characteristic : CharacteristicRegistry → Text → Result Proxy × Registry Proxy
fetch_characteristic r uuid = fetch (λ (u : Text). u) (proxy_of r.owner) false r.proxies uuid

-- `read(true)` of a characteristic, which goes through its owner to the peripheral.
unfoldable pub read_proxy : {S : Type 0} → Backend S → Proxy → (ℕ → S) → Result ByteArray × (ℕ → S)
unfolding read
read_proxy b p states =
    let (r, s') = read b p.owner.service p.uuid (states p.owner.peripheral) in
    (r, λ i. if i == p.owner.peripheral then s' else states i)

fetch_lem :
    (owner : OwnedService) (self : ℕ) (uuid : Text)
    → (fetch_characteristic (record { owner = owner; proxies = new_registry self 0 }) uuid).0
      ≡ ok (proxy_of owner 0 uuid)
unfolding fetch_characteristic find
fetch_lem owner self uuid =
    ap (λ answer. answer.0)
      (fetch_new (λ (u : Text). u) (proxy_of owner) (new_registry self 0) uuid refl)

module _ (hasher : Text → ℕ) (type_code simple_code self : ℕ) where
  second_lem :
      (f : RegistryFactory CharacteristicRegistry) (s t : OwnedService)
      → t.service.uuid ≡ s.service.uuid
      → find_hash (service_hash hasher type_code simple_code s) f.registries ≡ none
      → let f' = (characteristic_registry hasher type_code simple_code self f s).1 in
        characteristic_registry hasher type_code simple_code self f' t ≡ (registry_for self s, f')
  unfolding characteristic_registry service_hash registry find_hash
  second_lem f s t e h = ground (arith, e, h)

  -- Two services with one UUID, of two peripherals, get one registry of characteristics, if the first one is the first with
  -- this hash. Its owner is the first service: a characteristic that the second one fetches is a proxy for the first,
  -- and reading it asks the first peripheral and leaves the second as it is.
  pub same_uuid_lem :
      {S : Type 0} (b : Backend S) (states : ℕ → S) (f : RegistryFactory CharacteristicRegistry)
      (s t : OwnedService) (uuid : Text)
      → t.service.uuid ≡ s.service.uuid
      → t.peripheral ≢ s.peripheral
      → find_hash (service_hash hasher type_code simple_code s) f.registries ≡ none
      → let f' = (characteristic_registry hasher type_code simple_code self f s).1 in
        let r = (characteristic_registry hasher type_code simple_code self f' t).0 in
        (r.owner ≡ s)
        × (p : Proxy) × ((fetch_characteristic r uuid).0 ≡ ok p)
        × (read_proxy b p states ≡ (
          (b.read s.service.uuid uuid (states s.peripheral)).0,
          λ i.
              if i == s.peripheral
              then (b.read s.service.uuid uuid (states s.peripheral)).1
              else states i,
        ))
        × ((read_proxy b p states).1 t.peripheral ≡ states t.peripheral)
  unfolding read_proxy read Peripheral.read
  same_uuid_lem b states f s t uuid e n h =
      rw (second_lem f s t e h)
        (refl, proxy_of s 0 uuid, fetch_lem s self uuid, refl, ground (arith, n))
