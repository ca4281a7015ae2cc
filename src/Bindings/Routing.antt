-- ===== src/Bindings/Routing.antt =====
-- From a peripheral to a descriptor: `operator[]` of Peripheral.cpp, Service.cpp and Characteristic.cpp in ext/ruble/bindings, and
-- the calls on what they return.
mod Runs
use ru_ble.Base.{
  ℕ, ◌≡◌, Bool, Option, none, some, List, map, Result, err, out_of_range, if◌then◌else◌, not,
  Bool-cases, ◌==◌,
}
use ru_ble.Base.Texts.{Text, text_eq, text_eq_iff}
use ru_ble.Base.Maps.{find}
use ru_ble.Containers.ByteArray.{ByteArray}
use ru_ble.Containers.NamedBitSet.{NamedBitSet}
use ru_ble.Concerns.ValueTracker.{new_tracker}
use ru_ble.Management.Registry.{Registry, fetch_each, contains}
use ru_ble.Management.Registry.Keyed.{Keyed}
use ru_ble.Management.RegistryFactory.{RegistryFactory, find_hash}
use ru_ble.Bindings.Service.Owners.{
  OwnedService, CharacteristicRegistry, characteristic_registry, service_hash,
}
use ru_ble.Bindings.Peripheral.{Step}
use ru_ble.Bindings.Peripheral
use ru_ble.Bindings.Service.{Service}
use ru_ble.Bindings.Service
use ru_ble.Bindings.Characteristic.{Characteristic, Descriptor}
use ru_ble.Bindings.Characteristic

-- The proxies that the registries make: of a service, and of a characteristic with the capabilities that SimpleBLE answers.
abbrev pub service_proxy : ℕ → Text → Service
service_proxy n uuid = record { uuid = uuid }

abbrev pub characteristic_proxy : (Text → NamedBitSet) → Service → ℕ → Text → Characteristic
characteristic_proxy capabilities owner n uuid = record {
  uuid = uuid;
  self = n;
  owner = owner;
  capabilities = capabilities uuid;
  tracker = new_tracker none;
  on_notify = none;
  on_indicate = none;
  descriptors = none;
}

-- A proxy with its owner, a service of a peripheral: `_owner` of the proxy points to the service, and that of the service to
-- the peripheral.
pub record OwnedCharacteristic : Type 0 where
  pub owner : OwnedService
  pub characteristic : Characteristic

abbrev pub owned_proxy : (Text → NamedBitSet) → OwnedService → ℕ → Text → OwnedCharacteristic
owned_proxy capabilities owner n uuid = record {
  owner = owner;
  characteristic = characteristic_proxy capabilities owner.service n uuid;
}

abbrev pub itself : Text → Text
itself uuid = uuid

-- The services of a peripheral, and the characteristics of a service, under their UUIDs.
abbrev pub ServicesKeyed : Registry Service → Type 0
ServicesKeyed = Keyed (λ s. s.uuid) itself

-- What the registry of an owner keeps: the UUID of the key, and that owner.
abbrev pub identity : OwnedCharacteristic → Text × Service × OwnedService
identity c = (c.characteristic.uuid, c.characteristic.owner, c.owner)

abbrev pub identity_at : OwnedService → Text → Text × Service × OwnedService
identity_at o uuid = (uuid, o.service, o)

abbrev pub CharacteristicsKeyed : OwnedService → Registry OwnedCharacteristic → Type 0
CharacteristicsKeyed o = Keyed identity (identity_at o)

abbrev pub DescriptorsKeyed : List (Text × Descriptor) → Type 0
DescriptorsKeyed m = (j : Text) (d : Descriptor) → find j m ≡ some d → d.uuid ≡ j

-- A call on the peripheral `i`, where `states` gives the state of each.
abbrev pub at_peripheral : {S A : Type 0} → ℕ → Step S A → (ℕ → S) → Result A × (ℕ → S)
at_peripheral i call states =
    let (answer, s') = call (states i) in (answer, λ j. if j == i then s' else states j)

abbrev pub owned : ℕ → Service → OwnedService
owned p s = record { peripheral = p; service = s }

-- For a service of the peripheral `p`, the owner of the registry of characteristics that its constructor got: the first
-- service with its hash, of whichever peripheral. `f` is what the factory held before.
module _ (hasher : Text → ℕ) (type_code simple_code self : ℕ)
    (f : RegistryFactory CharacteristicRegistry) (p : ℕ) where
  abbrev pub registry_owner : Service → OwnedService
  registry_owner s =
      (characteristic_registry hasher type_code simple_code self f (owned p s)).0.owner

  abbrev pub FirstOfHash : Service → Type 0
  FirstOfHash s =
      find_hash (service_hash hasher type_code simple_code (owned p s)) f.registries ≡ none
