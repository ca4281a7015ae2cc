-- ===== src/Bindings/Routing/Runs.antt =====
-- The heart rate of a device, with a descriptor, looked up for the first time.
use ru_ble.Base.{ℕ, List, length, [], ◌∷◌}
use ru_ble.Base.Texts.{Text, codes}
use ru_ble.Containers.ByteArray.{ByteArray}
use ru_ble.Containers.NamedBitSet.{NamedBitSet}
use ru_ble.Management.Registry.{Registry, new_registry}
use ru_ble.Bindings.Peripheral
use ru_ble.Bindings.Service.{Service}
use ru_ble.Bindings.Service
use ru_ble.Bindings.Characteristic.{Characteristic, Descriptor}
use ru_ble.Bindings.Characteristic
use ru_ble.Bindings.Routing.{owned_proxy, OwnedCharacteristic}
use ru_ble.Management.RegistryFactory.{RegistryFactory, new_factory}
use ru_ble.Bindings.Service.Owners.{OwnedService, CharacteristicRegistry}

abbrev capabilities : Text → NamedBitSet
capabilities uuid = record { bits = [] }

abbrev heart : Service
heart = record { uuid = codes "180d" }

-- The device is peripheral 3.
abbrev heart_at : OwnedService
heart_at = record { peripheral = 3; service = heart }

abbrev rate : OwnedCharacteristic
rate = owned_proxy capabilities heart_at 0 (codes "2a37")

abbrev config : Descriptor
config = record { uuid = codes "2902" }

abbrev value : ByteArray
value = record { bytes = 1 ∷ [] }

abbrev services : Registry Service
services = new_registry 3 0

abbrev characteristics : Registry OwnedCharacteristic
characteristics = new_registry 4 0

-- The factory of the registries of characteristics holds none yet.
abbrev hasher : Text → ℕ
hasher uuid = length uuid

abbrev factory : RegistryFactory CharacteristicRegistry
factory = new_factory

abbrev devices : ℕ → List Text
devices i = []
