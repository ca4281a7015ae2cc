-- ===== src/Bindings/Marking.antt =====
-- The functions `ruby_mark` of ext/ruble, which ext/ruble/utils/garbage_collection.cpp hands the garbage collector of
-- Ruby: the Ruby objects that each marks, in order. `rb_gc_mark` adds one object. Marking runs during a garbage
-- collection, so `Service::characteristics` adds no proxies.
pub mod Exact
mod Runs
use ru_ble.Base.{ℕ, Bool, true, false, Option, none, some, List, [], ◌∷◌, ◌++◌, if◌then◌else◌}
use ru_ble.Base.Texts.{Text}
use ru_ble.Utils.CallbackTraits.{Value, nil_value, proc_value, object_value}
use ru_ble.Containers.Callback.{Callback}
use ru_ble.Containers.ByteArray.{ByteArray}
use ru_ble.Management.Registry.{Registry}
use ru_ble.Management.RegistryFactory.{RegistryFactory}
use ru_ble.Bindings.Characteristic.{Characteristic, Descriptor}
use ru_ble.Bindings.Peripheral.{Peripheral}
use ru_ble.Bindings.Adapter.{Adapter}

-- What Rice marks for an object that it has no function of RuBLE's for: the map of a registry, which is named by the
-- Ruby object of the registry here, the map of a factory, and a descriptor; and the Ruby object of a byte array, if it has
-- one (`Rubyable`).
pub record Rice : Type 0 where
  pub map_marks : ℕ → List ℕ
  pub factory_marks : List ℕ
  pub descriptor_marks : Descriptor → List ℕ
  pub byte_array_object : ByteArray → Option ℕ

-- A service with its registry of characteristics.
pub record ServiceObject : Type 0 where
  pub self : ℕ
  pub characteristic_registry : Registry Characteristic

abbrev pub object_of : Value → Option ℕ
object_of nil_value = none
object_of (proc_value is_lambda params id) = some id
object_of (object_value id) = some id

abbrev pub marks_option {ℓ} : {A : Type ℓ} → (A → List ℕ) → Option A → List ℕ
marks_option f none = []
marks_option f (some a) = f a

-- `rb_gc_mark`
abbrev pub gc_mark : ℕ → List ℕ
gc_mark v = v ∷ []

-- `for_each` over the values of a map.
unfoldable pub marks_each : {P : Type 0} → (P → List ℕ) → List (Text × P) → List ℕ
marks_each f [] = []
marks_each f ((key, value) ∷ rest) = f value ++ marks_each f rest

-- `Callback::ruby_mark`
unfoldable pub mark_callback : Callback → List ℕ
mark_callback c = marks_option gc_mark (object_of c.cb)

module _ (rice : Rice) where
  -- `ByteArray::ruby_mark`, which is `Rubyable::ruby_mark`.
  unfoldable pub mark_byte_array : ByteArray → List ℕ
  mark_byte_array b = marks_option gc_mark (rice.byte_array_object b)

  unfoldable pub mark_descriptors : List (Text × Descriptor) → List ℕ
  unfolding marks_each
  mark_descriptors ds = marks_each rice.descriptor_marks ds

  unfoldable pub mark_characteristic : Characteristic → List ℕ
  unfolding mark_byte_array mark_callback mark_descriptors
  mark_characteristic c =
      gc_mark c.self
      ++ (marks_option mark_byte_array c.tracker.value
          ++ (marks_option mark_callback c.on_indicate
              ++ (marks_option mark_callback c.on_notify
                  ++ marks_option mark_descriptors c.descriptors)))

  -- `Registry::ruby_mark`
  unfoldable pub mark_registry : {P : Type 0} → (P → List ℕ) → Registry P → List ℕ
  unfolding marks_each
  mark_registry mark r = gc_mark r.self ++ (rice.map_marks r.self ++ marks_each mark r.entries)

  unfoldable pub mark_service : ServiceObject → List ℕ
  unfolding mark_characteristic marks_each
  mark_service s =
      gc_mark s.self ++ marks_each mark_characteristic s.characteristic_registry.entries

  unfoldable pub mark_peripheral : Peripheral ServiceObject → List ℕ
  unfolding mark_service mark_registry mark_callback
  mark_peripheral p =
      gc_mark p.self
      ++ (mark_callback p.on_connected
          ++ (mark_callback p.on_disconnected
              ++ marks_option (mark_registry mark_service) p.service_registry))

  unfoldable pub mark_adapter : Adapter (Peripheral ServiceObject) → List ℕ
  unfolding mark_peripheral mark_registry mark_callback
  mark_adapter a =
      mark_registry mark_peripheral a.peripheral_registry
      ++ (mark_callback a.on_scan_start_cb
          ++ (mark_callback a.on_scan_stop_cb
              ++ (mark_callback a.on_scan_update_cb ++ mark_callback a.on_scan_find_cb)))

  -- `ruby_mark` of the registry of adapters.
  unfoldable pub mark_adapter_registry : Registry (Adapter (Peripheral ServiceObject)) → List ℕ
  unfolding mark_adapter mark_registry
  mark_adapter_registry r = mark_registry mark_adapter r

  marks_registries : {P : Type 0} → (P → List ℕ) → List (ℕ × Registry P) → List ℕ
  unfolding mark_registry
  marks_registries mark [] = []
  marks_registries mark ((hash, r) ∷ rest) =
      (mark_registry mark r ++ gc_mark r.self) ++ marks_registries mark rest

  -- `RegistryFactory::ruby_mark`
  pub mark_factory : {P : Type 0} → (P → List ℕ) → RegistryFactory (Registry P) → List ℕ
  unfolding marks_registries
  mark_factory mark f = rice.factory_marks ++ marks_registries mark f.registries

-- The objects that Rice calls `ruby_mark` for.
pub data Markable : Type 0 where
  byte_array : ByteArray → Markable
  callback : Callback → Markable
  characteristic : Characteristic → Markable
  service : ServiceObject → Markable
  peripheral : Peripheral ServiceObject → Markable
  adapter : Adapter (Peripheral ServiceObject) → Markable
  characteristic_registry : Registry Characteristic → Markable
  service_registry : Registry ServiceObject → Markable
  peripheral_registry : Registry (Peripheral ServiceObject) → Markable
  adapter_registry : Registry (Adapter (Peripheral ServiceObject)) → Markable
  characteristic_factory : RegistryFactory (Registry Characteristic) → Markable
  service_factory : RegistryFactory (Registry ServiceObject) → Markable
  peripheral_factory : RegistryFactory (Registry (Peripheral ServiceObject)) → Markable
  adapter_factory : RegistryFactory (Registry (Adapter (Peripheral ServiceObject))) → Markable

-- `Rice::ruby_mark`, of each class.
unfoldable pub rice_mark : Rice → Markable → List ℕ
unfolding mark_byte_array mark_callback mark_characteristic mark_service mark_peripheral
    mark_adapter mark_registry mark_adapter_registry mark_factory
rice_mark rice (byte_array b) = mark_byte_array rice b
rice_mark rice (callback c) = mark_callback c
rice_mark rice (characteristic c) = mark_characteristic rice c
rice_mark rice (service s) = mark_service rice s
rice_mark rice (peripheral p) = mark_peripheral rice p
rice_mark rice (adapter a) = mark_adapter rice a
rice_mark rice (characteristic_registry r) = mark_registry rice (mark_characteristic rice) r
rice_mark rice (service_registry r) = mark_registry rice (mark_service rice) r
rice_mark rice (peripheral_registry r) = mark_registry rice (mark_peripheral rice) r
rice_mark rice (adapter_registry r) = mark_adapter_registry rice r
rice_mark rice (characteristic_factory f) = mark_factory rice (mark_characteristic rice) f
rice_mark rice (service_factory f) = mark_factory rice (mark_service rice) f
rice_mark rice (peripheral_factory f) = mark_factory rice (mark_peripheral rice) f
rice_mark rice (adapter_factory f) = mark_factory rice (mark_adapter rice) f
