-- ===== src/Bindings/Marking/Runs.antt =====
-- An adapter with one peripheral, which has one service with one characteristic.
use ru_ble.Base.{ℕ, ◌≡◌, ◌↔◌, refl, false, none, some, [], ◌∷◌}
use ru_ble.Base.Texts.{codes}
use ru_ble.Utils.CallbackTraits.{proc_value, req}
use ru_ble.Containers.Callback.{Callback, new_callback}
use ru_ble.Concerns.ValueTracker.{new_tracker}
use ru_ble.Management.Registry.{Registry}
use ru_ble.Bindings.Characteristic.{Characteristic}
use ru_ble.Bindings.Peripheral.{Peripheral}
use ru_ble.Bindings.Adapter.{Adapter}
use ru_ble.Bindings.Marking.{
  Rice, ServiceObject, mark_adapter_registry, mark_adapter, mark_peripheral, mark_service,
  mark_characteristic, mark_registry, mark_callback, mark_byte_array, mark_descriptors, marks_each,
  rice_mark, adapter_registry,
}
use ru_ble.Bindings.Marking.Exact.{Marked, OfRegistry, OfAdapter, mark_iff}

abbrev rice : Rice
rice = record {
  map_marks = λ self. [];
  factory_marks = [];
  descriptor_marks = λ d. [];
  byte_array_object = λ b. none;
}

abbrev proc : ℕ → ℕ → Callback
proc n id = record { arg_count = n; cb = proc_value false (req ∷ []) id }

abbrev heart_rate : Characteristic
heart_rate = record {
  uuid = codes "2a37";
  self = 40;
  owner = record { uuid = codes "180d" };
  capabilities = record { bits = [] };
  tracker = new_tracker none;
  on_notify = some (proc 2 50);
  on_indicate = none;
  descriptors = some ((codes "2902", record { uuid = codes "2902" }) ∷ []);
}

abbrev service : ServiceObject
service = record {
  self = 30;
  characteristic_registry = record {
    self = 31;
    entries = (codes "2a37", heart_rate) ∷ [];
    next = 0;
  };
}

abbrev peripheral : Peripheral ServiceObject
peripheral = record {
  self = 20;
  addr = codes "22:33";
  addr_type = 0;
  on_connected = proc 1 51;
  on_disconnected = new_callback 1;
  service_registry = some (record { self = 21; entries = (codes "180d", service) ∷ []; next = 0 });
}

abbrev adapter : Adapter (Peripheral ServiceObject)
adapter = record {
  self = 10;
  addr = codes "00:11";
  on_scan_start_cb = new_callback 1;
  on_scan_stop_cb = new_callback 1;
  on_scan_update_cb = new_callback 2;
  on_scan_find_cb = proc 2 52;
  peripheral_registry = record { self = 11; entries = (codes "22:33", peripheral) ∷ []; next = 0 };
}

abbrev adapters : Registry (Adapter (Peripheral ServiceObject))
adapters = record { self = 1; entries = (codes "00:11", adapter) ∷ []; next = 0 }

-- 10, the object of the adapter, and 31, that of the registry of characteristics, are missing.
adapters_marks :
    rice_mark rice (adapter_registry adapters) ≡ 1 ∷ 11 ∷ 20 ∷ 51 ∷ 21 ∷ 30 ∷ 40 ∷ 50 ∷ 52 ∷ []
unfolding rice_mark mark_adapter_registry mark_adapter mark_peripheral mark_service
    mark_characteristic mark_registry mark_callback mark_byte_array mark_descriptors marks_each
adapters_marks = refl

mark_iff_example :
    Marked 50 (rice_mark rice (adapter_registry adapters))
    ↔ OfRegistry rice 50 (OfAdapter rice 50) adapters
mark_iff_example = mark_iff rice 50 adapters
