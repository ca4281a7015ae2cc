-- ===== src/Bindings/Methods/Tables.antt =====
-- The statements of the functions Init_*, in their order. A name may be given anew.
use ru_ble.Base.{ℕ, List, [], ◌∷◌, ◌++◌}
use ru_ble.Base.Texts.{codes}
use ru_ble.Bindings.Methods.{
  Class, adapter, peripheral, service, characteristic, descriptor, byte_array, adapter_registry,
  peripheral_registry, service_registry, characteristic_registry, value_tracker, Target, function,
  static_function, attribute, static_attribute, static_setter, instance_method, singleton_method,
  Statement, define_class, define,
}
use Prim.Native.String.{String}

-- `define_method`: the class, the name in Ruby, and the member function of a class with its numbers of arguments.
abbrev pub method : Class → String → Class → String → ℕ → ℕ → Statement
method c name owner member required optional =
    define record { class = c; place = instance_method; name = codes name }
      (function owner (codes member) required optional)

-- `define_attr` with `Read`
abbrev pub reader : Class → String → String → Statement
reader c name member =
    define record { class = c; place = instance_method; name = codes name }
      (attribute c (codes member))

-- `define_singleton_function` and `define_singleton_attr`
abbrev pub singleton : Class → String → Target → Statement
singleton c name target =
    define record { class = c; place = singleton_method; name = codes name } target

unfoldable pub init_byte_array : List Statement
init_byte_array =
    define_class byte_array
    ∷ singleton byte_array "new" (static_function byte_array (codes "from_ruby") 1)
    ∷ method byte_array "get" byte_array "to_string" 0 0
    ∷ method byte_array "to_s" byte_array "to_s" 0 0
    ∷ method byte_array "inspect" byte_array "inspect" 0 0
    ∷ method byte_array "data" byte_array "data" 0 0
    ∷ method byte_array "to_i" byte_array "to_i" 0 0
    ∷ method byte_array "%" byte_array "operator%" 1 0
    ∷ method byte_array "&" byte_array "operator&" 1 0
    ∷ method byte_array "|" byte_array "operator|" 1 0
    ∷ method byte_array "~" byte_array "operator~" 0 0
    ∷ method byte_array "!" byte_array "operator!" 0 0
    ∷ method byte_array "<=>" byte_array "operator<=>" 1 0
    ∷ []

unfoldable pub init_descriptor : List Statement
init_descriptor =
    define_class descriptor
    ∷ method descriptor "uuid" descriptor "uuid" 0 0
    ∷ method descriptor "inspect" descriptor "inspect" 0 0
    ∷ method descriptor "read" descriptor "read" 0 0
    ∷ method descriptor "write" descriptor "write" 1 0
    ∷ []

unfoldable pub init_characteristic : List Statement
init_characteristic =
    define_class characteristic
    ∷ method characteristic "uuid" characteristic "uuid" 0 0
    ∷ method characteristic "capabilities" characteristic "capability_names" 0 0
    ∷ method characteristic "can_read?" characteristic "can_read" 0 0
    ∷ method characteristic "can_write_request?" characteristic "can_write_request" 0 0
    ∷ method characteristic "can_write_command?" characteristic "can_write_command" 0 0
    ∷ method characteristic "can_notify?" characteristic "can_notify" 0 0
    ∷ method characteristic "can_indicate?" characteristic "can_indicate" 0 0
    ∷ method characteristic "read" characteristic "read" 0 1
    ∷ method characteristic "write" characteristic "write" 2 0
    ∷ method characteristic "write_request" characteristic "write_request" 1 0
    ∷ method characteristic "write_command" characteristic "write_command" 1 0
    ∷ method characteristic "set_on_notify" characteristic "set_on_notify" 1 0
    ∷ method characteristic "set_on_indicate" characteristic "set_on_indicate" 1 0
    ∷ method characteristic "to_s" characteristic "to_s" 0 0
    ∷ method characteristic "inspect" characteristic "inspect" 0 0
    ∷ method characteristic "value_tracking" value_tracker "value_tracking" 0 0
    ∷ method characteristic "value_tracking?" value_tracker "value_tracking" 0 0
    ∷ method characteristic "value_tracking=" value_tracker "set_value_tracking" 1 0
    ∷ method characteristic "last_value" value_tracker "last_value" 0 0
    ∷ []

unfoldable pub init_service : List Statement
init_service =
    define_class service
    ∷ method service "uuid" service "uuid" 0 0
    ∷ method service "data" service "data" 0 0
    ∷ method service "characteristics" service "characteristics" 0 0
    ∷ method service "inspect" service "to_s" 0 0
    ∷ []

unfoldable pub init_peripheral : List Statement
init_peripheral =
    define_class peripheral
    ∷ method peripheral "inspect" peripheral "to_s" 0 0
    ∷ method peripheral "initialized?" peripheral "initialized" 0 0
    ∷ method peripheral "identifier" peripheral "identifier" 0 0
    ∷ method peripheral "address" peripheral "address" 0 0
    ∷ method peripheral "address_type" peripheral "address_type" 0 0
    ∷ method peripheral "rssi" peripheral "rssi" 0 0
    ∷ method peripheral "tx_power" peripheral "tx_power" 0 0
    ∷ method peripheral "mtu" peripheral "mtu" 0 0
    ∷ method peripheral "connect" peripheral "connect" 0 0
    ∷ method peripheral "disconnect" peripheral "disconnect" 0 0
    ∷ method peripheral "connected?" peripheral "is_connected" 0 0
    ∷ method peripheral "connectable?" peripheral "is_connectable" 0 0
    ∷ method peripheral "paired?" peripheral "is_paired" 0 0
    ∷ method peripheral "unpair" peripheral "unpair" 0 0
    ∷ method peripheral "manufacturer_data" peripheral "manufacturer_data" 0 0
    ∷ method peripheral "on_connect" peripheral "on_connect" 1 0
    ∷ method peripheral "on_disconnect" peripheral "on_disconnect" 1 0
    ∷ singleton peripheral "unpair_all_on_exit"
        (static_attribute peripheral (codes "unpair_all_on_exit"))
    ∷ singleton peripheral "unpair_all_on_exit="
        (static_setter peripheral (codes "unpair_all_on_exit"))
    ∷ []

unfoldable pub init_adapter : List Statement
init_adapter =
    define_class adapter
    ∷ singleton adapter "bluetooth_enabled?" (static_function adapter (codes "bluetooth_enabled") 0)
    ∷ singleton adapter "get_adapters" (static_function adapter (codes "get_ruby_adapters") 0)
    ∷ method adapter "initialized?" adapter "initialized" 0 0
    ∷ method adapter "identifier" adapter "identifier" 0 0
    ∷ method adapter "address" adapter "address" 0 0
    ∷ method adapter "scan_start" adapter "scan_start" 0 0
    ∷ method adapter "scan_stop" adapter "scan_stop" 0 0
    ∷ method adapter "scan_for" adapter "scan_for" 1 0
    ∷ method adapter "scanning?" adapter "scan_is_active" 0 0
    ∷ method adapter "scan_get_results" adapter "scan_get_ruby_results" 0 0
    ∷ method adapter "get_paired_peripherals" adapter "get_ruby_paired_peripherals" 0 0
    ∷ method adapter "on_scan_start" adapter "on_scan_start" 0 1
    ∷ method adapter "on_scan_stop" adapter "on_scan_stop" 0 1
    ∷ method adapter "on_scan_update" adapter "on_scan_update" 0 1
    ∷ method adapter "on_scan_find" adapter "on_scan_find" 0 1
    ∷ []

unfoldable pub init_registries : List Statement
init_registries =
    define_class adapter_registry
    ∷ method adapter_registry "size" adapter_registry "size" 0 0
    ∷ method adapter_registry "to_s" adapter_registry "to_s" 0 0
    ∷ singleton adapter_registry "registry"
        (static_attribute adapter_registry (codes "adapterRegistry"))
    ∷ define_class peripheral_registry
    ∷ method peripheral_registry "to_s" peripheral_registry "to_s" 0 0
    ∷ method peripheral_registry "size" peripheral_registry "size" 0 0
    ∷ reader adapter "peripheral_registry" "_peripheral_registry"
    ∷ define_class service_registry
    ∷ method service_registry "to_s" service_registry "to_s" 0 0
    ∷ method service_registry "size" service_registry "size" 0 0
    ∷ method peripheral "services" peripheral "services" 0 0
    ∷ method peripheral "[]" peripheral "operator[]" 1 0
    ∷ reader peripheral "service_registry" "_service_registry"
    ∷ define_class characteristic_registry
    ∷ method characteristic_registry "to_s" service_registry "to_s" 0 0
    ∷ method characteristic_registry "size" service_registry "size" 0 0
    ∷ method service "characteristics" service "characteristics" 0 0
    ∷ method service "[]" service "operator[]" 1 0
    ∷ reader service "characteristic_registry" "_characteristic_registry"
    ∷ method characteristic "descriptors" characteristic "descriptors" 0 0
    ∷ method characteristic "[]" characteristic "operator[]" 1 0
    ∷ reader characteristic "descriptors" "_descriptors"
    ∷ []

-- In the order of `Init_RuBLE`.
unfoldable pub statements : List Statement
unfolding init_byte_array init_descriptor init_characteristic init_service init_peripheral
    init_adapter init_registries
statements =
    init_byte_array
    ++ (init_descriptor
        ++ (init_characteristic
            ++ (init_service ++ (init_peripheral ++ (init_adapter ++ init_registries)))))
