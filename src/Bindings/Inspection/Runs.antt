-- ===== src/Bindings/Inspection/Runs.antt =====
-- Texts of concrete objects.
use ru_ble.Base.{ℕ, ◌≡◌, refl, none, [], ◌∷◌, ok, ◌==◌, if◌then◌else◌}
use ru_ble.Base.Texts.{codes}
use ru_ble.Containers.NamedBitSet.{join}
use ru_ble.Containers.Callback.{new_callback}
use ru_ble.Utils.Hexadecimal.{to_hex_addr}
use ru_ble.Utils.Inspection.{
  EnumToString, basic_object_inspect_start, enum_val_as_string, decimal, signed_decimal,
}
use ru_ble.Bindings.Device.{device}
use ru_ble.Bindings.Peripheral
use ru_ble.Bindings.Peripheral.Getters
use ru_ble.Bindings.Peripheral.Statuses.{statuses_lem}
use ru_ble.Bindings.Peripheral.{Peripheral}
use ru_ble.Bindings.Inspection.{peripheral_to_s}

abbrev named : EnumToString
named [] val other = other
named ((name, value) ∷ items) val other = if value == val then name else named items val other

abbrev peripheral : Peripheral ℕ
peripheral = record {
  self = 20;
  addr = codes "22:33";
  addr_type = 1;
  on_connected = new_callback 1;
  on_disconnected = new_callback 1;
  service_registry = none;
}

peripheral_text :
    peripheral_to_s named device (codes "Peripheral") 0x1000 2 peripheral []
    ≡ ok (
        codes
          "#<Peripheral:0x0000000000001000 @address[RANDOM]=\"22:33\" @identifier=\"d\" @rssi=-60 @tx_power=0 @mtu=517 svc_count=2 initialized|connectable|paired>")
unfolding peripheral_to_s basic_object_inspect_start to_hex_addr Peripheral.initialized
    enum_val_as_string decimal signed_decimal Getters.address Getters.address_type
    Getters.identifier Getters.rssi Getters.tx_power Getters.mtu join
peripheral_text = rw (statuses_lem device ([])) refl
