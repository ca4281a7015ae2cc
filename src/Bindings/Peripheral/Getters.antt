-- ===== src/Bindings/Peripheral/Getters.antt =====
-- What a peripheral hands on from SimpleBLE. The functions of SimpleBLE are taken to return.
use ru_ble.Base.{ℕ, ℤ, List}
use ru_ble.Base.Texts.{Text}
use ru_ble.Containers.ByteArray.{ByteArray}
use ru_ble.Bindings.Peripheral.{Backend, Peripheral}

unfoldable pub address : {P : Type 0} → Peripheral P → Text
address p = p.addr

unfoldable pub address_type : {P : Type 0} → Peripheral P → ℕ
address_type p = p.addr_type

module _ {S : Type 0} (b : Backend S) where
  unfoldable pub identifier : S → Text
  identifier = b.identifier

  unfoldable pub rssi : S → ℤ
  rssi = b.rssi

  unfoldable pub tx_power : S → ℤ
  tx_power = b.tx_power

  unfoldable pub mtu : S → ℕ
  mtu = b.mtu

  -- The source makes another map of the same entries.
  unfoldable pub manufacturer_data : S → List (ℕ × ByteArray)
  manufacturer_data = b.manufacturer_data
