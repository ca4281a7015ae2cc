-- ===== src/Bindings/Device.antt =====
-- A device for the tests: it writes down the UUID of every call, and reads as how many there were.
use ru_ble.Base.{true, false, List, [], ◌∷◌, ◌++◌, length, ok, pos, negsuc}
use ru_ble.Base.Texts.{Text}
use ru_ble.Bindings.Peripheral.{Backend, Step}

abbrev pub noted : Text → Step (List Text) (Unit {0})
noted uuid log = (ok tt, log ++ (uuid ∷ []))

abbrev pub device : Backend (List Text)
device = record {
  initialized = λ log. true;
  is_paired = λ log. true;
  is_connected = λ log. false;
  is_connectable = λ log. true;
  identifier = λ log. b'd' ∷ [];
  rssi = λ log. negsuc 59;
  tx_power = λ s. pos 0;
  mtu = λ log. 517;
  manufacturer_data = λ s. [];
  connect = noted [];
  disconnect = noted [];
  unpair = noted [];
  read = λ service uuid log. (ok (record { bytes = length log ∷ [] }), log ++ (uuid ∷ []));
  read_descriptor =
      λ service uuid descriptor log. (ok (record { bytes = [] }), log ++ (descriptor ∷ []));
  write = λ service uuid descriptor value. noted descriptor;
  write_request = λ service uuid value. noted uuid;
  write_command = λ service uuid value. noted uuid;
  notify = λ service uuid callback. noted uuid;
  indicate = λ service uuid callback. noted uuid;
  unsubscribe = λ service uuid. noted uuid;
}
