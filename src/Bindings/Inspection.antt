-- ===== src/Bindings/Inspection.antt =====
-- `to_s` of the classes of the bindings: ext/ruble/bindings/Adapter.cpp, Peripheral.cpp, Service.cpp, Characteristic.cpp and
-- Descriptor.hpp, containers/ByteArray.cpp and management/Registry.hpp. `name` is the name of the class, and `this` the
-- address of the object.
pub mod Addresses
mod Runs
use ru_ble.Base.{
  ℕ, Bool, true, false, not, Option, none, some, List, [], ◌∷◌, ◌++◌, length, ◌==◌, if◌then◌else◌,
  Result, ok, err, ◌>>=◌,
}
use ru_ble.Base.Texts.{Text, codes}
use ru_ble.Containers.ByteArray.{ByteArray}
use ru_ble.Containers.NamedBitSet.{NamedBitSet, join}
use ru_ble.Containers.NamedBitSet
use ru_ble.Utils.Hexadecimal.{Boost, to_hex_addr, to_hex_data, range}
use ru_ble.Utils.Inspection.{
  basic_object_inspect_start, EnumToString, enum_val_as_string, decimal, signed_decimal,
}
use ru_ble.Bindings.Peripheral.{Peripheral, Backend, initialized, statuses}
use ru_ble.Bindings.Peripheral.Getters.{address, address_type, identifier, rssi, tx_power, mtu}
use ru_ble.Bindings.Service.{Service}
use ru_ble.Bindings.Characteristic.{Characteristic, Descriptor, capability_names}
use ru_ble.Bindings.Adapter.{Adapter, AdapterBackend}
use ru_ble.Bindings.Adapter.Statuses.{status_flags}

-- What `<<` has written to a stream, one after the other.
abbrev pub written : List Text → Text
written [] = []
written (t ∷ ts) = t ++ written ts

abbrev pub address_types : List (Text × ℕ)
address_types = (codes "PUBLIC", 0) ∷ (codes "RANDOM", 1) ∷ (codes "UNSPECIFIED", 2) ∷ []

module _ {S P : Type 0} (enum_to_string : EnumToString) (b : Backend S) where
  -- `svc_count` is the number of services that SimpleBLE lists.
  unfoldable pub peripheral_to_s : Text → ℕ → ℕ → Peripheral P → S → Result Text
  peripheral_to_s name this svc_count p s =
      let start = basic_object_inspect_start name this ++ codes " " in
      if not (initialized b s) then ok (start ++ codes "uninitialized>") else (do
        names ← statuses b s
        ok (
            start
            ++ written (
                codes "@address["
                ∷ enum_val_as_string enum_to_string address_types (address_type p)
                ∷ codes "]=\""
                ∷ address p
                ∷ codes "\" "
                ∷ codes "@identifier=\""
                ∷ identifier b s
                ∷ codes "\" "
                ∷ codes "@rssi="
                ∷ signed_decimal (rssi b s)
                ∷ codes " "
                ∷ codes "@tx_power="
                ∷ signed_decimal (tx_power b s)
                ∷ codes " "
                ∷ codes "@mtu="
                ∷ decimal (mtu b s)
                ∷ codes " "
                ∷ codes "svc_count="
                ∷ decimal svc_count
                ∷ codes " "
                ∷ join names (codes "|")
                ∷ codes ">"
                ∷ [])))

-- `data_of` is what SimpleBLE answers for the data of the service.
unfoldable pub service_to_s : Text → ℕ → ByteArray → Service → Text
service_to_s name this data_of s =
    basic_object_inspect_start name this
    ++ written (
        codes " "
        ∷ codes "@uuid=\""
        ∷ s.uuid
        ∷ codes "\" "
        ∷ codes "@data=\""
        ∷ data_of.bytes
        ∷ codes "\" "
        ∷ codes ">"
        ∷ [])

unfoldable pub characteristic_to_s : Text → ℕ → Characteristic → Text
characteristic_to_s name this c =
    basic_object_inspect_start name this
    ++ written (
        codes " "
        ∷ codes "@uuid="
        ∷ c.uuid
        ∷ codes " "
        ∷ codes "@capabilities="
        ∷ NamedBitSet.to_s capability_names c.capabilities
        ∷ codes ">"
        ∷ [])

unfoldable pub descriptor_to_s : Text → ℕ → Descriptor → Text
descriptor_to_s name this d =
    basic_object_inspect_start name this ++ written (codes " " ∷ d.uuid ∷ codes ">" ∷ [])

-- `ruby_quote_string` gives the bytes as Ruby's `inspect` writes a string.
unfoldable pub byte_array_to_s : Boost → (Text → Result Text) → Text → ℕ → ByteArray → Result Text
byte_array_to_s boost ruby_quote_string name this b = do
  quoted ← ruby_quote_string b.bytes
  ok (
      basic_object_inspect_start name this
      ++ written (
          codes " "
          ∷ to_hex_data boost true (range b.bytes)
          ∷ codes " ("
          ∷ quoted
          ∷ codes ")>"
          ∷ []))

-- An object is owned where there is a text of its owner.
unfoldable pub registry_to_s : Text → Text → Option Text → Text
registry_to_s proxy_name name owner =
    written (codes "Registry for " ∷ proxy_name ∷ codes " (" ∷ name ∷ codes "): " ∷ [])
    ++ (elim owner [ none ↦ [] | some text ↦ codes " owned by " ++ text ])

-- `std::string::pop_back`
abbrev pub pop_back : Text → Text
pop_back [] = []
pop_back (c ∷ []) = []
pop_back (c ∷ d ∷ t) = c ∷ pop_back (d ∷ t)

-- `super` is what `to_s` of the superclass answers. `in_order` puts the flags in the order of the set.
module _ {S V P : Type 0} (b : AdapterBackend S V) (in_order : List Text → List Text) where
  unfoldable pub adapter_to_s : Text → Text → ℕ → Adapter P → (ℕ → S) → Option ℕ → Text × Option ℕ
  adapter_to_s super name this a states flag_check =
      let start =
        if not (length super == 0)
        then pop_back super
        else codes "#<" ++ (name ++ (codes ":" ++ to_hex_addr true this)) in
      let (flags, flag_check') = status_flags b states flag_check this in
      if not (b.initialized (states this))
      then (start ++ written (codes " " ∷ codes "uninitialized>" ∷ []), flag_check)
      else (
        start
            ++ written (
                codes " "
                ∷ codes "@address=\""
                ∷ a.addr
                ∷ codes "\" "
                ∷ join (in_order flags) (codes "|")
                ∷ codes ">"
                ∷ []),
        flag_check',
      )
