-- ===== src/Bindings/Enums.antt =====
-- The enumerations that Ruby sees: what ext/ruble/utils/inspection.hpp defines for the types of bindings/Characteristic.hpp and
-- of SimpleBLE, as bindings/Characteristic.cpp and bindings/RuBLE.cpp ask it to.
use mathlib.Core.List.{append-nil, append_assoc}
use ru_ble.Base.{
  ℕ, ◌+◌, ◌-◌, ◌≡◌, refl, ◌∙◌, List, [], ◌∷◌, ◌++◌, map, leb, ◌&&◌, if◌then◌else◌, ok,
}
use ru_ble.Base.Texts.{Text, codes, text_eq}
use ru_ble.Containers.NamedBitSet.{index_of}
use ru_ble.Bindings.Characteristic.{capability_types, capability_names}
use ru_ble.Utils.Inspection.{
  address_types, enumerator_traits_as_array, define_traits, define_described_enum,
}

-- A class of Ruby with its constants, in the order of their definition.
record RubyEnum : Type 0 where
  class_name : Text
  constants : List (Text × ℕ)

abbrev with_value : RubyEnum → Text → ℕ → RubyEnum
with_value e name value = record e { constants = e.constants ++ ((name, value) ∷ []) }

define_traits_lem :
    (described : List (Text × ℕ)) (e : RubyEnum)
    → define_traits with_value (enumerator_traits_as_array described) e
      ≡ record e { constants = e.constants ++ described }
unfolding define_traits enumerator_traits_as_array
define_traits_lem [] e = rw (append-nil e.constants) refl
define_traits_lem ((name, value) ∷ described) e =
    define_traits_lem described (with_value e name value)
    ∙ rw (append_assoc e.constants ((name, value) ∷ []) described) refl

-- The constants of the class are the described enumerators, in their order.
define_described_enum_lem :
    (described : List (Text × ℕ)) (name : Text)
    → define_described_enum
        (λ n. record { class_name = n; constants = [] })
        with_value
        described
        name
      ≡ record { class_name = name; constants = described }
unfolding define_described_enum
define_described_enum_lem described name =
    define_traits_lem described (record { class_name = name; constants = [] })

abbrev small : ℕ → ℕ
small c = if leb b'A' c && leb c b'Z' then c + 32 else c

-- An ASCII letter as a capital, and back.
abbrev capital : ℕ → ℕ
capital c = if leb b'a' c && leb c b'z' then c - 32 else c

module _ {E : Type 0} (define_enum : Text → E) (define_value : E → Text → ℕ → E) where
  unfoldable pub init_bluetooth_address_type : (public random unspecified : ℕ) → E
  unfolding define_described_enum
  init_bluetooth_address_type public random unspecified =
      define_described_enum define_enum define_value (address_types public random unspecified)
        (codes "BluetoothAddressType")

  -- The part of `Init_Characteristic` that defines the type of capabilities.
  unfoldable pub init_capability_type : E
  unfolding define_described_enum
  init_capability_type =
      define_described_enum define_enum define_value capability_types (codes "CapabilityType")

-- The enumerators are the capabilities of a characteristic, in capitals, and the value of each is the place of its bit.
capability_types_names :
    map (λ (e : Text × ℕ). e.0) capability_types ≡ map (map capital) capability_names
capability_types_names = refl

capability_types_places :
    map (λ (e : Text × ℕ). index_of capability_names (map small e.0)) capability_types
    ≡ map (λ (e : Text × ℕ). ok e.1) capability_types
unfolding index_of text_eq
capability_types_places = refl
