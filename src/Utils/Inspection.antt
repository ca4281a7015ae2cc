-- ===== src/Utils/Inspection.antt =====
-- ext/ruble/utils/inspection.hpp and inspection.cpp: texts that describe an object for Ruby. `name` is what `human_type_name`
-- gives for its class, and `addr` is its address.
pub mod Addresses
pub mod Quoting
use ru_ble.Base.{
  ℕ, zero, suc, ◌+◌, ◌/◌, ◌%◌, Bool, true, List, [], ◌∷◌, ◌++◌, ltb, if◌then◌else◌, ℤ, pos, negsuc,
  Result, ok, err,
}
use ru_ble.Base.Texts.{Text, codes}
use ru_ble.Utils.Hexadecimal.{to_hex_addr, to_hex_string}

-- A number on a `std::ostream`: the decimal digits of a number that has `fuel` at most. The numbers here have up to 64 bits,
-- and 20 digits are enough for these.
unfoldable pub decimal_digits : ℕ → ℕ → Text
decimal_digits zero num = []
decimal_digits (suc fuel) num =
    if ltb num 10 then (48 + num) ∷ [] else decimal_digits fuel (num / 10) ++ ((48 + num % 10) ∷ [])

unfoldable pub decimal : ℕ → Text
unfolding decimal_digits
decimal num = decimal_digits 20 num

unfoldable pub signed_decimal : ℤ → Text
unfolding decimal
signed_decimal (pos n) = decimal n
signed_decimal (negsuc n) = b'-' ∷ decimal (suc n)

-- `basic_object_inspect_start` of a C++ object.
unfoldable pub basic_object_inspect_start : Text → ℕ → Text
basic_object_inspect_start name addr = codes "#<" ++ (name ++ (codes ":" ++ to_hex_addr true addr))

-- `basic_object_inspect_start` of a Ruby object, from the name of its class and its value.
unfoldable pub ruby_object_inspect_start : Text → ℕ → Text
ruby_object_inspect_start class_name value =
    codes "#<" ++ (class_name ++ (codes ":" ++ to_hex_string true 8 value))

unfoldable pub basic_object_inspect : Text → ℕ → Text
unfolding basic_object_inspect_start
basic_object_inspect name addr = basic_object_inspect_start name addr ++ codes ">"

-- `boost::describe::enum_to_string`: the enumerators of a type with their values, a value, and what it gives for a value that
-- none has.
abbrev pub EnumToString : Type 0
EnumToString = List (Text × ℕ) → ℕ → Text → Text

unfoldable pub enum_val_as_string : EnumToString → List (Text × ℕ) → ℕ → Text
enum_val_as_string enum_to_string enumerators val =
    enum_to_string enumerators val (codes "(unrecognized)")

-- An enumerator, as `boost::describe` lists those of a type: in the order of their declaration.
pub record EnumeratorTrait : Type 0 where
  pub value : ℕ
  pub name : Text

unfoldable pub enumerator_traits_as_array : List (Text × ℕ) → List EnumeratorTrait
enumerator_traits_as_array [] = []
enumerator_traits_as_array ((name, value) ∷ described) =
    record { value = value; name = name } ∷ enumerator_traits_as_array described

-- What is described of `SimpleBLE::BluetoothAddressType`, with the values that SimpleBLE gives the enumerators.
abbrev pub address_types : (public random unspecified : ℕ) → List (Text × ℕ)
address_types public random unspecified =
    (codes "PUBLIC", public) ∷ (codes "RANDOM", random) ∷ (codes "UNSPECIFIED", unspecified) ∷ []

-- The name of the Ruby class of the object that Rice makes of the value.
unfoldable pub enum_rb_type_name : {O : Type 0} → (ℕ → O) → (O → Text) → ℕ → Text
enum_rb_type_name to_ruby class_name enum_val = class_name (to_ruby enum_val)

unfoldable pub enum_val_inspect :
    {O : Type 0} → EnumToString → (ℕ → O) → (O → Text) → List (Text × ℕ) → ℕ → Text
unfolding enum_val_as_string enum_rb_type_name
enum_val_inspect enum_to_string to_ruby class_name enumerators val =
    enum_rb_type_name to_ruby class_name val
    ++ (codes "::" ++ enum_val_as_string enum_to_string enumerators val)

-- The values that `define_described_enum` defines in Ruby, in this order.
unfoldable pub define_traits : {E : Type 0} → (E → Text → ℕ → E) → List EnumeratorTrait → E → E
define_traits define_value [] rb_type = rb_type
define_traits define_value (item ∷ traits) rb_type =
    define_traits define_value traits (define_value rb_type item.name item.value)

-- `define_enum` makes the class of that name in the module.
unfoldable pub define_described_enum :
    {E : Type 0} → (Text → E) → (E → Text → ℕ → E) → List (Text × ℕ) → Text → E
unfolding define_traits enumerator_traits_as_array
define_described_enum define_enum define_value described name =
    define_traits define_value (enumerator_traits_as_array described) (define_enum name)

-- With the name that the compiler gives the type.
unfoldable pub define_enum_by_type :
    {E : Type 0} → (Text → E) → (E → Text → ℕ → E) → List (Text × ℕ) → Text → E
unfolding define_described_enum
define_enum_by_type define_enum define_value described human_type_name =
    define_described_enum define_enum define_value described human_type_name
