-- ===== src/Utils/Hexadecimal/Runs.antt =====
-- A number of two bytes, and data with null bytes in front.
use ru_ble.Base.{ℕ, ◌/◌, ◌%◌, ◌≡◌, refl, true, false, some, List, [], ◌∷◌, ◌++◌, arith, length}
use ru_ble.Base.Texts.{Text, codes}
use ru_ble.Utils.Hexadecimal.{
  digit, ref_to_hex_string, to_hex_string, shared_pointer, hex_addr_of, hex_string_prefix, Boost,
  WritesHex, range_to_hex_data,
}
use ru_ble.Utils.Hexadecimal.Digits.{read_hex}
use ru_ble.Utils.Hexadecimal.Numbers.{prefix_if, hex_string_lem}

short : ref_to_hex_string false 2 0xabc ≡ codes "0abc"
unfolding ref_to_hex_string
short = refl

hex_string_lem_example :
    (body : Text) × (ref_to_hex_string false 2 0xabc ≡ prefix_if false ++ body)
    × (length body ≡ 4)
    × (read_hex 0 body ≡ some 0xabc)
    × (to_hex_string false 2 0xabc ≡ hex_string_prefix ++ body)
    × (hex_addr_of false (shared_pointer 0xabc) ≡ ref_to_hex_string true 8 0xabc)
hex_string_lem_example =
    hex_string_lem false 2 0xabc (shared_pointer 0xabc) (omega arith) (omega arith)

two_digits : List ℕ → Text
two_digits [] = []
two_digits (b ∷ bs) = digit (b / 16) ∷ digit (b % 16) ∷ two_digits bs

abbrev boost : Boost
boost = record { hex_lower = two_digits }

boost-WritesHex : WritesHex boost
unfolding two_digits
boost-WritesHex = record { nothing = refl; byte = λ b bs. refl }

dropped : range_to_hex_data boost true (0 ∷ 0 ∷ 31 ∷ 0 ∷ []) ≡ codes "0x1f00"
unfolding range_to_hex_data two_digits
dropped = refl

abbrev first : List ℕ
first = 0 ∷ 31 ∷ []

abbrev second : List ℕ
second = 31 ∷ []
