-- ===== src/Containers/ByteArray/Runs.antt =====
-- Byte arrays on a little-endian host, where boost's conversions do nothing.
use ru_ble.Base.{
  ℕ, ℤ, Result, range_error, ltb, leb, ◌*◌, if◌then◌else◌, ◌+◌, ◌-◌, ◌%◌, ◌^◌, ◌≤◌, ◌<◌, ◌≡◌, ◌≢◌,
  refl, ◌↔◌, true, false, List, [], ◌∷◌, arith, length, All, replicate, ok, err, Error, fault,
  length_error, pos, negsuc,
}
use ru_ble.Base.Texts.{Text, codes}
use ru_ble.Containers.ByteArray.Endian.{IsByte, le_bytes, le_value}
use ru_ble.Containers.ByteArray.{
  Platform, Converts, ByteArray, Ruby, from_ruby, from_char, to_i, from_unsigned, number,
  compare_int, op_complement, op_mod, op_not, chars_per_val,
}
use ru_ble.Containers.ByteArray.Integers.{from_unsigned_lem, to_i-from_unsigned, to_i_short}
use ru_ble.Containers.ByteArray.Comparison.{operators_of_unsigned}
use ru_ble.Containers.ByteArray.Conversions.{from_ruby-integer, Integers, ReadsAs, from_char_lem}

abbrev little : Platform
little = record {
  to_memory = le_bytes;
  from_memory = λ n bs. le_value bs;
  native_to_little = λ n v. v;
  little_to_native = λ n v. v;
  char_signed = true;
  sizeof_ulong = 4;
}

little-Converts : Converts little
little-Converts = record { stores = λ n v h. refl; loads = λ n bs h hb. refl }

-- Where `unsigned long` has four bytes, as on Windows. A symbol is no string.
abbrev num2ulong : ℤ → Result ℕ
num2ulong (pos v) = if ltb v (256 ^ 4) then ok v else err range_error
num2ulong (negsuc v) =
    if leb (2 * (v + 1)) (256 ^ 4) then ok (256 ^ 4 - (v + 1)) else err range_error

abbrev ruby : Ruby ℤ
ruby = record {
  num2ulong = num2ulong;
  string_str = λ s. ok s;
  symbol_str = λ s. err Error.type_error;
}

ruby-Integers : Integers little ruby
ruby-Integers = record {
  integer = λ z. z;
  converts = λ v h. ground arith;
  wraps = λ v h. ground arith;
  too_large = λ v h. ground arith;
  too_small = λ v h. ground arith;
}

abbrev array : Text → ByteArray
array s = record { bytes = s }

stored : from_unsigned little 4 1234 ≡ array (210 ∷ 4 ∷ 0 ∷ 0 ∷ [])
unfolding from_unsigned chars_per_val le_bytes
stored = refl

from_unsigned_lem_example : from_unsigned little 2 1234 ≡ array (le_bytes 2 1234)
from_unsigned_lem_example = from_unsigned_lem little little-Converts 2 1234 (omega arith)

to_i-from_unsigned_example : to_i little 8 [] (from_unsigned little 8 1234) ≡ (1234, false)
to_i-from_unsigned_example = to_i-from_unsigned little little-Converts 8 1234 [] (omega arith) tt

to_i_short_example :
    (length (codes "abc") + 1 ≡ 8
      → (beyond : List ℕ) → All IsByte beyond
      → to_i little 8 beyond (array (codes "abc")) ≡ (le_value (codes "abc"), false))
    × (length (codes "abc") + 1 < 8
        → (m m' : List ℕ) × All IsByte m
          × All IsByte m'
          × ((to_i little 8 m (array (codes "abc"))).0
              ≢ (to_i little 8 m' (array (codes "abc"))).0))
to_i_short_example = to_i_short little little-Converts 8 (array (codes "abc")) (omega arith)

operators_of_unsigned_example :
    let b = from_unsigned little 8 1234 in
    ((compare_int little [] b 7 ≡ negsuc 0) ↔ (1234 < 7))
    × ((compare_int little [] b 7 ≡ pos 0) ↔ (◌≡◌ {A = ℕ} 1234 7))
    × ((compare_int little [] b 7 ≡ pos 1) ↔ (7 < 1234))
    × (op_complement little [] b + 1234 ≡ 2 ^ 64 - 1)
    × (op_mod little [] b 0 ≡ err fault)
    × (0 < 7 → op_mod little [] b 7 ≡ ok (1234 % 7))
    × ((op_not little [] b ≡ true) ↔ (◌≢◌ {A = ℕ} 1234 0))
operators_of_unsigned_example =
    operators_of_unsigned little little-Converts 1234 7 [] (omega arith) tt

from_ruby-integer_example :
    (1234 < 256 ^ 4 → ReadsAs little ruby (pos 1234) 1234)
    × (2 * (1234 + 1) ≤ 256 ^ 4 → ReadsAs little ruby (negsuc 1234) (256 ^ 4 - (1234 + 1)))
    × (256 ^ 4 ≤ 1234 → from_ruby little ruby (number (pos 1234)) ≡ err range_error)
    × (256 ^ 4 < 2 * (1234 + 1) → from_ruby little ruby (number (negsuc 1234)) ≡ err range_error)
unfolding ruby-Integers
from_ruby-integer_example = from_ruby-integer little ruby little-Converts ruby-Integers 1234

from_char_lem_example :
    (65 < 128 → from_char little 65 ≡ ok (array (replicate 65 1)))
    × (128 ≤ 65 → true ≡ true → from_char little 65 ≡ err length_error)
    × (from_char little 65 ≡ ok (array (65 ∷ [])) → ◌≡◌ {A = ℕ} 65 1)
from_char_lem_example = from_char_lem little 65
