-- ===== src/Containers/ByteArray.antt =====
-- ext/ruble/containers/ByteArray.hpp and ByteArray.cpp: a string of bytes with conversions from and
-- to integers and Ruby objects. Its Ruby object is in Concerns/Rubyable, and its text in Bindings/Inspection.
pub mod Endian
pub mod Integers
pub mod Comparison
pub mod Conversions
mod Runs
use ru_ble.Base.{
  ℕ, zero, suc, ◌+◌, ◌-◌, ◌*◌, ◌/◌, ◌%◌, ◌^◌, ◌≤◌, ◌<◌, ◌≡◌, Ordering, bit_and, bit_or, bit_xor,
  Bool, true, false, not, Option, none, some, List, [], ◌∷◌, ◌++◌, ltb, leb, ◌==◌, if◌then◌else◌,
  length, replicate, take, get_elem?, All, Result, ok, err, Error, length_error, invalid_argument,
  fault, ℤ, pos, negsuc, ◌>>=◌, compare,
}
use ru_ble.Base.Texts.{Text, compare_text}
use Endian.{le_bytes, le_value, IsByte}

-- What the code takes from the platform and from boost::endian: an unsigned integer of `n` bytes in
-- memory and back, the two conversions, whether `char` is signed, and the size of `unsigned long`.
pub record Platform : Type 0 where
  pub to_memory : ℕ → ℕ → List ℕ
  pub from_memory : ℕ → List ℕ → ℕ
  pub native_to_little : ℕ → ℕ → ℕ
  pub little_to_native : ℕ → ℕ → ℕ
  pub char_signed : Bool
  pub sizeof_ulong : ℕ

-- What boost documents: after `native_to_little` the bytes in memory stand lowest first, and
-- `little_to_native` gives the number whose bytes were loaded lowest first.
pub record Converts (p : Platform) : Type 0 where
  pub stores : (n v : ℕ) → v < 256 ^ n → p.to_memory n (p.native_to_little n v) ≡ le_bytes n v
  pub loads :
      (n : ℕ) (bs : List ℕ)
      → length bs ≡ n
      → All IsByte bs
      → p.little_to_native n (p.from_memory n bs) ≡ le_value bs

pub record ByteArray : Type 0 where
  pub bytes : Text

abbrev pub char_size : ℕ
char_size = 1

-- `chars_per_val<T>` for a `T` of `n` bytes.
pub chars_per_val : ℕ → ℕ
chars_per_val n = n / char_size + (if ltb 0 (n % char_size) then 1 else 0)

-- A store at the front of a buffer.
abbrev pub overwrite : List ℕ → List ℕ → List ℕ
overwrite [] buffer = buffer
overwrite (b ∷ bs) [] = []
overwrite (b ∷ bs) (c ∷ buffer) = b ∷ overwrite bs buffer

-- `ByteArray(const T &)` for an unsigned `T` of `n` bytes.
pub from_unsigned : Platform → ℕ → ℕ → ByteArray
unfolding chars_per_val
from_unsigned p n v = record {
  bytes = overwrite (p.to_memory n (p.native_to_little n v)) (replicate (chars_per_val n) 0);
}

-- `std::string(chr, 1)`: `chr` is the count and 1 the character. A negative `char` is a count that
-- no string can have.
pub from_char : Platform → ℕ → Result ByteArray
from_char p chr =
    if leb 128 chr
    then (if p.char_signed then err length_error else ok (record { bytes = replicate chr 1 }))
    else ok (record { bytes = replicate chr 1 })

pub from_bool : Platform → Bool → Result ByteArray
unfolding from_char
from_bool p b = from_char p (if b then b'1' else b'0')

-- A Ruby object, as far as the constructor from one tells the kinds apart.
pub data RubyObject (Number : Type 0) : Type 0 where
  byte_array : ByteArray → RubyObject Number
  number : Number → RubyObject Number
  string symbol : Text → RubyObject Number
  nil_object true_object false_object other_object : RubyObject Number

-- `rb_num2ulong`, and `Rice::String(obj).str()` for a string and for a symbol.
pub record Ruby (Number : Type 0) : Type 0 where
  pub num2ulong : Number → Result ℕ
  pub string_str : Text → Result Text
  pub symbol_str : Text → Result Text

pub from_ruby : {Number : Type 0} → Platform → Ruby Number → RubyObject Number → Result ByteArray
unfolding from_bool from_unsigned
from_ruby p r (byte_array b) = ok b
from_ruby p r (number n) = do v ← r.num2ulong n; ok (from_unsigned p p.sizeof_ulong v)
from_ruby p r (string s) = do t ← r.string_str s; ok (record { bytes = t })
from_ruby p r (symbol s) = do t ← r.symbol_str s; ok (record { bytes = t })
from_ruby p r nil_object = from_bool p false
from_ruby p r true_object = from_bool p true
from_ruby p r false_object = from_bool p false
from_ruby p r other_object = err invalid_argument

-- `byte_count`; `length` of the source is the length of `bytes`.
abbrev pub byte_count : ByteArray → ℕ
byte_count b = length b.bytes * char_size

-- `to_i<T>` for a `T` of `n` bytes, and whether it warns. It reads `n` bytes from the start of the
-- string: behind its bytes stand the terminating zero and then `beyond`, whatever the memory holds.
pub to_i : Platform → ℕ → List ℕ → ByteArray → ℕ × Bool
to_i p n beyond b = (
  p.little_to_native n (p.from_memory n (take n (b.bytes ++ (0 ∷ beyond)))),
  ltb n (byte_count b),
)

abbrev pub sizeof_default : ℕ
sizeof_default = 8

module _ (p : Platform) (beyond : List ℕ) (b : ByteArray) where
  abbrev pub value : ℕ
  value = (to_i p sizeof_default beyond b).0

  pub op_or : ℕ → ℕ
  op_or other = bit_or value other

  pub op_and : ℕ → ℕ
  op_and other = bit_and value other

  pub op_xor : ℕ → ℕ
  op_xor other = bit_xor value other

  -- Dividing by zero is undefined.
  pub op_mod : ℕ → Result ℕ
  op_mod other = if other == 0 then err fault else ok (value % other)

  pub op_not : Bool
  op_not = not (value == 0)

  pub op_complement : ℕ
  op_complement = 2 ^ 64 - 1 - value

  -- `operator<=>` with an integer.
  pub compare_int : ℕ → ℤ
  compare_int other = elim (compare value other) [
    | Ordering.lt ↦ negsuc 0
    | Ordering.gt ↦ pos 1
    | Ordering.eq ↦ pos 0
  ]

-- `operator<=>`, `==` and `!=` between byte arrays.
unfoldable pub spaceship : ByteArray → ByteArray → Ordering
spaceship a b = compare_text a.bytes b.bytes

unfoldable pub equals : ByteArray → ByteArray → Bool
unfolding spaceship
equals a b = elim (spaceship a b) [ Ordering.eq ↦ true | _ ↦ false ]

unfoldable pub differs : ByteArray → ByteArray → Bool
unfolding equals
differs a b = not (equals a b)

-- `operator[]`, with its assertion.
pub byte_at : ByteArray → ℤ → Result ℕ
byte_at b (negsuc n) = err fault
byte_at b (pos n) =
    if ltb n (byte_count b)
    then (elim (get_elem? b.bytes n) [ none ↦ err fault | some x ↦ ok x ])
    else err fault

-- The default constructor, the one from SimpleBLE's bytes, and `to_string` and `data`, which give them back.
no_bytes : ByteArray
no_bytes = record { bytes = [] }

of_bytes : List ℕ → ByteArray
of_bytes bytes = record { bytes = bytes }

to_string : ByteArray → List ℕ
to_string b = b.bytes
