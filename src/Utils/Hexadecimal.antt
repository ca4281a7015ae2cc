-- ===== src/Utils/Hexadecimal.antt =====
-- ext/ruble/utils/hexadecimal.hpp: numbers, addresses and bytes in hexadecimal. Numbers are unsigned, and `size` is that of
-- their type in bytes. `prefix` is the template argument.
pub mod Digits
pub mod Numbers
pub mod Bytes
mod Runs
use ru_ble.Base.{
  ℕ, zero, suc, ◌+◌, ◌-◌, ◌*◌, ◌/◌, ◌%◌, ◌≡◌, Bool, true, false, List, [], ◌∷◌, ◌++◌, ltb, ◌==◌,
  if◌then◌else◌, length, replicate, max,
}
use ru_ble.Base.Texts.{Text, codes}

abbrev pub digit : ℕ → ℕ
digit d = if ltb d 10 then 48 + d else 87 + d

-- The digits of a number, without leading zeros; a number of `fuel` digits at most has them all.
unfoldable pub digits : ℕ → ℕ → Text
digits zero num = []
digits (suc fuel) num =
    if ltb num 16 then digit num ∷ [] else digits fuel (num / 16) ++ (digit (num % 16) ∷ [])

abbrev pub hex_string_prefix : Text
hex_string_prefix = codes "0x"

-- `std::format` of a number as `x`, filled with zeros, behind the prefix if there is one, to `width` characters.
unfoldable pub format_hex : Bool → ℕ → ℕ → ℕ → Text
unfolding digits
format_hex prefix fuel num width =
    let start = if prefix then hex_string_prefix else [] in
    let ds = digits fuel num in start ++ (replicate (width - (length start + length ds)) b'0' ++ ds)

unfoldable pub ref_to_hex_string : Bool → ℕ → ℕ → Text
unfolding format_hex
ref_to_hex_string prefix size num =
    let result_len = max 2 (size * 2) + (if prefix then 2 else 0) in
    format_hex prefix (size * 2) num result_len

-- The template argument is not passed on: that of `ref_to_hex_string` is `true` by default.
unfoldable pub to_hex_string : Bool → ℕ → ℕ → Text
unfolding ref_to_hex_string
to_hex_string prefix size num = ref_to_hex_string true size num

abbrev pub sizeof_pointer : ℕ
sizeof_pointer = 8

-- `to_hex_addr` of a pointer, with `ptr_to_hex_addr`.
unfoldable pub to_hex_addr : Bool → ℕ → Text
unfolding to_hex_string
to_hex_addr prefix ptr = to_hex_string true sizeof_pointer ptr

-- The other functions for addresses. A shared pointer is the pointer that it holds.
unfoldable pub sptr_to_hex_addr : Bool → ℕ → Text
unfolding to_hex_addr
sptr_to_hex_addr prefix get = to_hex_addr prefix get

unfoldable pub rb_to_hex_addr : Bool → ℕ → Text
unfolding to_hex_string
rb_to_hex_addr prefix value = to_hex_string prefix sizeof_pointer value

unfoldable pub ref_to_hex_addr : Bool → ℕ → Text
unfolding to_hex_addr
ref_to_hex_addr prefix address = to_hex_addr prefix address

-- An argument of `to_hex_addr`: a pointer, a shared pointer, an object of Ruby with its VALUE, or any other object with its
-- address.
pub data Addressed : Type 0 where
  pointer shared_pointer ruby_object other_object : ℕ → Addressed

-- Here too the template argument is not passed on.
unfoldable pub hex_addr_of : Bool → Addressed → Text
unfolding to_hex_addr sptr_to_hex_addr rb_to_hex_addr ref_to_hex_addr
hex_addr_of prefix (pointer ptr) = to_hex_addr true ptr
hex_addr_of prefix (shared_pointer get) = sptr_to_hex_addr true get
hex_addr_of prefix (ruby_object value) = rb_to_hex_addr true value
hex_addr_of prefix (other_object address) = ref_to_hex_addr true address

-- `boost::algorithm::hex_lower`, and what it documents: two digits for each byte, the higher first.
pub record Boost : Type 0 where
  pub hex_lower : List ℕ → Text

pub record WritesHex (boost : Boost) : Type 0 where
  pub nothing : boost.hex_lower [] ≡ []
  pub byte :
      (b : ℕ) (bs : List ℕ)
      → boost.hex_lower (b ∷ bs) ≡ digit (b / 16) ∷ digit (b % 16) ∷ boost.hex_lower bs

-- `views::drop_while(is_null)`
unfoldable pub drop_nulls : List ℕ → List ℕ
drop_nulls [] = []
drop_nulls (b ∷ bs) = if b == 0 then drop_nulls bs else b ∷ bs

unfoldable pub range_to_hex_data : Boost → Bool → List ℕ → Text
unfolding drop_nulls
range_to_hex_data boost prefix bytes =
    let prefix_len = if prefix then length hex_string_prefix else 0 in
    let output = (if prefix then hex_string_prefix else []) ++ boost.hex_lower (drop_nulls bytes) in
    if length output - prefix_len == 0 then output ++ codes "00" else output

-- The one object becomes a range, of which `to_hex_data` is called, which does not pass the template argument on.
unfoldable pub ref_to_hex_data : Boost → Bool → List ℕ → Text
unfolding range_to_hex_data
ref_to_hex_data boost prefix object_bytes = range_to_hex_data boost true object_bytes

-- What `to_hex_data` is given: a range, or any other object, with its bytes in memory.
pub data HexArgument : Type 0 where
  range other_object_bytes : List ℕ → HexArgument

-- The template argument is not passed on here either.
unfoldable pub to_hex_data : Boost → Bool → HexArgument → Text
unfolding range_to_hex_data ref_to_hex_data
to_hex_data boost prefix (range bytes) = range_to_hex_data boost true bytes
to_hex_data boost prefix (other_object_bytes bytes) = ref_to_hex_data boost true bytes
