-- ===== src/Containers/ByteArray/Conversions.antt =====
-- Byte arrays from Ruby objects, and access to single bytes.
use ru_ble.Base.{
  ℕ, zero, suc, ℤ, ◌+◌, ◌-◌, ◌*◌, ◌≢◌, range_error, ◌^◌, ◌≤◌, ◌<◌, ◌≡◌, refl, ◌↔◌, true, false,
  some, List, [], ◌∷◌, arith, length, All, replicate, get_elem?, get_elem?-lt, ok, err, Error,
  fault, length_error, pos, negsuc,
}
use ru_ble.Base.Texts.{Text}
use ru_ble.Containers.ByteArray.Endian.{IsByte, le_bytes, le_bytes-IsByte, length-le_bytes}
use ru_ble.Containers.ByteArray.{
  Platform, Converts, ByteArray, number, string, symbol, Ruby, from_ruby, from_char, byte_at, to_i,
  sizeof_default, from_unsigned,
}
use ru_ble.Containers.ByteArray.Integers.{to_i-from_unsigned, to_i_short, from_unsigned_lem}

-- What is documented of `rb_num2ulong` on the Integers of Ruby: an Integer that `unsigned long` or `long` can hold is given
-- out as an `unsigned long`, a negative one modulo the number of its values, and for any other there is a RangeError.
pub record Integers {Number : Type 0} (p : Platform) (r : Ruby Number) : Type 0 where
  pub integer : ℤ → Number
  pub converts : (v : ℕ) → v < 256 ^ p.sizeof_ulong → r.num2ulong (integer (pos v)) ≡ ok v
  pub wraps :
      (v : ℕ)
      → 2 * (v + 1) ≤ 256 ^ p.sizeof_ulong
      → r.num2ulong (integer (negsuc v)) ≡ ok (256 ^ p.sizeof_ulong - (v + 1))
  pub too_large :
      (v : ℕ) → 256 ^ p.sizeof_ulong ≤ v → r.num2ulong (integer (pos v)) ≡ err range_error
  pub too_small :
      (v : ℕ)
      → 256 ^ p.sizeof_ulong < 2 * (v + 1)
      → r.num2ulong (integer (negsuc v)) ≡ err range_error

from_ruby-number :
    {Number : Type 0} (p : Platform) (r : Ruby Number) (n : Number) (v : ℕ)
    → r.num2ulong n ≡ ok v
    → from_ruby p r (number n) ≡ ok (from_unsigned p p.sizeof_ulong v)
unfolding from_ruby
from_ruby-number p r n v h = rw h refl

from_ruby-refuses :
    {Number : Type 0} (p : Platform) (r : Ruby Number) (n : Number) (e : Error)
    → r.num2ulong n ≡ err e
    → from_ruby p r (number n) ≡ err e
unfolding from_ruby
from_ruby-refuses p r n e h = rw h refl

-- The byte array that `new` makes of a Ruby number is read as `v`: exactly and with no warning at the size of `unsigned
-- long`; and if that is shorter than the default of `to_i` by two bytes or more, `to_i` at its default reads one number or
-- another by what the memory behind the string holds.
abbrev pub ReadsAs : {Number : Type 0} → Platform → Ruby Number → Number → ℕ → Type 0
ReadsAs p r n v =
    (c : ByteArray) × (from_ruby p r (number n) ≡ ok c)
    × ((beyond : List ℕ) → All IsByte beyond → to_i p p.sizeof_ulong beyond c ≡ (v, false))
    × (p.sizeof_ulong + 1 < sizeof_default
        → (m m' : List ℕ) × All IsByte m
          × All IsByte m'
          × ((to_i p sizeof_default m c).0 ≢ (to_i p sizeof_default m' c).0))

number-ReadsAs :
    {Number : Type 0} (p : Platform)
    → Converts p
    → (r : Ruby Number) (n : Number) (v : ℕ) → v < 256 ^ p.sizeof_ulong
    → r.num2ulong n ≡ ok v
    → ReadsAs p r n v
number-ReadsAs p c r n v lt h =
    let w = p.sizeof_ulong in
    let short =
      to_i_short p c sizeof_default (record { bytes = le_bytes w v }) (le_bytes-IsByte w v) in
    (
      from_unsigned p w v,
      from_ruby-number p r n v h,
      λ beyond hm. to_i-from_unsigned p c w v beyond lt hm,
      λ less.
          rw (from_unsigned_lem p c w v lt) (short.1 (omega (arith, less, length-le_bytes w v))),
    )

-- What `new` makes of a Ruby Integer and `to_i` reads back, on every platform, whatever the size of `unsigned long` there.
-- An Integer from 0 on that this type can hold comes back as it was, with no warning, if it is read at that size; one below 0
-- that `long` can hold comes back as itself plus the number of values of `unsigned long`; any other is
-- refused with a RangeError. Where `unsigned long` is shorter by two bytes or more than the eight that `to_i` reads by
-- default, what it reads depends on the memory behind the string.
pub from_ruby-integer :
    {Number : Type 0} (p : Platform) (r : Ruby Number)
    → Converts p
    → (i : Integers p r) (v : ℕ)
    → (v < 256 ^ p.sizeof_ulong → ReadsAs p r (i.integer (pos v)) v)
      × (2 * (v + 1) ≤ 256 ^ p.sizeof_ulong
          → ReadsAs p r (i.integer (negsuc v)) (256 ^ p.sizeof_ulong - (v + 1)))
      × (256 ^ p.sizeof_ulong ≤ v → from_ruby p r (number (i.integer (pos v))) ≡ err range_error)
      × (256 ^ p.sizeof_ulong < 2 * (v + 1)
          → from_ruby p r (number (i.integer (negsuc v))) ≡ err range_error)
from_ruby-integer p r c i v = (
  λ h. number-ReadsAs p c r (i.integer (pos v)) v h (i.converts v h),
  λ h. number-ReadsAs p c r (i.integer (negsuc v)) _ (omega (arith, h)) (i.wraps v h),
  λ h. from_ruby-refuses p r (i.integer (pos v)) range_error (i.too_large v h),
  λ h. from_ruby-refuses p r (i.integer (negsuc v)) range_error (i.too_small v h),
)

-- A number that Ruby cannot convert is refused with Ruby's error, and so is a string or symbol.
pub from_ruby_err :
    {Number : Type 0} (p : Platform) (r : Ruby Number) (n : Number) (s : Text) (e : Error)
    → (r.num2ulong n ≡ err e → from_ruby p r (number n) ≡ err e)
      × (r.string_str s ≡ err e → from_ruby p r (string s) ≡ err e)
      × (r.symbol_str s ≡ err e → from_ruby p r (symbol s) ≡ err e)
unfolding from_ruby
from_ruby_err p r n s e = ((λ h. rw h), (λ h. rw h), (λ h. rw h))

-- The constructor from a character makes that many bytes of value 1, whichever character it is; a
-- negative one is refused. Only for the code 1 is the result the one-character string.
pub from_char_lem :
    (p : Platform) (c : ℕ)
    → (c < 128 → from_char p c ≡ ok (record { bytes = replicate c 1 }))
      × (128 ≤ c → p.char_signed ≡ true → from_char p c ≡ err length_error)
      × (from_char p c ≡ ok (record { bytes = c ∷ [] }) → c ≡ 1)
unfolding from_char
from_char_lem p c = (ground arith, ground arith, λ h. fills p c h)
  where
    fills : (p : Platform) (c : ℕ) → from_char p c ≡ ok (record { bytes = c ∷ [] }) → c ≡ 1
    fills p zero h = cc h
    fills p (suc zero) h = refl
    fills p (suc (suc c)) h = ground arith

-- Indexing returns the byte at each position below the length and fails at every other.
pub byte_at_lem :
    (b : ByteArray) (i : ℕ)
    → ((x : ℕ) → (byte_at b (pos i) ≡ ok x) ↔ (get_elem? b.bytes i ≡ some x))
      × (length b.bytes ≤ i → byte_at b (pos i) ≡ err fault)
      × (byte_at b (negsuc i) ≡ err fault)
unfolding byte_at
byte_at_lem b i =
    (λ x. (ground arith, λ h. ground (arith, get_elem?-lt b.bytes i h)), ground arith, refl)
