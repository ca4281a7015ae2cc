-- ===== src/Utils/Hexadecimal/Numbers.antt =====
-- Numbers and addresses in hexadecimal, read back.
use ru_ble.Base.{
  ℕ, ◌+◌, ◌-◌, ◌*◌, ◌^◌, ◌<◌, ◌≡◌, refl, Bool, true, false, some, List, ◌++◌, arith, if◌then◌else◌,
  length, length-append, length-replicate, replicate, max, [], ap, ◌∙◌,
}
use ru_ble.Base.Texts.{Text}
use ru_ble.Utils.Hexadecimal.{
  digits, format_hex, ref_to_hex_string, to_hex_string, to_hex_addr, hex_string_prefix, Addressed,
  pointer, shared_pointer, ruby_object, other_object, hex_addr_of, sptr_to_hex_addr, rb_to_hex_addr,
  ref_to_hex_addr,
}
use ru_ble.Utils.Hexadecimal.Digits.{read_hex, read_hex-append, read_hex_zeros, read_hex-digits}

abbrev pub prefix_if : Bool → Text
prefix_if prefix = if prefix then hex_string_prefix else []

abbrev filled : ℕ → ℕ → Text
filled size num =
    replicate (size * 2 - length (digits (size * 2) num)) b'0' ++ digits (size * 2) num

filled_lem :
    (size num : ℕ)
    → 0 < size
    → num < 16 ^ (size * 2)
    → (length (filled size num) ≡ size * 2) × (read_hex 0 (filled size num) ≡ some num)
filled_lem size num k h =
    let ds : List ℕ = digits (size * 2) num in
    let zeros : List ℕ = replicate (size * 2 - length ds) b'0' in
    let (e, a, b) = read_hex-digits (size * 2) num h (omega arith) in
    (
      omega (arith, length-append zeros ds, length-replicate {A = ℕ} (size * 2 - length ds) b'0'),
      read_hex-append 0 0 zeros ds (read_hex_zeros (size * 2 - length ds)) ∙ e,
    )

ref_lem :
    (prefix : Bool) (size num : ℕ)
    → 0 < size
    → ref_to_hex_string prefix size num ≡ prefix_if prefix ++ filled size num
unfolding ref_to_hex_string format_hex
ref_lem true size num k =
    let e : max 2 (size * 2) + 2 - (2 + length (digits (size * 2) num))
        ≡ size * 2 - length (digits (size * 2) num) =
      omega arith in
    ap (λ (n : ℕ). hex_string_prefix ++ (replicate n b'0' ++ digits (size * 2) num)) e
ref_lem false size num k =
    let e : max 2 (size * 2) + 0 - (0 + length (digits (size * 2) num))
        ≡ size * 2 - length (digits (size * 2) num) =
      omega arith in
    ap (λ (n : ℕ). replicate n b'0' ++ digits (size * 2) num) e

abbrev pub address_of : Addressed → ℕ
address_of (pointer ptr) = ptr
address_of (shared_pointer get) = get
address_of (ruby_object value) = value
address_of (other_object address) = address

hex_addr_of_lem :
    (prefix : Bool) (x : Addressed) → hex_addr_of prefix x ≡ ref_to_hex_string true 8 (address_of x)
unfolding hex_addr_of sptr_to_hex_addr rb_to_hex_addr ref_to_hex_addr to_hex_addr to_hex_string
hex_addr_of_lem prefix (pointer ptr) = refl
hex_addr_of_lem prefix (shared_pointer get) = refl
hex_addr_of_lem prefix (ruby_object value) = refl
hex_addr_of_lem prefix (other_object address) = refl

-- A number of a type of `size` bytes is written with two digits for each byte of the type, behind `0x` if the prefix is
-- asked for, and reading the digits gives the number back. `to_hex_string` and `to_hex_addr` write the prefix whether it is
-- asked for or not; the address of a pointer, of a shared pointer, of an object of Ruby or of any other object is
-- written as a number of eight bytes.
pub hex_string_lem :
    (prefix : Bool) (size num : ℕ) (x : Addressed)
    → 0 < size
    → num < 16 ^ (size * 2)
    → (body : Text) × (ref_to_hex_string prefix size num ≡ prefix_if prefix ++ body)
      × (length body ≡ size * 2)
      × (read_hex 0 body ≡ some num)
      × (to_hex_string prefix size num ≡ hex_string_prefix ++ body)
      × (hex_addr_of prefix x ≡ ref_to_hex_string true 8 (address_of x))
unfolding ref_to_hex_string format_hex to_hex_string
hex_string_lem prefix size num x k h =
    let (a, b) = filled_lem size num k h in
    (
      filled size num,
      ref_lem prefix size num k,
      a,
      b,
      ref_lem true size num k,
      hex_addr_of_lem prefix x,
    )
