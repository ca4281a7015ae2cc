-- ===== src/Utils/Hexadecimal/Digits.antt =====
-- Reading hexadecimal digits.
use native.Mathlib.Nat.{pow-suc}
use ru_ble.Base.{
  ℕ, zero, suc, ◌+◌, ◌-◌, ◌*◌, ◌/◌, ◌%◌, ◌^◌, ◌≤◌, ◌<◌, ◌≡◌, refl, ◌&&◌, Option, none, some, [],
  ◌∷◌, ◌++◌, arith, ltb, leb, if◌then◌else◌, length, length-append, replicate, Bool-cases,
  Option-cases, inl, inr,
}
use ru_ble.Base.Texts.{Text}
use ru_ble.Utils.Hexadecimal.{digit, digits}

unfoldable pub digit_value : ℕ → Option ℕ
digit_value c =
    if leb 48 c && leb c 57
    then some (c - 48)
    else if leb 97 c && leb c 102
    then some (c - 87)
    else none

pub digit_value-digit : (d : ℕ) → d < 16 → digit_value (digit d) ≡ some d
unfolding digit_value
digit_value-digit d h = ground arith

-- The number that a text of digits stands for, behind the digits of `acc`.
unfoldable pub read_hex : ℕ → Text → Option ℕ
read_hex acc [] = some acc
read_hex acc (c ∷ t) = elim (digit_value c) [ none ↦ none | some d ↦ read_hex (acc * 16 + d) t ]

pub read_hex-append :
    (acc n : ℕ) (s t : Text) → read_hex acc s ≡ some n → read_hex acc (s ++ t) ≡ read_hex n t
unfolding read_hex
read_hex-append acc n [] t h = ground arith
read_hex-append acc n (c ∷ s) t h = elim (Option-cases (digit_value c)) [
  | inl e ↦ ground arith
  | inr (d, e) ↦ ground (arith, read_hex-append (acc * 16 + d) n s t)
]

pub read_hex_zeros : (k : ℕ) → read_hex 0 (replicate k b'0') ≡ some 0
unfolding read_hex digit_value
read_hex_zeros zero = refl
read_hex_zeros (suc k) = read_hex_zeros k

some_digit : (fuel num : ℕ) → num < 16 ^ suc fuel → 16 ≤ num → 0 < fuel
some_digit zero num h k = absurd (omega arith)
some_digit (suc fuel) num h k = omega arith

pub read_hex-digits :
    (fuel num : ℕ)
    → num < 16 ^ fuel
    → 0 < fuel
    → (read_hex 0 (digits fuel num) ≡ some num)
      × (0 < length (digits fuel num))
      × (length (digits fuel num) ≤ fuel)
unfolding digits read_hex
read_hex-digits zero num h k = absurd (omega arith)
read_hex-digits (suc fuel) num h k = elim (Bool-cases (ltb num 16)) [
  | inl small ↦ ground (arith, digit_value-digit num)
  | inr large ↦
      let more : 0 < fuel = some_digit fuel num h (ground arith) in
      let (e, a, b) = read_hex-digits fuel (num / 16) (omega (arith, pow-suc 16 fuel)) more in
      ground (
        arith,
        e,
        read_hex-append 0 (num / 16) (digits fuel (num / 16)) (digit (num % 16) ∷ []) e,
        digit_value-digit (num % 16),
        length-append (digits fuel (num / 16)) (digit (num % 16) ∷ []),
      )
]
