-- ===== src/Containers/ByteArray/Comparison.antt =====
-- Comparisons of byte arrays, and the operators that go through `to_i`.
use ru_ble.Base.{
  ℕ, ◌+◌, ◌-◌, ◌%◌, ◌^◌, ◌<◌, ◌≡◌, ◌≢◌, ap, ◌↔◌, Ordering, true, List, arith, All, ok, err, fault,
  pos, negsuc,
}
use ru_ble.Base.Texts.{
  Text, compare_text, compare_text-eq, compare_text_refl, compare_text-gt, compare_text-lt,
  Before-trans,
}
use ru_ble.Containers.ByteArray.Endian.{IsByte}
use ru_ble.Containers.ByteArray.{
  Platform, Converts, ByteArray, to_i, op_mod, op_not, op_complement, compare_int, spaceship,
  equals, differs, from_unsigned, sizeof_default,
}
use ru_ble.Containers.ByteArray.Integers.{to_i-from_unsigned}

compare_text_self : (s t : Text) → s ≡ t → compare_text s t ≡ Ordering.eq
compare_text_self s t e = rw e (compare_text_refl t)

equals_lem : (a b : ByteArray) → (equals a b ≡ true) ↔ (a ≡ b)
unfolding equals spaceship
equals_lem a b = (
  ground (arith, compare_text-eq a.bytes b.bytes),
  ground (arith, compare_text_self a.bytes b.bytes),
)

-- `==` holds exactly between byte arrays with the same bytes, and `!=` exactly between others.
pub equals_iff :
    (a b : ByteArray) → ((equals a b ≡ true) ↔ (a ≡ b)) × ((differs a b ≡ true) ↔ (a ≢ b))
unfolding differs
equals_iff a b =
    (equals_lem a b, (ground (arith, (equals_lem a b).1), ground (arith, (equals_lem a b).0)))

-- `<=>` is a total order that `==` agrees with: it is antisymmetric and transitive.
pub spaceship_order :
    (a b c : ByteArray)
    → ((spaceship a b ≡ Ordering.gt) ↔ (spaceship b a ≡ Ordering.lt))
      × (spaceship a b ≡ Ordering.lt → spaceship b c ≡ Ordering.lt → spaceship a c ≡ Ordering.lt)
      × ((spaceship a b ≡ Ordering.eq) ↔ (equals a b ≡ true))
unfolding equals spaceship
spaceship_order a b c = (
  (compare_text-gt a.bytes b.bytes, compare_text-lt b.bytes a.bytes),
  Before-trans a.bytes b.bytes c.bytes,
  ground arith,
)

-- The operators on a byte array that was made from a 64-bit integer `v`, on every platform: `<=>`
-- compares `v`, `~` is its complement, `%` its remainder and a fault for a zero divisor, and `!` is
-- true exactly if `v` is not zero.
pub operators_of_unsigned :
    (p : Platform)
    → Converts p
    → (v other : ℕ) (beyond : List ℕ) → v < 2 ^ 64
    → All IsByte beyond
    → let b = from_unsigned p sizeof_default v in
      ((compare_int p beyond b other ≡ negsuc 0) ↔ (v < other))
      × ((compare_int p beyond b other ≡ pos 0) ↔ (v ≡ other))
      × ((compare_int p beyond b other ≡ pos 1) ↔ (other < v))
      × (op_complement p beyond b + v ≡ 2 ^ 64 - 1)
      × (op_mod p beyond b 0 ≡ err fault)
      × (0 < other → op_mod p beyond b other ≡ ok (v % other))
      × ((op_not p beyond b ≡ true) ↔ (v ≢ 0))
unfolding compare_int op_complement op_mod op_not
operators_of_unsigned p c v other beyond h hm =
    let e : (to_i p 8 beyond (from_unsigned p 8 v)).0 ≡ v =
      ap (λ r. r.0) (to_i-from_unsigned p c 8 v beyond h hm) in
    (
      ground arith,
      ground arith,
      ground arith,
      omega arith,
      ground arith,
      ground arith,
      ground arith,
    )
