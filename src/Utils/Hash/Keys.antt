-- ===== src/Utils/Hash/Keys.antt =====
-- Which objects have the same hash.
use ru_ble.Base.{ℕ, ◌*◌, ◌%◌, ◌^◌, ◌≡◌, ap, arith, bit_xor, ◌↔◌}
use ru_ble.Base.Texts.{Text}
use ru_ble.Utils.Hash.{combine, hash_simple, hash_wrapped}
use ru_ble.Utils.Hash.Xor.{xor_mod_iff}

-- The highest bit of the second hash is lost, and no other.
pub combine_iff : (h1 a b : ℕ) → (combine h1 a ≡ combine h1 b) ↔ (a % 2 ^ 63 ≡ b % 2 ^ 63)
unfolding combine
combine_iff h1 a b =
    let (back, forth) = xor_mod_iff 64 h1 ((a * 2) % 2 ^ 64) ((b * 2) % 2 ^ 64) in
    (
      λ e. let same = back (ap (λ (n : ℕ). n % 2 ^ 64) e) in omega (arith, same),
      λ e. ap (bit_xor h1) (omega (arith, e)),
    )

combine_mod_iff :
    (h1 a b : ℕ) → (combine h1 a % 2 ^ 63 ≡ combine h1 b % 2 ^ 63) ↔ (a % 2 ^ 62 ≡ b % 2 ^ 62)
unfolding combine
combine_mod_iff h1 a b =
    let (back, forth) = xor_mod_iff 63 h1 ((a * 2) % 2 ^ 64) ((b * 2) % 2 ^ 64) in
    (λ e. let same = back e in omega (arith, same), λ e. forth (omega (arith, e)))

-- The hashes of two objects are the same if and only if those of their strings agree in all but the two highest of 64
-- bits.
pub hash_wrapped_iff :
    (hasher : Text → ℕ) (type_code simple_code : ℕ) (s t : Text)
    → (hash_wrapped hasher type_code simple_code s ≡ hash_wrapped hasher type_code simple_code t)
      ↔ (hasher s % 2 ^ 62 ≡ hasher t % 2 ^ 62)
unfolding hash_wrapped hash_simple
hash_wrapped_iff hasher type_code simple_code s t =
    let (back, forth) =
      combine_iff type_code (combine simple_code (hasher s)) (combine simple_code (hasher t)) in
    let (back', forth') = combine_mod_iff simple_code (hasher s) (hasher t) in
    (λ e. back' (back e), λ e. forth (forth' e))
