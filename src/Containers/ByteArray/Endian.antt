-- ===== src/Containers/ByteArray/Endian.antt =====
-- Unsigned integers as bytes, the lowest byte first.
use native.Mathlib.Nat.{pow-suc, mod-eq_of_lt, add-mul-mod_self_right}
use ru_ble.Base.{
  ℕ, zero, suc, ◌+◌, ◌*◌, ◌/◌, ◌%◌, ◌^◌, ◌<◌, ◌≡◌, refl, sym, ap, ap₂, ◌∙◌, List, [], ◌∷◌, ◌++◌,
  arith, length, take, replicate, All,
}

abbrev pub IsByte : ℕ → Type 0
IsByte b = b < 256

-- The lowest `n` bytes of `v`.
unfoldable pub le_bytes : ℕ → ℕ → List ℕ
le_bytes zero v = []
le_bytes (suc n) v = (v % 256) ∷ le_bytes n (v / 256)

unfoldable pub le_value : List ℕ → ℕ
le_value [] = 0
le_value (b ∷ bs) = b + 256 * le_value bs

pub length-le_bytes : (n v : ℕ) → length (le_bytes n v) ≡ n
unfolding le_bytes
length-le_bytes zero v = refl
length-le_bytes (suc n) v = ap suc (length-le_bytes n (v / 256))

pub le_bytes-IsByte : (n v : ℕ) → All IsByte (le_bytes n v)
unfolding le_bytes
le_bytes-IsByte zero v = tt
le_bytes-IsByte (suc n) v = (omega arith, le_bytes-IsByte n (v / 256))

pub le_value-le_bytes : (n v : ℕ) → v < 256 ^ n → le_value (le_bytes n v) ≡ v
unfolding le_bytes le_value
le_value-le_bytes zero v h = omega arith
le_value-le_bytes (suc n) v h = omega (arith, pow-suc 256 n, le_value-le_bytes n (v / 256))

pub le_bytes-le_value : (bs : List ℕ) → All IsByte bs → le_bytes (length bs) (le_value bs) ≡ bs
unfolding le_bytes le_value
le_bytes-le_value [] h = refl
le_bytes-le_value (b ∷ bs) h =
    ap₂ ◌∷◌ (omega arith) (ap (le_bytes (length bs)) (omega arith) ∙ le_bytes-le_value bs h.1)

pub le_value-lt : (bs : List ℕ) → All IsByte bs → le_value bs < 256 ^ length bs
unfolding le_value
le_value-lt [] h = omega arith
le_value-lt (b ∷ bs) h = omega (arith, pow-suc 256 (length bs), le_value-lt bs h.1)

mod_unique : (x q m r : ℕ) → x ≡ r + q * m → r < m → r ≡ x % m
mod_unique x q m r e h = sym (rw (e, add-mul-mod_self_right r q m) (mod-eq_of_lt h))

-- The bytes from place `n` on.
le_rest : ℕ → List ℕ → ℕ
unfolding le_value
le_rest zero bs = le_value bs
le_rest (suc n) [] = 0
le_rest (suc n) (b ∷ bs) = le_rest n bs

le_value_split :
    (n : ℕ) (bs : List ℕ)
    → All IsByte bs
    → (le_value bs ≡ le_value (take n bs) + le_rest n bs * 256 ^ n)
      × (le_value (take n bs) < 256 ^ n)
unfolding le_value le_rest
le_value_split zero bs h = omega arith
le_value_split (suc n) [] h = omega (arith, pow-suc 256 n, le_value_split n [] tt)
le_value_split (suc n) (b ∷ bs) h = omega (
  arith,
  ap (λ (t : ℕ). le_rest n bs * t) (pow-suc 256 n),
  pow-suc 256 n,
  le_value_split n bs h.1,
)

-- Reading only the lowest `n` bytes reduces the number modulo 256 ^ n.
pub le_value-take :
    (n : ℕ) (bs : List ℕ) → All IsByte bs → le_value (take n bs) ≡ le_value bs % 256 ^ n
le_value-take n bs h =
    let (e, lt) = le_value_split n bs h in
    mod_unique (le_value bs) (le_rest n bs) (256 ^ n) (le_value (take n bs)) e lt

-- A zero byte at the top changes nothing.
pub le_value-append_zero : (bs : List ℕ) → le_value (bs ++ (0 ∷ [])) ≡ le_value bs
unfolding le_value
le_value-append_zero [] = refl
le_value-append_zero (b ∷ bs) = omega (arith, le_value-append_zero bs)

pub le_value-append :
    (xs ys : List ℕ) → le_value (xs ++ ys) ≡ le_value xs + 256 ^ length xs * le_value ys
unfolding le_value
le_value-append [] ys = omega arith
le_value-append (x ∷ xs) ys =
    omega (arith, ap (λ (t : ℕ). t * le_value ys) (pow-suc 256 (length xs)), le_value-append xs ys)

pub le_value-replicate_zero : (k : ℕ) → le_value (replicate k 0) ≡ 0
unfolding le_value
le_value-replicate_zero zero = refl
le_value-replicate_zero (suc k) = omega (arith, le_value-replicate_zero k)

pub pow_pos : (n : ℕ) → 0 < 256 ^ n
pow_pos zero = omega arith
pow_pos (suc n) = omega (arith, pow-suc 256 n, pow_pos n)
