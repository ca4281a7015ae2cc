-- ===== src/Utils/Hash/Xor.antt =====
-- Exclusive or of the lowest bits of two numbers.
use Prim.Native.Nat.{bit_xor-bitwise}
use Prim.Native.Nat
use native.Mathlib.Numerals.{unary_clauses}
use ru_ble.Base.{
  ℕ, zero, suc, ◌+◌, ◌*◌, ◌/◌, ◌%◌, ◌^◌, ◌≤◌, ◌<◌, ◌≡◌, refl, sym, ap, ◌∙◌, arith, bit_xor, ◌↔◌,
}

abbrev differ : ℕ → ℕ → ℕ
differ = Nat.differ

-- The digits of an exclusive or, as many as `n` of them.
abbrev xor_digits : ℕ → ℕ → ℕ → ℕ
xor_digits n h a = Nat.digits (λ b. b) Nat.differ n h a

-- Any count that is enough gives the same.
xor_digits_enough : (n m h a : ℕ) → h ≤ n → h ≤ m → xor_digits n h a ≡ xor_digits m h a
xor_digits_enough zero zero h a p q = refl
xor_digits_enough zero (suc m) zero a p q = refl
xor_digits_enough zero (suc m) (suc h) a p q = absurd (omega arith)
xor_digits_enough (suc n) zero zero a p q = refl
xor_digits_enough (suc n) zero (suc h) a p q = absurd (omega arith)
xor_digits_enough (suc n) (suc m) zero a p q = refl
xor_digits_enough (suc n) (suc m) (suc h) a p q =
    omega (arith, xor_digits_enough n m (suc h / 2) (a / 2) (omega arith) (omega arith))

xor_zero : (a : ℕ) → bit_xor 0 a ≡ a
xor_zero a = bit_xor-bitwise 0 a

xor_step : (h a : ℕ) → bit_xor h a ≡ bit_xor (h / 2) (a / 2) * 2 + differ (h % 2) (a % 2)
xor_step zero a = omega (arith, xor_zero a, xor_zero (a / 2))
xor_step (suc h) a = omega (
  arith,
  bit_xor-bitwise (suc h) a,
  bit_xor-bitwise (suc h / 2) (a / 2),
  xor_digits_enough h (suc h / 2) (suc h / 2) (a / 2) (omega arith) (omega arith),
)

mod_double : (m x : ℕ) → 0 < m → x % (m * 2) ≡ (x / 2 % m) * 2 + x % 2
mod_double m x h = grind arith

pow-pos : (k : ℕ) → 0 < 2 ^ k
pow-pos zero = omega arith
pow-pos (suc k) = omega (arith, pow-pos k)

mod_suc : (k x : ℕ) → x % 2 ^ suc k ≡ (x / 2 % 2 ^ k) * 2 + x % 2
mod_suc k x = simp unary_clauses (mod_double (2 ^ k) x (pow-pos k))

differ-lt : (h a : ℕ) → differ (h % 2) (a % 2) < 2
differ-lt h a = grind arith

differ_cancel : (h a b : ℕ) → differ (h % 2) (a % 2) ≡ differ (h % 2) (b % 2) → a % 2 ≡ b % 2
differ_cancel h a b e = grind arith

mod_suc_iff :
    (k x y : ℕ)
    → (x % 2 ^ suc k ≡ y % 2 ^ suc k) ↔ ((x / 2 % 2 ^ k ≡ y / 2 % 2 ^ k) × (x % 2 ≡ y % 2))
mod_suc_iff k x y = (
  λ e. (omega (arith, e, mod_suc k x, mod_suc k y), omega (arith, e, mod_suc k x, mod_suc k y)),
  λ e. omega (arith, e.0, e.1, mod_suc k x, mod_suc k y),
)

xor_half :
    (h a : ℕ)
    → (bit_xor h a / 2 ≡ bit_xor (h / 2) (a / 2)) × (bit_xor h a % 2 ≡ differ (h % 2) (a % 2))
xor_half h a =
    (omega (arith, xor_step h a, differ-lt h a), omega (arith, xor_step h a, differ-lt h a))

-- An exclusive or with the same number keeps apart what differs in the lowest bits, and nothing else.
pub xor_mod_iff :
    (k h a b : ℕ) → (bit_xor h a % 2 ^ k ≡ bit_xor h b % 2 ^ k) ↔ (a % 2 ^ k ≡ b % 2 ^ k)
xor_mod_iff zero h a b = (λ e. omega arith, λ e. omega arith)
xor_mod_iff (suc k) h a b =
    let (back, forth) = xor_mod_iff k (h / 2) (a / 2) (b / 2) in
    let (xa, da) = xor_half h a in
    let (xb, db) = xor_half h b in
    (
      λ e.
          let (halves, lowest) = (mod_suc_iff k (bit_xor h a) (bit_xor h b)).0 e in
          (mod_suc_iff k a b).1
            (back (rw (xa, xb) at halves), differ_cancel h a b (sym da ∙ (lowest ∙ db))),
      λ e.
          let (halves, lowest) = (mod_suc_iff k a b).0 e in
          (mod_suc_iff k (bit_xor h a) (bit_xor h b)).1
            (rw (xa, xb) (forth halves), da ∙ (ap (differ (h % 2)) lowest ∙ sym db)),
    )
