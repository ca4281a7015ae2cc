-- ===== src/Base/Texts.antt =====
-- `std::string` and `std::string_view` as lists of bytes, with their equality and their order.
use Prim.Native.Nat.{ℕ, compare, Ordering}
use Prim.Native.Char.{code}
use Prim.Native.String.{String}
use mathlib.Core.Path.{◌≡◌, refl}
use mathlib.Core.Logic.{◌↔◌}
use mathlib.Core.Bool.{Bool, true, false, ◌&&◌}
use mathlib.Core.List.{List, [], ◌∷◌}
use native.Mathlib.Omega.{arith}
use ru_ble.Base.Tests.{◌==◌}

abbrev pub Text : Type 0
Text = List ℕ

-- The bytes of an ASCII literal.
abbrev pub codes : String → Text
codes String.[] = []
codes (String.◌∷◌ c s) = code c ∷ codes s

-- `operator==` of `std::string`.
unfoldable pub text_eq : Text → Text → Bool
text_eq [] [] = true
text_eq [] (b ∷ t) = false
text_eq (a ∷ s) [] = false
text_eq (a ∷ s) (b ∷ t) = a == b && text_eq s t

pub text_eq→eq : (s t : Text) → text_eq s t ≡ true → s ≡ t
unfolding text_eq
text_eq→eq [] [] h = refl
text_eq→eq [] (b ∷ t) h = cc
text_eq→eq (a ∷ s) [] h = cc
text_eq→eq (a ∷ s) (b ∷ t) h = ground (arith, text_eq→eq s t)

pub text_eq_refl : (s : Text) → text_eq s s ≡ true
unfolding text_eq
text_eq_refl [] = refl
text_eq_refl (a ∷ s) = ground (arith, text_eq_refl s)

pub text_eq_iff : (s t : Text) → (text_eq s t ≡ true) ↔ (s ≡ t)
text_eq_iff s t = (text_eq→eq s t, λ e. rw e (text_eq_refl t))

-- `operator<=>` of `std::string`: lexicographic in the bytes as unsigned numbers.
unfoldable pub compare_text : Text → Text → Ordering
compare_text [] [] = Ordering.eq
compare_text [] (b ∷ t) = Ordering.lt
compare_text (a ∷ s) [] = Ordering.gt
compare_text (a ∷ s) (b ∷ t) = elim (compare a b) [
  | Ordering.lt ↦ Ordering.lt
  | Ordering.gt ↦ Ordering.gt
  | Ordering.eq ↦ compare_text s t
]

abbrev pub Before : Text → Text → Type 0
Before s t = compare_text s t ≡ Ordering.lt

pub compare_text-eq : (s t : Text) → compare_text s t ≡ Ordering.eq → s ≡ t
unfolding compare_text
compare_text-eq [] [] h = refl
compare_text-eq [] (b ∷ t) h = cc
compare_text-eq (a ∷ s) [] h = cc
compare_text-eq (a ∷ s) (b ∷ t) h = ground (arith, compare_text-eq s t)

pub compare_text_refl : (s : Text) → compare_text s s ≡ Ordering.eq
unfolding compare_text
compare_text_refl [] = refl
compare_text_refl (a ∷ s) = ground (arith, compare_text_refl s)

pub compare_text-gt : (s t : Text) → compare_text s t ≡ Ordering.gt → Before t s
unfolding compare_text
compare_text-gt [] [] h = cc
compare_text-gt [] (b ∷ t) h = cc
compare_text-gt (a ∷ s) [] h = refl
compare_text-gt (a ∷ s) (b ∷ t) h = ground (arith, compare_text-gt s t)

pub compare_text-lt : (s t : Text) → Before s t → compare_text t s ≡ Ordering.gt
unfolding compare_text
compare_text-lt [] [] h = cc
compare_text-lt [] (b ∷ t) h = refl
compare_text-lt (a ∷ s) [] h = cc
compare_text-lt (a ∷ s) (b ∷ t) h = ground (arith, compare_text-lt s t)

pub Before-trans : (s t u : Text) → Before s t → Before t u → Before s u
unfolding compare_text
Before-trans [] [] u h k = cc
Before-trans [] (b ∷ t) [] h k = cc
Before-trans [] (b ∷ t) (c ∷ u) h k = refl
Before-trans (a ∷ s) [] u h k = cc
Before-trans (a ∷ s) (b ∷ t) [] h k = cc
Before-trans (a ∷ s) (b ∷ t) (c ∷ u) h k = ground (arith, Before-trans s t u)
