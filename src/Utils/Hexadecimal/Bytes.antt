-- ===== src/Utils/Hexadecimal/Bytes.antt =====
-- Bytes in hexadecimal, and which bytes look the same.
use ru_ble.Base.{
  ℕ, ◌-◌, ◌<◌, ◌≡◌, refl, sym, ap, ◌∙◌, ◌↔◌, Bool, true, false, List, [], ◌∷◌, ◌++◌, arith, ◌==◌,
  if◌then◌else◌, length, All,
}
use ru_ble.Base.Texts.{Text, codes}
use ru_ble.Containers.ByteArray.Endian.{IsByte}
use ru_ble.Utils.Hexadecimal.{Boost, WritesHex, drop_nulls, range_to_hex_data, to_hex_data, range}
use ru_ble.Utils.Hexadecimal.Numbers.{prefix_if}

module _ (boost : Boost) (w : WritesHex boost) where
  hex_lower-injective :
      (a b : List ℕ) → All IsByte a → All IsByte b → boost.hex_lower a ≡ boost.hex_lower b → a ≡ b
  hex_lower-injective [] [] h k e = refl
  hex_lower-injective [] (y ∷ ys) h k e = ground (arith, w.nothing, w.byte y ys)
  hex_lower-injective (x ∷ xs) [] h k e = ground (arith, w.nothing, w.byte x xs)
  hex_lower-injective (x ∷ xs) (y ∷ ys) h k e =
      ground (arith, w.byte x xs, w.byte y ys, hex_lower-injective xs ys h.1 k.1)

  drop_nulls-IsByte : (a : List ℕ) → All IsByte a → All IsByte (drop_nulls a)
  unfolding drop_nulls
  drop_nulls-IsByte [] h = tt
  drop_nulls-IsByte (x ∷ xs) h = ground (arith, drop_nulls-IsByte xs h.1)

  -- The digits behind the prefix.
  body_of : List ℕ → Text
  body_of [] = codes "00"
  body_of (b ∷ bs) = boost.hex_lower (b ∷ bs)

  with_body :
      (prefix : Bool) (ds : List ℕ)
      → (let output = prefix_if prefix ++ boost.hex_lower ds in
          if length output - (if prefix then 2 else 0) == 0 then output ++ codes "00" else output)
        ≡ prefix_if prefix ++ body_of ds
  unfolding body_of
  with_body true [] = ground (arith, w.nothing)
  with_body false [] = ground (arith, w.nothing)
  with_body true (b ∷ bs) = ground (arith, w.byte b bs)
  with_body false (b ∷ bs) = ground (arith, w.byte b bs)

  range_lem :
      (prefix : Bool) (a : List ℕ)
      → range_to_hex_data boost prefix a ≡ prefix_if prefix ++ body_of (drop_nulls a)
  unfolding range_to_hex_data
  range_lem prefix a = with_body prefix (drop_nulls a)

  abbrev HasHead : List ℕ → Type 0
  HasHead [] = Unit
  HasHead (b ∷ bs) = 0 < b

  drop_nulls-HasHead : (a : List ℕ) → HasHead (drop_nulls a)
  unfolding drop_nulls
  drop_nulls-HasHead [] = tt
  drop_nulls-HasHead (b ∷ bs) = ground (arith, drop_nulls-HasHead bs)

  body_of-injective :
      (a b : List ℕ)
      → All IsByte a
      → All IsByte b
      → HasHead a
      → HasHead b
      → body_of a ≡ body_of b
      → a ≡ b
  unfolding body_of
  body_of-injective [] [] h k p q e = refl
  body_of-injective [] (y ∷ ys) h k p q e = ground (arith, w.byte y ys)
  body_of-injective (x ∷ xs) [] h k p q e = ground (arith, w.byte x xs)
  body_of-injective (x ∷ xs) (y ∷ ys) h k p q e = hex_lower-injective (x ∷ xs) (y ∷ ys) h k e

  prefix_cancel :
      (prefix : Bool) (s t : Text) → prefix_if prefix ++ s ≡ prefix_if prefix ++ t → s ≡ t
  prefix_cancel true s t e = cc
  prefix_cancel false s t e = e

  -- Two sequences of bytes have the same hexadecimal data, with the prefix or without, exactly if they are the same but for
  -- null bytes at the front: those are not written. `to_hex_data` writes the prefix whether it is asked for or not.
  pub hex_data_iff :
      (prefix : Bool) (a b : List ℕ)
      → All IsByte a
      → All IsByte b
      → ((range_to_hex_data boost prefix a ≡ range_to_hex_data boost prefix b)
          ↔ (drop_nulls a ≡ drop_nulls b))
        × (to_hex_data boost prefix (range a) ≡ range_to_hex_data boost true a)
  unfolding to_hex_data
  hex_data_iff prefix a b h k = (
    (
      (λ e.
          body_of-injective (drop_nulls a) (drop_nulls b) (drop_nulls-IsByte a h)
            (drop_nulls-IsByte b k) (drop_nulls-HasHead a) (drop_nulls-HasHead b)
            (prefix_cancel prefix (body_of (drop_nulls a)) (body_of (drop_nulls b))
              (sym (range_lem prefix a) ∙ e ∙ range_lem prefix b))),
      λ e.
          range_lem prefix a
          ∙ ap (λ (ds : List ℕ). prefix_if prefix ++ body_of ds) e
          ∙ sym (range_lem prefix b),
    ),
    refl,
  )
