-- ===== src/Containers/ByteArray/Integers.antt =====
-- Byte arrays from integers and back.
use mathlib.Core.List.{append_assoc}
use ru_ble.Base.{
  ℕ, zero, suc, ◌+◌, ◌*◌, ◌%◌, ◌^◌, ◌≤◌, ◌<◌, ◌≡◌, refl, sym, ap, ◌↔◌, ◌≢◌, ◌-◌, ◌∙◌, true, false,
  List, [], ◌∷◌, ◌++◌, arith, length, length-append, take, replicate, All, All-append, All-take,
  All-replicate, ltb, length-take, length-replicate, take-append_of_le,
}
use ru_ble.Containers.ByteArray.Endian.{
  le_bytes, le_value, IsByte, length-le_bytes, le_bytes-IsByte, le_value-le_bytes,
  le_bytes-le_value, le_value-take, le_value-lt, le_value-append, le_value-replicate_zero, pow_pos,
  le_value-append_zero,
}
use ru_ble.Containers.ByteArray.{
  Platform, Converts, ByteArray, overwrite, from_unsigned, chars_per_val, to_i,
}

overwrite_all : (bs buffer : List ℕ) → length bs ≡ length buffer → overwrite bs buffer ≡ bs
overwrite_all [] [] h = refl
overwrite_all [] (c ∷ buffer) h = absurd (omega arith)
overwrite_all (b ∷ bs) [] h = absurd (omega arith)
overwrite_all (b ∷ bs) (c ∷ buffer) h = ap (◌∷◌ b) (overwrite_all bs buffer (omega arith))

chars_per_val_lem : (n : ℕ) → chars_per_val n ≡ n
unfolding chars_per_val
chars_per_val_lem n = ground arith

take_all : (n : ℕ) (xs : List ℕ) → length xs ≡ n → take n xs ≡ xs
take_all zero [] h = refl
take_all zero (x ∷ xs) h = absurd (omega arith)
take_all (suc n) [] h = refl
take_all (suc n) (x ∷ xs) h = ap (◌∷◌ x) (take_all n xs (omega arith))

take_zero_byte :
    (n : ℕ) (bs beyond : List ℕ) → length bs + 1 ≡ n → take n (bs ++ (0 ∷ beyond)) ≡ bs ++ (0 ∷ [])
take_zero_byte n bs beyond h = rw (← append_assoc bs (0 ∷ []) beyond) (
    take-append_of_le n (bs ++ (0 ∷ [])) beyond (omega (arith, length-append bs (0 ∷ [])))
    ∙ take_all n (bs ++ (0 ∷ [])) (omega (arith, length-append bs (0 ∷ []))))

le_one : (k : ℕ) → le_value (1 ∷ replicate k 0) ≡ 1
unfolding le_value
le_one k = omega (arith, le_value-replicate_zero k)

module _ (p : Platform) (c : Converts p) where
  -- The bytes of an integer of `n` bytes are its lowest `n` base-256 digits, lowest first, on every
  -- platform.
  pub from_unsigned_lem :
      (n v : ℕ) → v < 256 ^ n → from_unsigned p n v ≡ record { bytes = le_bytes n v }
  unfolding from_unsigned
  from_unsigned_lem n v h =
      rw (c.stores n v h, chars_per_val_lem n)
        (ap (λ bs. record { bytes = bs })
          (overwrite_all (le_bytes n v) (replicate n 0)
            (length-le_bytes n v ∙ sym (length-replicate n 0))))

  to_i_loads :
      (n : ℕ) (beyond : List ℕ) (b : ByteArray)
      → All IsByte b.bytes
      → All IsByte beyond
      → n ≤ length b.bytes + 1 + length beyond
      → (to_i p n beyond b).0 ≡ le_value (take n (b.bytes ++ (0 ∷ beyond)))
  unfolding to_i
  to_i_loads n beyond b hb hm h =
      c.loads n (take n (b.bytes ++ (0 ∷ beyond)))
        (omega (arith, length-take n (b.bytes ++ (0 ∷ beyond)), length-append b.bytes (0 ∷ beyond)))
        (All-take IsByte n _ (All-append IsByte b.bytes (0 ∷ beyond) hb (omega arith, hm)))

  to_i_pair :
      (n : ℕ) (beyond : List ℕ) (b : ByteArray) {v : ℕ}
      → (to_i p n beyond b).0 ≡ v
      → to_i p n beyond b ≡ (v, ltb n (length b.bytes))
  unfolding to_i
  to_i_pair n beyond b h = ground arith

  to_i_long :
      (n : ℕ) (b : ByteArray) (beyond : List ℕ)
      → All IsByte b.bytes
      → All IsByte beyond
      → n ≤ length b.bytes
      → to_i p n beyond b ≡ (le_value (take n b.bytes), ltb n (length b.bytes))
  to_i_long n b beyond hb hm h = to_i_pair n beyond b (
      to_i_loads n beyond b hb hm (omega arith)
      ∙ ap le_value (take-append_of_le n b.bytes (0 ∷ beyond) h))

  -- An unsigned integer of `n` bytes that became a byte array is read back with no warning, on every
  -- platform and whatever stands behind the string.
  pub to_i-from_unsigned :
      (n v : ℕ) (beyond : List ℕ)
      → v < 256 ^ n
      → All IsByte beyond
      → to_i p n beyond (from_unsigned p n v) ≡ (v, false)
  to_i-from_unsigned n v beyond h hm =
      rw
        (
          from_unsigned_lem n v h,
          to_i_long n (record { bytes = le_bytes n v }) beyond (le_bytes-IsByte n v) hm
              (omega (arith, length-le_bytes n v)),
          take_all n (le_bytes n v) (length-le_bytes n v),
          le_value-le_bytes n v h,
        )
        (ground (arith, length-le_bytes n v))

  -- A byte array is the one that its integer makes, read at its own length.
  pub from_unsigned-to_i :
      (b : ByteArray) (beyond : List ℕ)
      → All IsByte b.bytes
      → All IsByte beyond
      → from_unsigned p (length b.bytes) (to_i p (length b.bytes) beyond b).0 ≡ b
  from_unsigned-to_i b beyond hb hm =
      rw
        (
          to_i_long (length b.bytes) b beyond hb hm (omega arith),
          take_all (length b.bytes) b.bytes refl,
          from_unsigned_lem (length b.bytes) (le_value b.bytes) (le_value-lt b.bytes hb),
        )
        (ap (λ bs. record { bytes = bs }) (le_bytes-le_value b.bytes hb))

  -- Of `n` bytes or more `to_i` reads the lowest `n`: the number modulo 256 ^ n, with a warning
  -- exactly if there are more.
  pub to_i-mod :
      (n : ℕ) (b : ByteArray) (beyond : List ℕ)
      → All IsByte b.bytes
      → All IsByte beyond
      → n ≤ length b.bytes
      → ((to_i p n beyond b).0 ≡ le_value b.bytes % 256 ^ n)
        × (((to_i p n beyond b).1 ≡ true) ↔ (n < length b.bytes))
  to_i-mod n b beyond hb hm h =
      rw (to_i_long n b beyond hb hm h) (le_value-take n b.bytes hb, ground arith)

  -- Where the memory up to `n` bytes is given, all of it is read.
  to_i_exact :
      (n : ℕ) (b : ByteArray) (m : List ℕ)
      → All IsByte b.bytes
      → All IsByte m
      → length b.bytes + 1 + length m ≡ n
      → (to_i p n m b).0 ≡ le_value b.bytes + 256 ^ length b.bytes * (256 * le_value m)
  to_i_exact n b m hb hm h =
      to_i_loads n m b hb hm (omega arith)
      ∙ ap le_value (take_all n (b.bytes ++ (0 ∷ m)) (omega (arith, length-append b.bytes (0 ∷ m))))
      ∙ le_value-append b.bytes (0 ∷ m)
      ∙ unfold le_value in omega arith

  -- What `to_i` reads from a byte array that is shorter than its type: with one byte less it is the number of these bytes, the
  -- lowest first, with no warning, since the terminating zero of the string makes up for the missing one; with still fewer bytes there are
  -- two contents of the memory behind the string with which it differs.
  pub to_i_short :
      (n : ℕ) (b : ByteArray)
      → All IsByte b.bytes
      → (length b.bytes + 1 ≡ n
          → (beyond : List ℕ) → All IsByte beyond
          → to_i p n beyond b ≡ (le_value b.bytes, false))
        × (length b.bytes + 1 < n
            → (m m' : List ℕ) × All IsByte m
              × All IsByte m'
              × ((to_i p n m b).0 ≢ (to_i p n m' b).0))
  to_i_short n b hb = (
    λ e beyond hm.
        to_i_pair n beyond b (
          to_i_loads n beyond b hb hm (omega arith)
          ∙ ap le_value (take_zero_byte n b.bytes beyond e)
          ∙ le_value-append_zero b.bytes)
        ∙ ground arith,
    λ h.
        let k : ℕ = n - length b.bytes - 1 in
        (
          replicate k 0,
          1 ∷ replicate (k - 1) 0,
          All-replicate IsByte k 0 (omega arith),
          (omega arith, All-replicate IsByte (k - 1) 0 (omega arith)),
          λ e. omega (
            arith,
            sym (
                  to_i_exact n b (replicate k 0) hb (All-replicate IsByte k 0 (omega arith))
                    (omega (arith, length-replicate {A = ℕ} k 0)))
                ∙ e
                ∙ to_i_exact n b (1 ∷ replicate (k - 1) 0) hb
                    (omega arith, All-replicate IsByte (k - 1) 0 (omega arith))
                    (omega (arith, length-replicate {A = ℕ} (k - 1) 0)),
            ap (λ (t : ℕ). 256 ^ length b.bytes * (256 * t)) (le_value-replicate_zero k),
            ap (λ (t : ℕ). 256 ^ length b.bytes * (256 * t)) (le_one (k - 1)),
            pow_pos (length b.bytes),
          ),
        ),
  )
