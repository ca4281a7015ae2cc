-- ===== src/Utils/RubyContext/Guards.antt =====
-- What the counter counts.
use ru_ble.Base.{
  ℕ, zero, suc, ◌+◌, ◌%◌, ◌<◌, ◌≡◌, ◌≢◌, refl, ◌↔◌, ◌⊎◌, Bool, true, false, Option, none, some,
  List, [], ◌∷◌, ◌++◌, arith, length, set,
}
use ru_ble.Utils.RubyContext.{
  InRuby, state, word, new_guard, assert_in_ruby_guard, move_assign, move_construct, destroy, holds,
}

abbrev pub one_if : Bool → ℕ
one_if true = 1
one_if false = 0

abbrev pub held_by : Option Bool → ℕ
held_by none = 0
held_by (some b) = one_if b

-- How many live guards hold the counter.
unfoldable pub held : List (Option Bool) → ℕ
held [] = 0
held (g ∷ gs) = held_by g + held gs

unfoldable pub is_live : List (Option Bool) → ℕ → Bool
is_live [] i = false
is_live (none ∷ gs) zero = false
is_live (some b ∷ gs) zero = true
is_live (g ∷ gs) (suc i) = is_live gs i

-- A program that makes, moves and destroys guards, and how many of its moves were from a guard that
-- held the counter.
pub data Reached : InRuby → ℕ → Type 0 where
  start : Reached (record { use_count = 0; guards = [] }) 0
  made : {r : InRuby} {n : ℕ} → Reached r n → Reached (new_guard r) n
  asserted : {r : InRuby} {n : ℕ} → Reached r n → Reached (assert_in_ruby_guard r) n
  assigned :
      {r : InRuby} {n : ℕ} (i j : ℕ)
      → is_live r.guards i ≡ true
      → is_live r.guards j ≡ true
      → i ≢ j
      → Reached r n
      → Reached (move_assign r i j) (n + one_if (holds r.guards j))
  constructed :
      {r : InRuby} {n : ℕ} (j : ℕ)
      → is_live r.guards j ≡ true
      → Reached r n
      → Reached (move_construct r j) (n + one_if (holds r.guards j))
  destroyed :
      {r : InRuby} {n : ℕ} (i : ℕ)
      → is_live r.guards i ≡ true
      → Reached r n
      → Reached (destroy r i) n

held-append :
    (gs : List (Option Bool)) (g : Option Bool) → held (gs ++ (g ∷ [])) ≡ held gs + held_by g
unfolding held
held-append [] g = omega arith
held-append (h ∷ gs) g = omega (arith, held-append gs g)

held-set :
    (gs : List (Option Bool)) (i : ℕ) (g : Option Bool)
    → is_live gs i ≡ true
    → held (set gs i g) + one_if (holds gs i) ≡ held gs + held_by g
unfolding held is_live
held-set [] i g h = cc
held-set (none ∷ gs) zero g h = cc
held-set (some b ∷ gs) zero g h = omega arith
held-set (none ∷ gs) (suc i) g h = omega (arith, held-set gs i g h)
held-set (some b ∷ gs) (suc i) g h = omega (arith, held-set gs i g h)

holds-set :
    (gs : List (Option Bool)) (i j : ℕ) (b : Bool)
    → i ≢ j
    → is_live gs j ≡ true
    → (holds (set gs i (some b)) j ≡ holds gs j) × (is_live (set gs i (some b)) j ≡ true)
unfolding is_live
holds-set [] i j b d h = cc
holds-set (g ∷ gs) zero zero b d h = absurd (d refl)
holds-set (none ∷ gs) zero (suc j) b d h = (refl, h)
holds-set (some a ∷ gs) zero (suc j) b d h = (refl, h)
holds-set (none ∷ gs) (suc i) zero b d h = (refl, h)
holds-set (some a ∷ gs) (suc i) zero b d h = (refl, h)
holds-set (none ∷ gs) (suc i) (suc j) b d h = holds-set gs i j b (ground arith) h
holds-set (some a ∷ gs) (suc i) (suc j) b d h = holds-set gs i j b (ground arith) h

append_live :
    (gs : List (Option Bool)) (j : ℕ)
    → is_live gs j ≡ true
    → (is_live (gs ++ (some false ∷ [])) j ≡ true)
      × (holds (gs ++ (some false ∷ [])) j ≡ holds gs j)
      × (j < length gs)
unfolding is_live
append_live [] j h = cc
append_live (none ∷ gs) zero h = cc
append_live (some b ∷ gs) zero h = (refl, refl, omega arith)
append_live (none ∷ gs) (suc j) h = let (a, b, c) = append_live gs j h in (a, b, omega arith)
append_live (some d ∷ gs) (suc j) h = let (a, b, c) = append_live gs j h in (a, b, omega arith)

append_last :
    (gs : List (Option Bool))
    → (is_live (gs ++ (some false ∷ [])) (length gs) ≡ true)
      × (holds (gs ++ (some false ∷ [])) (length gs) ≡ false)
unfolding is_live
append_last [] = (refl, refl)
append_last (none ∷ gs) = append_last gs
append_last (some b ∷ gs) = append_last gs

-- An assignment adds one to the counter, over the guards that hold it, if its source held it.
held-assign :
    (r : InRuby) (n i j : ℕ)
    → is_live r.guards i ≡ true
    → is_live r.guards j ≡ true
    → i ≢ j
    → r.use_count ≡ (held r.guards + n) % word
    → (move_assign r i j).use_count
      ≡ (held (move_assign r i j).guards + (n + one_if (holds r.guards j))) % word
unfolding move_assign
held-assign r n i j hi hj d c =
    let gs = set r.guards i (some (holds r.guards j)) in
    let (e, l) = holds-set r.guards i j (holds r.guards j) d hj in
    ground (arith, held-set r.guards i (some (holds r.guards j)) hi, held-set gs j (some false) l)

Reached-count : {r : InRuby} {n : ℕ} → Reached r n → r.use_count ≡ (held r.guards + n) % word
unfolding held new_guard assert_in_ruby_guard move_construct destroy
Reached-count start = refl
Reached-count (made {r} h) = ground (arith, Reached-count h, held-append r.guards (some false))
Reached-count (asserted {r} h) = ground (arith, Reached-count h, held-append r.guards (some true))
Reached-count (assigned {r} {n} i j hi hj d h) = held-assign r n i j hi hj d (Reached-count h)
Reached-count (constructed {r} {n} j hj h) =
    let (l, e, b) = append_live r.guards j hj in
    let (c, f) = append_last r.guards in
    ground (
      arith,
      Reached-count h,
      held-append r.guards (some false),
      held-assign (new_guard r) n (length r.guards) j c l,
    )
Reached-count (destroyed {r} i hi h) = ground (arith, Reached-count h, held-set r.guards i none hi)

-- After any program of guards, while the numbers fit in the counter, it stands at the number of
-- live guards that hold it and of the moves so far from a guard that held it. So the state is true while a
-- guard holds the counter, and it stays true forever once one was moved.
pub use_count_lem :
    {r : InRuby} {n : ℕ}
    → Reached r n
    → held r.guards + n < word
    → (r.use_count ≡ held r.guards + n) × ((state r ≡ true) ↔ ((0 < held r.guards) ⊎ (0 < n)))
unfolding state
use_count_lem h k = (ground (arith, Reached-count h), ground (arith, Reached-count h))
