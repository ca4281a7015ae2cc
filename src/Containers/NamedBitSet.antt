-- ===== src/Containers/NamedBitSet.antt =====
-- ext/ruble/containers/NamedBitSet.hpp and NamedBitSet.ipp: a bit set whose bits have names. `fields`
-- is the template argument, and the bits are a list of as many Booleans.
pub mod Positions
pub mod Flags
pub mod Joined
mod Runs
use ru_ble.Base.{
  ℕ, zero, suc, ◌+◌, ◌*◌, Bool, true, false, Option, none, some, List, [], ◌∷◌, ◌++◌, length,
  get_elem?, set, replicate, Result, ok, err, invalid_argument, fault, ◌>>=◌, if◌then◌else◌,
}
use ru_ble.Base.Texts.{Text, text_eq, codes}

-- `FlagCheck::Fn`: a constant, a function, or a function of the object.
pub data FlagFn {ℓ} (T : Type ℓ) : Type ℓ where
  const_flag : Bool → FlagFn T
  static_fn : (Unit {0} → Bool) → FlagFn T
  mem_fn : (T → Bool) → FlagFn T

unfoldable pub test_flag {ℓ} : {T : Type ℓ} → FlagFn T → T → Bool
test_flag (const_flag val) obj = val
test_flag (static_fn fn) obj = fn tt
test_flag (mem_fn fn) obj = fn obj

pub record NamedBitSet : Type 0 where
  pub bits : List Bool

-- `Utils::join` of containers.hpp, with its fold.
unfoldable pub join_onto : Text → Text → List Text → Text
join_onto sep acc [] = acc
join_onto sep acc (t ∷ ts) = join_onto sep ((acc ++ sep) ++ t) ts

unfoldable pub join : List Text → Text → Text
unfolding join_onto
join [] sep = []
join (t ∷ []) sep = t
join (t ∷ u ∷ ts) sep = join_onto sep t (u ∷ ts)

-- The loop of `index_of`.
unfoldable pub index_from : List Text → ℕ → Text → Result ℕ
index_from [] i name = err invalid_argument
index_from (field ∷ rest) i name = if text_eq field name then ok i else index_from rest (suc i) name

abbrev pub bit_at : List Bool → ℕ → Result Bool
bit_at bits i = elim (get_elem? bits i) [ none ↦ err fault | some b ↦ ok b ]

-- The loop of `flag_names`.
unfoldable pub names_from : List Text → List Bool → List Text
names_from [] bits = []
names_from (field ∷ rest) [] = []
names_from (field ∷ rest) (b ∷ bits) =
    if b then field ∷ names_from rest bits else names_from rest bits

module _ (fields : List Text) where
  unfoldable pub index_of : Text → Result ℕ
  unfolding index_from
  index_of name = index_from fields 0 name

  -- `operator[] const`
  unfoldable pub get : NamedBitSet → Text → Result Bool
  get s name = do i ← index_of name; bit_at s.bits i

  -- An assignment through `operator[]`.
  unfoldable pub assign : NamedBitSet → Text → Bool → Result NamedBitSet
  assign s name b = do i ← index_of name; ok (record { bits = set s.bits i b })

  -- The default constructor.
  abbrev pub no_flags : NamedBitSet
  no_flags = record { bits = replicate (length fields) false }

  unfoldable pub set_all : NamedBitSet → List Text → Result NamedBitSet
  set_all s [] = ok s
  set_all s (name ∷ names) = do s' ← assign s name true; set_all s' names

  -- The constructors from a list and from a range of names.
  unfoldable pub of_list : List Text → Result NamedBitSet
  unfolding set_all
  of_list names = set_all no_flags names

  unfoldable pub test_all {ℓ} :
      {T : Type ℓ} → NamedBitSet → List (Text × FlagFn T) → T → Result NamedBitSet
  unfolding test_flag
  test_all s [] obj = ok s
  test_all s ((name, fn) ∷ r) obj = do s' ← assign s name (test_flag fn obj); test_all s' r obj

  -- The constructor from a map of tests and an object.
  unfoldable pub of_map {ℓ} : {T : Type ℓ} → List (Text × FlagFn T) → T → Result NamedBitSet
  unfolding test_all
  of_map r obj = test_all no_flags r obj

  -- `flag_names`; `flag_name_strs` copies them.
  unfoldable pub flag_names : NamedBitSet → List Text
  unfolding names_from
  flag_names s = names_from fields s.bits

  pub to_s : NamedBitSet → Text
  unfolding flag_names join
  to_s s = join (flag_names s) (codes "|")

-- `to_ullong`, as the conversion to an integer uses it.
pub to_ullong : List Bool → ℕ
to_ullong [] = 0
to_ullong (b ∷ bits) = (if b then 1 else 0) + 2 * to_ullong bits
