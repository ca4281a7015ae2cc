-- ===== src/Containers/NamedBitSet/Positions.antt =====
-- The bit of a name, in a list of fields and one of bits.
use ru_ble.Base.{
  ℕ, suc, ◌≡◌, refl, ◌↔◌, inl, inr, Bool, true, false, ◌||◌, Option, none, some, List, [], ◌∷◌,
  arith, length, set, ok, err, invalid_argument, ◌>>=◌, if◌then◌else◌, Bool-cases, Option-cases,
}
use ru_ble.Base.Texts.{Text, text_eq, text_eq_iff}
use ru_ble.Containers.NamedBitSet.{NamedBitSet, index_from, names_from, bit_at}

unfoldable pub contains : Text → List Text → Bool
contains name [] = false
contains name (t ∷ ts) = text_eq t name || contains name ts

-- The bit next to the first field of that name.
unfoldable pub look : List Text → List Bool → Text → Option Bool
look [] bits name = none
look (field ∷ rest) [] name = none
look (field ∷ rest) (b ∷ bits) name = if text_eq field name then some b else look rest bits name

-- The bits with the one next to that name set to `v`.
pub put : List Text → List Bool → Text → Bool → Option (List Bool)
put [] bits name v = none
put (field ∷ rest) [] name v = none
put (field ∷ rest) (b ∷ bits) name v =
    if text_eq field name
    then some (v ∷ bits)
    else (elim (put rest bits name v) [ none ↦ none | some c ↦ some (b ∷ c) ])

index_from-suc :
    (rest : List Text) (i : ℕ) (name : Text)
    → index_from rest (suc i) name ≡ (index_from rest i name >>= λ j. ok (suc j))
unfolding index_from
index_from-suc [] i name = refl
index_from-suc (field ∷ rest) i name = ground (arith, index_from-suc rest (suc i) name)

pub get-look :
    (rest : List Text) (bits : List Bool) (name : Text)
    → length bits ≡ length rest
    → (index_from rest 0 name >>= λ i. bit_at bits i)
      ≡ (elim (look rest bits name) [ none ↦ err invalid_argument | some b ↦ ok b ])
unfolding look index_from
get-look [] bits name h = refl
get-look (field ∷ rest) [] name h = absurd (omega arith)
get-look (field ∷ rest) (b ∷ bits) name h =
    ground (arith, index_from-suc rest 0 name, get-look rest bits name (omega arith))

abbrev pub of_bits : List Bool → NamedBitSet
of_bits bits = record { bits = bits }

pub set-put :
    (rest : List Text) (bits : List Bool) (name : Text) (v : Bool)
    → length bits ≡ length rest
    → (index_from rest 0 name >>= λ i. ok (of_bits (set bits i v)))
      ≡ (elim (put rest bits name v) [ none ↦ err invalid_argument | some c ↦ ok (of_bits c) ])
unfolding put index_from
set-put [] bits name v h = refl
set-put (field ∷ rest) [] name v h = absurd (omega arith)
set-put (field ∷ rest) (b ∷ bits) name v h =
    ground (arith, index_from-suc rest 0 name, set-put rest bits name v (omega arith))

pub look-put :
    (rest : List Text) (bits : List Bool) (name other : Text) (v : Bool) {c : List Bool}
    → put rest bits name v ≡ some c
    → (length c ≡ length bits)
      × (look rest c other ≡ (if text_eq name other then some v else look rest bits other))
unfolding look put
look-put [] bits name other v h = cc
look-put (field ∷ rest) [] name other v h = cc
look-put (field ∷ rest) (b ∷ bits) name other v h = elim (Bool-cases (text_eq field name)) [
  | inl hit ↦ ground (arith, text_eq_iff field name)
  | inr miss ↦ elim (Option-cases (put rest bits name v)) [
    | inl e ↦ ground arith
    | inr (c', e) ↦ ground (
      arith,
      look-put rest bits name other v e,
      text_eq_iff field name,
      text_eq_iff field other,
      text_eq_iff name other,
    )
  ]
]

-- `put` fails exactly where `look` does: on a name that is no field.
pub put_total :
    (rest : List Text) (bits : List Bool) (name : Text) (v : Bool)
    → length bits ≡ length rest
    → contains name rest ≡ true
    → (c : List Bool) × (put rest bits name v ≡ some c)
unfolding put contains
put_total [] bits name v h k = cc
put_total (field ∷ rest) [] name v h k = absurd (omega arith)
put_total (field ∷ rest) (b ∷ bits) name v h k = elim (Bool-cases (text_eq field name)) [
  | inl hit ↦ (v ∷ bits, rw hit)
  | inr miss ↦
      let (c, e) = put_total rest bits name v (omega arith) (ground arith) in (b ∷ c, rw (miss, e))
]

pub unknown :
    (rest : List Text) (i : ℕ) (name : Text)
    → contains name rest ≡ false
    → index_from rest i name ≡ err invalid_argument
unfolding index_from contains
unknown [] i name h = refl
unknown (field ∷ rest) i name h = ground (arith, unknown rest (suc i) name)

-- No two fields have the same name.
abbrev pub AreDistinct : List Text → Type 0
AreDistinct [] = Unit
AreDistinct (field ∷ rest) = (contains field rest ≡ false) × AreDistinct rest

look_unknown :
    (rest : List Text) (bits : List Bool) (name : Text)
    → contains name rest ≡ false
    → look rest bits name ≡ none
unfolding look contains
look_unknown [] bits name h = refl
look_unknown (field ∷ rest) [] name h = refl
look_unknown (field ∷ rest) (b ∷ bits) name h = ground (arith, look_unknown rest bits name)

pub contains-names_from :
    (rest : List Text) (bits : List Bool) (name : Text)
    → AreDistinct rest
    → (contains name (names_from rest bits) ≡ true) ↔ (look rest bits name ≡ some true)
unfolding contains names_from look
contains-names_from [] bits name d = ground arith
contains-names_from (field ∷ rest) [] name d = ground arith
contains-names_from (field ∷ rest) (b ∷ bits) name d = ground (
  arith,
  contains-names_from rest bits name d.1,
  look_unknown rest bits name,
  text_eq_iff field name,
)
