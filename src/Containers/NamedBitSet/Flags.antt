-- ===== src/Containers/NamedBitSet/Flags.antt =====
-- Which names a set holds.
use ru_ble.Base.{
  ◌≡◌, refl, ◌∙◌, Bool, true, false, none, some, List, [], ◌∷◌, arith, length, length-replicate,
  replicate, All, ok, err, invalid_argument, if◌then◌else◌,
}
use ru_ble.Base.Texts.{Text, text_eq}
use ru_ble.Containers.NamedBitSet.{
  NamedBitSet, index_of, get, assign, set_all, of_list, flag_names, no_flags,
}
use ru_ble.Containers.NamedBitSet.Positions.{
  contains, look, get-look, of_bits, set-put, look-put, put_total, unknown, AreDistinct,
  contains-names_from,
}

module _ (fields : List Text) where
  abbrev pub Fits : NamedBitSet → Type 0
  Fits s = length s.bits ≡ length fields

  get_lem :
      (s : NamedBitSet) (name : Text)
      → Fits s
      → get fields s name
        ≡ (elim (look fields s.bits name) [ none ↦ err invalid_argument | some b ↦ ok b ])
  unfolding get index_of
  get_lem s name h = get-look fields s.bits name h

  -- Assigning to a field gives a set that holds the value there, and every other name as before.
  pub get-assign :
      (s : NamedBitSet) (name : Text) (v : Bool)
      → Fits s
      → contains name fields ≡ true
      → (t : NamedBitSet) × (assign fields s name v ≡ ok t)
        × Fits t
        × ((other : Text)
            → get fields t other ≡ (if text_eq name other then ok v else get fields s other))
  unfolding assign index_of
  get-assign s name v h k =
      let (c, e) = put_total fields s.bits name v h k in
      (
        of_bits c,
        set-put fields s.bits name v h ∙ rw e,
        omega (arith, (look-put fields s.bits name name v e).0),
        λ other. ground (
          arith,
          get_lem (of_bits c) other (omega (arith, (look-put fields s.bits name name v e).0)),
          get_lem s other h,
          look-put fields s.bits name other v e,
        ),
      )

  abbrev pub AllFields : List Text → Type 0
  AllFields = All (λ name. contains name fields ≡ true)

  set_all_lem :
      (s : NamedBitSet) (names : List Text)
      → Fits s
      → AllFields names
      → (t : NamedBitSet) × (set_all fields s names ≡ ok t)
        × Fits t
        × ((other : Text)
            → get fields t other ≡ (if contains other names then ok true else get fields s other))
  unfolding set_all contains
  set_all_lem s [] h k = (s, refl, h, λ other. refl)
  set_all_lem s (name ∷ names) h k =
      let (u, e, hu, gu) = get-assign s name true h k.0 in
      let (t, f, ht, gt) = set_all_lem u names hu k.1 in
      (t, rw e f, ht, λ other. ground (arith, gt other, gu other))

  -- Names that no field has are refused.
  pub assign_unknown :
      (s : NamedBitSet) (name : Text) (v : Bool)
      → contains name fields ≡ false
      → (assign fields s name v ≡ err invalid_argument) × (get fields s name ≡ err invalid_argument)
  unfolding assign get index_of
  assign_unknown s name v h = rw (unknown fields 0 name h) (refl, refl)

  look_no_flags :
      (rest : List Text) (name : Text)
      → contains name rest ≡ true
      → look rest (replicate (length rest) false) name ≡ some false
  unfolding look contains
  look_no_flags [] name h = cc
  look_no_flags (field ∷ rest) name h = ground (arith, look_no_flags rest name)

  pub get-of_list :
      (names : List Text)
      → AllFields names
      → (t : NamedBitSet) × (of_list fields names ≡ ok t)
        × Fits t
        × ((name : Text)
            → contains name fields ≡ true
            → get fields t name ≡ ok (contains name names))
  unfolding of_list
  get-of_list names k =
      let (t, e, ht, gt) =
        set_all_lem (no_flags fields) names (length-replicate (length fields) false) k in
      (
        t,
        e,
        ht,
        λ name h. ground (
          arith,
          gt name,
          get_lem (no_flags fields) name (length-replicate (length fields) false),
          look_no_flags fields name h,
        ),
      )

  -- A set made from a list of fields holds exactly the names in the list, whatever their order and
  -- however often they stand there, if no two fields have one name: for each field, this is what looking it
  -- up answers, and whether `flag_names` lists it.
  of_list_lem :
      (names : List Text) (name : Text)
      → AllFields names
      → AreDistinct fields
      → contains name fields ≡ true
      → (t : NamedBitSet) × (of_list fields names ≡ ok t)
        × (get fields t name ≡ ok (contains name names))
        × (contains name (flag_names fields t) ≡ contains name names)
  unfolding flag_names
  of_list_lem names name k d h =
      let (t, e, ht, gt) = get-of_list names k in
      (
        t,
        e,
        gt name h,
        ground (arith, gt name h, get_lem t name ht, contains-names_from fields t.bits name d),
      )
