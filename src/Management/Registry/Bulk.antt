-- ===== src/Management/Registry/Bulk.antt =====
-- What `map_to_objects` returns for a list.
use ru_ble.Base.{
  ℕ, ◌≡◌, refl, ◌⊎◌, inl, inr, false, none, some, List, [], ◌∷◌, arith, ok, Option-cases,
}
use ru_ble.Base.Texts.{Text, text_eq_iff}
use ru_ble.Base.Maps.{find, find-emplace, IsSorted, emplace-IsSorted}
use ru_ble.Management.Registry.{Registry, fetch, map_to_objects, grown}
use ru_ble.Management.Registry.Fetch.{fetch_found, fetch_new}

-- The proxies stand in the registry under the keys of the objects, one for each object.
abbrev pub Stored : {V P : Type 0} → (V → Text) → List (Text × P) → List V → List P → Type 0
Stored k m [] [] = Unit
Stored k m [] (p ∷ ps) = ⊥
Stored k m (v ∷ vs) [] = ⊥
Stored k m (v ∷ vs) (p ∷ ps) = (find (k v) m ≡ some p) × Stored k m vs ps

-- Where the first map has an entry, the second has the same.
abbrev pub Extends : {P : Type 0} → List (Text × P) → List (Text × P) → Type 0
Extends m m' = (j : Text) → (find j m ≡ none) ⊎ (find j m' ≡ find j m)

module _ {V P : Type 0} (key_from_value : V → Text) (new_proxy : ℕ → V → P) where
  -- One object: its proxy is in the registry afterwards, and what was there is still there.
  pub fetch-Extends :
      (r : Registry P) (v : V)
      → IsSorted r.entries
      → (p : P) × (r' : Registry P) × (fetch key_from_value new_proxy false r v ≡ (ok p, r'))
        × (find (key_from_value v) r'.entries ≡ some p)
        × Extends r.entries r'.entries
        × IsSorted r'.entries
  fetch-Extends r v s = elim (Option-cases (find (key_from_value v) r.entries)) [
    | inl h ↦ (
      new_proxy r.next v,
      grown key_from_value new_proxy r v,
      fetch_new key_from_value new_proxy r v h,
      ground (
        arith,
        find-emplace (key_from_value v) (key_from_value v) (new_proxy r.next v) r.entries h,
        text_eq_iff (key_from_value v) (key_from_value v),
      ),
      (λ j. ground (
        arith,
        find-emplace j (key_from_value v) (new_proxy r.next v) r.entries h,
        text_eq_iff (key_from_value v) j,
      )),
      emplace-IsSorted (key_from_value v) (new_proxy r.next v) r.entries s,
    )
    | inr (p, h) ↦ (p, r, fetch_found key_from_value new_proxy false r v h, h, (λ j. inr refl), s)
  ]

  Extends-trans : (m m' m'' : List (Text × P)) → Extends m m' → Extends m' m'' → Extends m m''
  Extends-trans m m' m'' x y j = ground (arith, x j, y j)

  found_still :
      (m m' : List (Text × P)) (k : Text) (p : P)
      → find k m ≡ some p
      → Extends m m'
      → find k m' ≡ some p
  found_still m m' k p h x = ground (arith, x k)

  pub map_to_objects-cons :
      (r r1 r2 : Registry P) (v : V) (vs : List V) {p : P} {ps : List P}
      → fetch key_from_value new_proxy false r v ≡ (ok p, r1)
      → map_to_objects key_from_value new_proxy false r1 vs ≡ (ok ps, r2)
      → map_to_objects key_from_value new_proxy false r (v ∷ vs) ≡ (ok (p ∷ ps), r2)
  unfolding map_to_objects
  map_to_objects-cons r r1 r2 v vs e e2 = ground (arith, e, e2)

  -- Outside a garbage collection and for increasing keys, `map_to_objects` throws nothing and returns one
  -- proxy for each object, in the order of the objects; each is the one that the registry holds afterwards
  -- under the object's key, so that objects with one key have one proxy. What the registry held
  -- before, it holds still, and its keys still increase.
  pub map_to_objects_lem :
      (r : Registry P) (vs : List V)
      → IsSorted r.entries
      → (ps : List P) × (r' : Registry P) × (map_to_objects key_from_value new_proxy false r vs
          ≡ (ok ps, r'))
        × Stored key_from_value r'.entries vs ps
        × Extends r.entries r'.entries
        × IsSorted r'.entries
  unfolding map_to_objects
  map_to_objects_lem r [] s = ([], r, refl, tt, (λ j. inr refl), s)
  map_to_objects_lem r (v ∷ vs) s =
      let (p, r1, e, f, x, s1) = fetch-Extends r v s in
      let (ps, r2, e2, f2, x2, s2) = map_to_objects_lem r1 vs s1 in
      (
        p ∷ ps,
        r2,
        map_to_objects-cons r r1 r2 v vs e e2,
        (found_still r1.entries r2.entries (key_from_value v) p f x2, f2),
        Extends-trans r.entries r1.entries r2.entries x x2,
        s2,
      )
