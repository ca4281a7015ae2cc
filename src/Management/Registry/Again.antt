-- ===== src/Management/Registry/Again.antt =====
-- `map_to_objects` and `map_to_ruby_objects` of objects that the registry knows.
use ru_ble.Base.{ℕ, ◌≡◌, refl, suc, Bool, false, some, ap, List, [], ◌∷◌, map, arith, ok, length}
use ru_ble.Base.Texts.{Text}
use ru_ble.Base.Maps.{find, IsSorted}
use ru_ble.Management.Registry.{Registry, fetch, map_to_objects, map_to_ruby_objects}
use ru_ble.Management.Registry.Fetch.{fetch_found}
use ru_ble.Management.Registry.Bulk.{Stored, map_to_objects_lem}

-- The objects have the same keys in the same order.
abbrev pub SameKeys : {V : Type 0} → (V → Text) → List V → List V → Type 0
SameKeys k [] [] = Unit
SameKeys k [] (w ∷ ws) = ⊥
SameKeys k (v ∷ vs) [] = ⊥
SameKeys k (v ∷ vs) (w ∷ ws) = (k w ≡ k v) × SameKeys k vs ws

module _ {V P : Type 0} (key_from_value : V → Text) (new_proxy : ℕ → V → P) where
  fetch_stored :
      (gc : Bool) (r : Registry P) (v w : V) (p : P)
      → find (key_from_value v) r.entries ≡ some p
      → key_from_value w ≡ key_from_value v
      → fetch key_from_value new_proxy gc r w ≡ (ok p, r)
  fetch_stored gc r v w p f e = fetch_found key_from_value new_proxy gc r w (rw e f)

  pub fetched_again :
      (gc : Bool) (r : Registry P) (vs ws : List V) (ps : List P)
      → Stored key_from_value r.entries vs ps
      → SameKeys key_from_value vs ws
      → map_to_objects key_from_value new_proxy gc r ws ≡ (ok ps, r)
  unfolding map_to_objects
  fetched_again gc r [] [] [] st e = refl
  fetched_again gc r [] [] (p ∷ ps) st e = absurd st
  fetched_again gc r [] (w ∷ ws) ps st e = absurd e
  fetched_again gc r (v ∷ vs) [] ps st e = absurd e
  fetched_again gc r (v ∷ vs) (w ∷ ws) [] st e = absurd st
  fetched_again gc r (v ∷ vs) (w ∷ ws) (p ∷ ps) st e =
      ground (arith, fetch_stored gc r v w p st.0 e.0, fetched_again gc r vs ws ps st.1 e.1)

  length-Stored :
      {O : Type 0} (self : P → O) (m : List (Text × P)) (vs : List V) (ps : List P)
      → Stored key_from_value m vs ps
      → length (map self ps) ≡ length vs
  length-Stored self m [] [] st = refl
  length-Stored self m [] (p ∷ ps) st = absurd st
  length-Stored self m (v ∷ vs) [] st = absurd st
  length-Stored self m (v ∷ vs) (p ∷ ps) st = ap suc (length-Stored self m vs ps st.1)

  module _ {O : Type 0} (self : P → O) where
    pub ruby_objects_first :
        (r : Registry P) (vs : List V)
        → IsSorted r.entries
        → (ps : List P) × (r' : Registry P) × (map_to_ruby_objects key_from_value new_proxy self
              false r vs
            ≡ (ok (map self ps), r'))
          × Stored key_from_value r'.entries vs ps
          × (length (map self ps) ≡ length vs)
    unfolding map_to_ruby_objects
    ruby_objects_first r vs s =
        let (ps, r', m, st, x, s') = map_to_objects_lem key_from_value new_proxy r vs s in
        (ps, r', ground (arith, m), st, length-Stored self r'.entries vs ps st)

    pub ruby_objects_again :
        (gc : Bool) (r : Registry P) (vs ws : List V) (ps : List P)
        → Stored key_from_value r.entries vs ps
        → SameKeys key_from_value vs ws
        → map_to_ruby_objects key_from_value new_proxy self gc r ws ≡ (ok (map self ps), r)
    unfolding map_to_ruby_objects
    ruby_objects_again gc r vs ws ps st e = ground (arith, fetched_again gc r vs ws ps st e)
