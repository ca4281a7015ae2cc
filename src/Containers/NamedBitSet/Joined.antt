-- ===== src/Containers/NamedBitSet/Joined.antt =====
-- The text of a set: its names with a separator between.
use mathlib.Core.List.{append_assoc}
use ru_ble.Base.{◌≡◌, refl, ap, ◌∙◌, List, [], ◌∷◌, ◌++◌}
use ru_ble.Base.Texts.{Text}
use ru_ble.Containers.NamedBitSet.{join, join_onto}

join_onto-append :
    (sep front acc : Text) (ts : List Text)
    → join_onto sep (front ++ acc) ts ≡ front ++ join_onto sep acc ts
unfolding join_onto
join_onto-append sep front acc [] = refl
join_onto-append sep front acc (t ∷ ts) =
    rw (append_assoc front acc sep, append_assoc front (acc ++ sep) t)
      (join_onto-append sep front ((acc ++ sep) ++ t) ts)

join_rest : (t : Text) (ts : List Text) (sep : Text) → join_onto sep t ts ≡ join (t ∷ ts) sep
unfolding join join_onto
join_rest t [] sep = refl
join_rest t (u ∷ ts) sep = refl

-- The left fold of `join` puts the separator between any two neighbours and nowhere else: a single
-- text is kept as it is, and of more the first comes before the separator and the others joined.
pub join_lem :
    (t u : Text) (ts : List Text) (sep : Text)
    → (join [] sep ≡ [])
      × (join (t ∷ []) sep ≡ t)
      × (join (t ∷ u ∷ ts) sep ≡ t ++ (sep ++ join (u ∷ ts) sep))
unfolding join join_onto
join_lem t u ts sep = (
  refl,
  refl,
  join_onto-append sep (t ++ sep) u ts
      ∙ append_assoc t sep (join_onto sep u ts)
      ∙ ap (λ r. t ++ (sep ++ r)) (join_rest u ts sep),
)
