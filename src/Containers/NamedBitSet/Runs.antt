-- ===== src/Containers/NamedBitSet/Runs.antt =====
-- Sets of the flags of a characteristic.
use ru_ble.Base.{◌≡◌, refl, true, false, List, [], ◌∷◌, ok}
use ru_ble.Base.Texts.{Text, codes, text_eq}
use ru_ble.Containers.NamedBitSet.{of_list, assign, to_s, index_of, set_all, to_ullong}

abbrev colours : List Text
colours = codes "red" ∷ codes "green" ∷ codes "blue" ∷ []

blue_and_red :
    (of_list colours (codes "blue" ∷ codes "red" ∷ []))
    ≡ ok (record { bits = true ∷ false ∷ true ∷ [] })
unfolding of_list assign index_of set_all text_eq
blue_and_red = refl

blue_and_red_text : to_s colours (record { bits = true ∷ false ∷ true ∷ [] }) ≡ codes "red|blue"
unfolding to_s
blue_and_red_text = refl

blue_and_red_number : to_ullong (true ∷ false ∷ true ∷ []) ≡ 5
unfolding to_ullong
blue_and_red_number = refl
