-- ===== src/Bindings/Methods/Names.antt =====
-- Names that are defined more than once.
use ru_ble.Base.{
  ℕ, Bool, true, false, ◌&&◌, ◌||◌, ◌≡◌, refl, Option, none, some, get_elem?, ok, arith, ◌⊎◌,
  ==_iff, ◌==◌,
}
use ru_ble.Base.Texts.{Text, codes, text_eq, text_eq_iff}
use ru_ble.Bindings.Methods.{
  Class, characteristic, index, class_eq, place_eq, instance_method, Key, key_eq, Target, function,
  static_function, attribute, static_attribute, static_setter, define, Rice, run,
}
use ru_ble.Bindings.Methods.Tables.{
  statements, init_byte_array, init_descriptor, init_characteristic, init_service, init_peripheral,
  init_adapter, init_registries,
}
use ru_ble.Bindings.Methods.Loading.{
  class_eq→eq, key_eq→eq, Documented, last_of, run_lem, all_of, all_of-at, statements-in_order,
}

abbrev member_eq : Class → Text → Class → Text → Bool
member_eq c s d t = class_eq c d && text_eq s t

unfoldable target_eq : Target → Target → Bool
target_eq (function c s m n) (function d t k l) = member_eq c s d t && (m == k && n == l)
target_eq (static_function c s n) (static_function d t l) = member_eq c s d t && n == l
target_eq (attribute c s) (attribute d t) = member_eq c s d t
target_eq (static_attribute c s) (static_attribute d t) = member_eq c s d t
target_eq (static_setter c s) (static_setter d t) = member_eq c s d t
target_eq _ _ = false

target_eq→eq : (t u : Target) → target_eq t u ≡ true → t ≡ u
unfolding target_eq
target_eq→eq (function c s m n) (function d t k l) h =
    ground (arith, class_eq→eq c d, text_eq_iff s t, ==_iff m k, ==_iff n l)
target_eq→eq (static_function c s n) (static_function d t l) h =
    ground (arith, class_eq→eq c d, text_eq_iff s t, ==_iff n l)
target_eq→eq (attribute c s) (attribute d t) h = ground (arith, class_eq→eq c d, text_eq_iff s t)
target_eq→eq (static_attribute c s) (static_attribute d t) h =
    ground (arith, class_eq→eq c d, text_eq_iff s t)
target_eq→eq (static_setter c s) (static_setter d t) h =
    ground (arith, class_eq→eq c d, text_eq_iff s t)
target_eq→eq _ _ h = ground arith

abbrev pub descriptors_key : Key
descriptors_key = record {
  class = characteristic;
  place = instance_method;
  name = codes "descriptors";
}

abbrev pub descriptors_function : Target
descriptors_function = function characteristic (codes "descriptors") 0 0

abbrev pub descriptors_attribute : Target
descriptors_attribute = attribute characteristic (codes "_descriptors")

abbrev is_found : Option Target → Target → Bool
is_found none t = false
is_found (some u) t = target_eq u t

is_found→eq : (o : Option Target) (t : Target) → is_found o t ≡ true → o ≡ some t
is_found→eq none t h = cc
is_found→eq (some u) t h = ground (arith, target_eq→eq u t)

abbrev stays : Key → Target → Bool
stays k t =
    is_found (last_of statements k none) t
    || (key_eq k descriptors_key && target_eq t descriptors_function)

statements_stay : all_of stays statements ≡ true
unfolding all_of last_of target_eq statements init_byte_array init_descriptor init_characteristic
    init_service init_peripheral init_adapter init_registries class_eq place_eq key_eq text_eq index
statements_stay = refl

found_descriptors : last_of statements descriptors_key none ≡ some descriptors_attribute
unfolding last_of statements init_byte_array init_descriptor init_characteristic init_service
    init_peripheral init_adapter init_registries class_eq place_eq key_eq text_eq index
found_descriptors = refl

module _ {S : Type 0} (rice : Rice S) (doc : Documented rice) where
  -- If Rice and Ruby do as documented and nothing is defined yet, `Init_RuBLE` defines the methods without an exception, and then each definition that it makes is
  -- what Ruby finds by its name, but for the function `descriptors` of a characteristic: in its place Ruby finds the
  -- attribute that reads `_descriptors`.
  pub names_lem :
      (s : S) (i : ℕ) (k : Key) (t : Target)
      → ((j : Key) → rice.find s j ≡ none)
      → get_elem? statements i ≡ some (define k t)
      → (s' : S) × (run rice statements s ≡ ok s')
        × ((rice.find s' k ≡ some t)
            ⊎ ((k ≡ descriptors_key)
                × (t ≡ descriptors_function)
                × (rice.find s' k ≡ some descriptors_attribute)))
  names_lem s i k t empty at_i =
      let (s', e, found) = run_lem rice doc statements s (statements-in_order (rice.is_bound s)) in
      let last : rice.find s' k ≡ last_of statements k none = rw (empty k) at (found k) in
      (
        s',
        e,
        ground (
          arith,
          last,
          found_descriptors,
          all_of-at stays statements i k t statements_stay at_i,
          is_found→eq (last_of statements k none) t,
          key_eq→eq k descriptors_key,
          target_eq→eq t descriptors_function,
        ),
      )
