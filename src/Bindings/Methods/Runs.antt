-- ===== src/Bindings/Methods/Runs.antt =====
-- Ruby's table of methods as a function, and the classes of RuBLE in it.
use ru_ble.Base.{
  ℕ, Bool, false, ◌||◌, ◌≡◌, refl, Option, none, some, if◌then◌else◌, ok, err, ◌⊎◌, ◌↔◌,
}
use ru_ble.Base.Texts.{codes, text_eq}
use ru_ble.Bindings.Methods.{
  Class, adapter, class_eq, derives, place_eq, index, instance_method, Key, key_eq, Target,
  function, Rice, Outcome, wrong_receiver, calls, argument_error, run, execute, invoke, on_object,
  call,
}
use ru_ble.Bindings.Methods.Tables.{
  statements, init_byte_array, init_descriptor, init_characteristic, init_service, init_peripheral,
  init_adapter, init_registries,
}
use ru_ble.Bindings.Methods.Loading.{Documented}
use ru_ble.Bindings.Methods.Laws.{methods_lem, broken}
use ru_ble.Bindings.Methods.Names.{
  names_lem, descriptors_key, descriptors_function, descriptors_attribute,
}

abbrev Defined : Type 0
Defined = (Class → Bool) × (Key → Option Target)

abbrev rice : Rice Defined
rice = record {
  bind = λ c s. (λ d. class_eq c d || s.0 d, s.1);
  is_bound = λ s c. s.0 c;
  add = λ k t s. (s.0, λ j. if key_eq k j then some t else s.1 j);
  find = λ s k. s.1 k;
  unwraps = derives;
}

rice-Documented : Documented rice
rice-Documented = record {
  bound_bind = λ c s. refl;
  bound_add = λ k t s. refl;
  find_bind = λ c s j. refl;
  find_add = λ k t s j. refl;
  unwraps_derives = λ c d. refl;
}

abbrev nothing : Defined
nothing = (λ c. false, λ k. none)

methods_lem_example :
    (s' : Defined) × (run rice statements nothing ≡ ok s')
    × ((call rice s' (broken (codes "size")) 0 ≡ wrong_receiver) ↔ (
        (◌≡◌ {A = ℕ} 0 0)
        × ((broken (codes "size") ≡ broken (codes "to_s"))
            ⊎ (broken (codes "size") ≡ broken (codes "size")))))
methods_lem_example = methods_lem rice rice-Documented nothing (broken (codes "size")) 0 (λ j. refl)

-- The first definition for Ruby is that of `get` of a byte array, behind the class and `new`.
abbrev get_key : Key
get_key = record { class = Class.byte_array; place = instance_method; name = codes "get" }

names_lem_example :
    (s' : Defined) × (run rice statements nothing ≡ ok s')
    × ((rice.find s' get_key ≡ some (function Class.byte_array (codes "to_string") 0 0))
        ⊎ ((get_key ≡ descriptors_key)
            × (function Class.byte_array (codes "to_string") 0 0 ≡ descriptors_function)
            × (rice.find s' get_key ≡ some descriptors_attribute)))
unfolding statements init_byte_array
names_lem_example =
    names_lem rice rice-Documented nothing 2 get_key
      (function Class.byte_array (codes "to_string") 0 0) (λ j. refl) refl

abbrev timeout_key : Key
timeout_key = record { class = adapter; place = instance_method; name = codes "scan_for" }

abbrev outcome : Key → ℕ → Outcome
outcome k n = elim (run rice statements nothing) [ err e ↦ argument_error | ok s ↦ call rice s k n ]

-- `scan_for` wants one argument.
scan_for_calls :
    (outcome timeout_key 1 ≡ calls (function adapter (codes "scan_for") 1 0))
    × (outcome timeout_key 0 ≡ argument_error)
unfolding run execute statements init_byte_array init_descriptor init_characteristic init_service
    init_peripheral init_adapter init_registries class_eq index derives place_eq key_eq text_eq
    invoke on_object call
scan_for_calls = (refl, refl)
