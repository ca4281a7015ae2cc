-- ===== src/Bindings/Methods/Laws.antt =====
-- What Ruby finds once `Init_RuBLE` has run.
use ru_ble.Base.{
  ℕ, ◌+◌, Bool, true, false, ◌&&◌, ◌||◌, ◌≡◌, refl, none, some, ok, arith, Option-cases, sym, ◌∙◌,
  ◌⊎◌, inl, inr, ◌↔◌, ◌==◌,
}
use Prim.Native.String.{String}
use ru_ble.Base.Texts.{Text, codes, text_eq}
use ru_ble.Bindings.Methods.{
  Class, characteristic_registry, service_registry, index, class_eq, derives, place_eq,
  instance_method, Key, key_eq, Target, function, static_function, attribute, static_attribute,
  static_setter, Rice, wrong_receiver, run, on_object, invoke, call,
}
use ru_ble.Bindings.Methods.Tables.{
  statements, init_byte_array, init_descriptor, init_characteristic, init_service, init_peripheral,
  init_adapter, init_registries,
}
use ru_ble.Bindings.Methods.Loading.{
  key_eq→eq, Documented, last_of, run_lem, all_of, last_of-all, statements-in_order,
}

abbrev pub broken : Text → Key
broken name = record { class = characteristic_registry; place = instance_method; name = name }

-- Whether an object of a class can be the receiver.
abbrev fits : Class → Target → Bool
fits c (function owner name required optional) = derives c owner
fits c (attribute owner name) = derives c owner
fits c _ = true

abbrev takes_none : Target → Bool
takes_none (function owner name required optional) = required + optional == 0
takes_none _ = false

abbrev is_broken : Key → Bool
is_broken k = key_eq k (broken (codes "to_s")) || key_eq k (broken (codes "size"))

abbrev fits_or_broken : Key → Target → Bool
fits_or_broken k t = fits k.class t || (is_broken k && takes_none t)

statements_fit : all_of fits_or_broken statements ≡ true
unfolding all_of statements init_byte_array init_descriptor init_characteristic init_service
    init_peripheral init_adapter init_registries derives class_eq place_eq key_eq text_eq index
statements_fit = refl

abbrev broken_function : String → Target
broken_function name = function service_registry (codes name) 0 0

found_broken :
    (last_of statements (broken (codes "to_s")) none ≡ some (broken_function "to_s"))
    × (last_of statements (broken (codes "size")) none ≡ some (broken_function "size"))
unfolding last_of statements init_byte_array init_descriptor init_characteristic init_service
    init_peripheral init_adapter init_registries class_eq place_eq key_eq text_eq index
found_broken = (refl, refl)

module _ {S : Type 0} (rice : Rice S) (doc : Documented rice) where
  -- Where the receiver fits, it is not refused.
  invoke-fits :
      (c : Class) (t : Target) (n : ℕ) → invoke rice c t n ≡ wrong_receiver → fits c t ≡ false
  unfolding invoke on_object
  invoke-fits c (function owner name required optional) n h =
      ground (arith, doc.unwraps_derives c owner)
  invoke-fits c (attribute owner name) n h = ground (arith, doc.unwraps_derives c owner)
  invoke-fits c (static_function owner name required) n h = ground arith
  invoke-fits c (static_attribute owner name) n h = ground arith
  invoke-fits c (static_setter owner name) n h = ground arith

  invoke-none :
      (c : Class) (t : Target) (n : ℕ)
      → invoke rice c t n ≡ wrong_receiver
      → takes_none t ≡ true
      → n ≡ 0
  unfolding invoke on_object
  invoke-none c (function owner name required optional) n h k = ground arith
  invoke-none c (attribute owner name) n h k = cc
  invoke-none c (static_function owner name required) n h k = cc
  invoke-none c (static_attribute owner name) n h k = cc
  invoke-none c (static_setter owner name) n h k = cc

  invoke-broken :
      (name : String)
      → invoke rice characteristic_registry (broken_function name) 0 ≡ wrong_receiver
  unfolding invoke on_object derives class_eq index
  invoke-broken name = ground (arith, doc.unwraps_derives characteristic_registry service_registry)

  call_found :
      (s : S) (k : Key) (n : ℕ) (t : Target)
      → rice.find s k ≡ some t
      → call rice s k n ≡ invoke rice k.class t n
  unfolding call
  call_found s k n t h = ground (arith, h)

  call-broken :
      (s : S) (k : Key)
      → ((j : Key) → rice.find s j ≡ last_of statements j none)
      → (k ≡ broken (codes "to_s")) ⊎ (k ≡ broken (codes "size"))
      → call rice s k 0 ≡ wrong_receiver
  call-broken s k found (inl e) =
      rw e (call_found s _ 0 _ (found _ ∙ found_broken.0) ∙ invoke-broken "to_s")
  call-broken s k found (inr e) =
      rw e (call_found s _ 0 _ (found _ ∙ found_broken.1) ∙ invoke-broken "size")

  broken-call :
      (s : S) (k : Key) (n : ℕ)
      → ((j : Key) → rice.find s j ≡ last_of statements j none)
      → call rice s k n ≡ wrong_receiver
      → (n ≡ 0) × ((k ≡ broken (codes "to_s")) ⊎ (k ≡ broken (codes "size")))
  unfolding call
  broken-call s k n found h = elim (Option-cases (rice.find s k)) [
    | inl e ↦ ground (arith, h, e)
    | inr (t, e) ↦
        let invoked : invoke rice k.class t n ≡ wrong_receiver = ground (arith, h, e) in
        let last : last_of statements k none ≡ some t = sym (found k) ∙ e in
        ground (
          arith,
          invoke-fits k.class t n invoked,
          invoke-none k.class t n invoked,
          last_of-all fits_or_broken statements k none t statements_fit last,
          key_eq→eq k (broken (codes "to_s")),
          key_eq→eq k (broken (codes "size")),
        )
  ]

  -- If Rice and Ruby do as documented and nothing is defined yet, `Init_RuBLE` defines the classes and methods without an exception, and then, for any name
  -- and any number of arguments, Rice refuses the receiver of the call if and only if it is the call with no arguments of `to_s` or
  -- of `size` on a registry of characteristics.
  pub methods_lem :
      (s : S) (k : Key) (n : ℕ)
      → ((j : Key) → rice.find s j ≡ none)
      → (s' : S) × (run rice statements s ≡ ok s')
        × ((call rice s' k n ≡ wrong_receiver)
            ↔ ((n ≡ 0) × ((k ≡ broken (codes "to_s")) ⊎ (k ≡ broken (codes "size")))))
  methods_lem s k n empty =
      let (s', e, found) = run_lem rice doc statements s (statements-in_order (rice.is_bound s)) in
      let found' : (j : Key) → rice.find s' j ≡ last_of statements j none =
        λ j. rw (empty j) at (found j) in
      (
        s',
        e,
        (
          broken-call s' k n found',
          λ (zero_args, which). rw zero_args (call-broken s' k found' which),
        ),
      )
