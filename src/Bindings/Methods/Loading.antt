-- ===== src/Bindings/Methods/Loading.antt =====
-- What the table of methods is once a list of statements has run.
use ru_ble.Base.{
  ℕ, Bool, true, ◌&&◌, ◌||◌, ◌≡◌, refl, ◌∙◌, Option, some, List, [], ◌∷◌, if◌then◌else◌, get_elem?,
  zero, suc, ok, arith, ◌⊎◌, inl,
}
use ru_ble.Base.Texts.{text_eq_iff}
use ru_ble.Bindings.Methods.Tables.{
  statements, init_byte_array, init_descriptor, init_characteristic, init_service, init_peripheral,
  init_adapter, init_registries,
}
use ru_ble.Bindings.Methods.{
  Class, index, class_eq, derives, Place, place_eq, Key, key_eq, Target, Statement, define_class,
  define, Rice, execute, run,
}

pub class_eq→eq : (c d : Class) → class_eq c d ≡ true → c ≡ d
unfolding class_eq index
class_eq→eq c d h = ground arith

place_eq→eq : (p q : Place) → place_eq p q ≡ true → p ≡ q
unfolding place_eq
place_eq→eq p q h = ground arith

pub key_eq→eq : (k j : Key) → key_eq k j ≡ true → k ≡ j
unfolding key_eq
key_eq→eq k j h =
    ground
      (arith, class_eq→eq k.class j.class, place_eq→eq k.place j.place, text_eq_iff k.name j.name)

-- What is documented of Rice and Ruby: a class that was bound stays so, the last definition of a name counts, and
-- the receiver of a member is an object of its class.
pub record Documented {S : Type 0} (rice : Rice S) : Type 0 where
  pub bound_bind :
      (c : Class) (s : S) → rice.is_bound (rice.bind c s) ≡ (λ d. class_eq c d || rice.is_bound s d)
  pub bound_add : (k : Key) (t : Target) (s : S) → rice.is_bound (rice.add k t s) ≡ rice.is_bound s
  pub find_bind : (c : Class) (s : S) (j : Key) → rice.find (rice.bind c s) j ≡ rice.find s j
  pub find_add :
      (k : Key) (t : Target) (s : S) (j : Key)
      → rice.find (rice.add k t s) j ≡ (if key_eq k j then some t else rice.find s j)
  pub unwraps_derives : (c d : Class) → rice.unwraps c d ≡ derives c d

-- The last definition of a name in a list, or else the one before.
unfoldable pub last_of : List Statement → Key → Option Target → Option Target
last_of [] j found = found
last_of (define_class c ∷ xs) j found = last_of xs j found
last_of (define k t ∷ xs) j found = last_of xs j (if key_eq k j then some t else found)

-- No method is defined before its class.
unfoldable pub in_order : List Statement → (Class → Bool) → Bool
in_order [] bound = true
in_order (define_class c ∷ xs) bound = in_order xs (λ d. class_eq c d || bound d)
in_order (define k t ∷ xs) bound = bound k.class && in_order xs bound

module _ {S : Type 0} (rice : Rice S) (doc : Documented rice) where
  run-define :
      (xs : List Statement) (k : Key) (t : Target) (s : S)
      → rice.is_bound s k.class ≡ true
      → run rice (define k t ∷ xs) s ≡ run rice xs (rice.add k t s)
  unfolding run execute
  run-define xs k t s h = ground arith

  -- Then nothing is thrown, and the last definition of each name is found.
  pub run_lem :
      (xs : List Statement) (s : S)
      → in_order xs (rice.is_bound s) ≡ true
      → (s' : S) × (run rice xs s ≡ ok s')
        × ((j : Key) → rice.find s' j ≡ last_of xs j (rice.find s j))
  unfolding run execute last_of in_order
  run_lem [] s h = (s, refl, λ j. refl)
  run_lem (define_class c ∷ xs) s h =
      let (s', e, found) = run_lem xs (rice.bind c s) (rw (doc.bound_bind c s) h) in
      (s', e, λ j. rw (← doc.find_bind c s j) (found j))
  run_lem (define k t ∷ xs) s h =
      let bound : rice.is_bound s k.class ≡ true = ground arith in
      let rest : in_order xs (rice.is_bound s) ≡ true = ground arith in
      let (s', e, found) = run_lem xs (rice.add k t s) (rw (doc.bound_add k t s) rest) in
      (s', run-define xs k t s bound ∙ e, λ j. rw (← doc.find_add k t s j) (found j))

-- Whether a test holds of every definition of a list.
unfoldable pub all_of : (Key → Target → Bool) → List Statement → Bool
all_of test [] = true
all_of test (define_class c ∷ xs) = all_of test xs
all_of test (define k t ∷ xs) = test k t && all_of test xs

-- It holds then of each of them, and of what is found.
pub all_of-at :
    (test : Key → Target → Bool) (xs : List Statement) (i : ℕ) (k : Key) (t : Target)
    → all_of test xs ≡ true
    → get_elem? xs i ≡ some (define k t)
    → test k t ≡ true
unfolding all_of
all_of-at test [] i k t h e = cc
all_of-at test (define_class c ∷ xs) zero k t h e = cc
all_of-at test (define_class c ∷ xs) (suc i) k t h e = all_of-at test xs i k t h e
all_of-at test (define j u ∷ xs) zero k t h e = ground arith
all_of-at test (define j u ∷ xs) (suc i) k t h e = all_of-at test xs i k t (ground arith) e

pub last_of-all :
    (test : Key → Target → Bool) (xs : List Statement) (j : Key) (found : Option Target)
    (t : Target)
    → all_of test xs ≡ true
    → last_of xs j found ≡ some t
    → (found ≡ some t) ⊎ (test j t ≡ true)
unfolding all_of last_of
last_of-all test [] j found t h e = inl e
last_of-all test (define_class c ∷ xs) j found t h e = last_of-all test xs j found t h e
last_of-all test (define k u ∷ xs) j found t h e =
    ground (arith, last_of-all test xs j (if key_eq k j then some u else found) t, key_eq→eq k j)

pub statements-in_order : (bound : Class → Bool) → in_order statements bound ≡ true
unfolding in_order statements init_byte_array init_descriptor init_characteristic init_service
    init_peripheral init_adapter init_registries class_eq index
statements-in_order bound = refl
