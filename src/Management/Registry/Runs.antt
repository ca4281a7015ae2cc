-- ===== src/Management/Registry/Runs.antt =====
-- A registry of peripherals by their addresses: a value is its address, a proxy its number.
use ru_ble.Base.{ℕ, ◌≡◌, refl, true, false, List, [], ◌∷◌, ok, err, runtime_error, out_of_range}
use ru_ble.Base.Texts.{Text, codes, text_eq, compare_text}
use ru_ble.Base.Maps.{find, emplace, IsSorted}
use ru_ble.Management.Registry.{Registry, fetch, clear, map_to_objects, contains, at}
use ru_ble.Management.Registry.Abstract.{
  Call, fetch_call, at_call, contains_call, clear_call, bool_answer, proxy_answer, no_answer, call,
  calls, promises, view, calls_refine,
}

abbrev name : Text → Text
name v = v

abbrev number : ℕ → Text → ℕ
number n v = n

abbrev registry : Registry ℕ
registry = record { self = 3; entries = (codes "b", 40) ∷ []; next = 41 }

abbrev wanted : List Text
wanted = codes "c" ∷ codes "a" ∷ codes "b" ∷ codes "a" ∷ []

wanted_objects : map_to_objects name number false registry wanted ≡ (
  ok (41 ∷ 42 ∷ 40 ∷ 42 ∷ []),
  record {
    self = 3;
    entries = (codes "a", 42) ∷ (codes "b", 40) ∷ (codes "c", 41) ∷ [];
    next = 43;
  },
)
unfolding map_to_objects fetch find emplace text_eq compare_text at
wanted_objects = refl

abbrev client : List (Call Text)
client =
    contains_call (codes "c")
    ∷ fetch_call false (codes "c")
    ∷ fetch_call true (codes "c")
    ∷ clear_call
    ∷ at_call (codes "b")
    ∷ fetch_call true (codes "b")
    ∷ []

client_answers :
    (calls name number client registry).0
    ≡ bool_answer false
      ∷ proxy_answer (ok 41)
      ∷ proxy_answer (ok 41)
      ∷ no_answer
      ∷ proxy_answer (err out_of_range)
      ∷ proxy_answer (err runtime_error)
      ∷ []
unfolding calls call fetch find emplace text_eq compare_text at contains clear
client_answers = refl

calls_refine_example :
    (promises name number client (view registry)
      ≡ ((calls name number client registry).0, view (calls name number client registry).1))
    × IsSorted (calls name number client registry).1.entries
calls_refine_example = calls_refine name number client registry (tt, tt)
