-- ===== src/Bindings/Adapter/Runs.antt =====
-- An adapter whose two procs are set.
use ru_ble.Base.{ℕ, ◌≡◌, ◌==◌, refl, true, false, none, Bool, map, length, List, [], ◌∷◌, ok}
use ru_ble.Base.Texts.{Text, codes}
use ru_ble.Containers.Callback.{new_callback}
use ru_ble.Utils.CallbackTraits.{proc_value, req, ParameterType}
use ru_ble.Bindings.Adapter.Scanning.{
  Scans, Request, start, stop, request_all, logged, changes, finally, request_all_lem,
}
use ru_ble.Bindings.Adapter.{Adapter, AdapterBackend}
use ru_ble.Bindings.Adapter.Results.{
  scan_get_ruby_results, get_ruby_paired_peripherals, same_objects,
}
use ru_ble.Bindings.Adapter.Statuses.{answers, flags_of, status_flags, status_flags_lem}

abbrev name : Text → Text
name v = v

abbrev number : ℕ → Text → ℕ
number n v = n

abbrev self_of : ℕ → ℕ
self_of n = n

abbrev two : List ParameterType
two = req ∷ req ∷ []

abbrev adapter : Adapter ℕ
adapter = record {
  self = 1;
  addr = codes "00:11";
  on_scan_start_cb = new_callback 1;
  on_scan_stop_cb = new_callback 1;
  on_scan_update_cb = record { arg_count = 2; cb = proc_value true two 31 };
  on_scan_find_cb = record { arg_count = 2; cb = proc_value true two 30 };
  peripheral_registry = record { self = 2; entries = []; next = 9 };
}

-- An adapter of SimpleBLE whose state is whether it scans.
abbrev scanner : AdapterBackend Bool Text
scanner = record {
  initialized = λ s. true;
  identifier = λ s. codes "hci0";
  scan_is_active = λ s. s;
  scan_start = λ s. (ok tt, true);
  scan_stop = λ s. (ok tt, false);
  scan_for = λ ms s. (ok tt, false);
  scan_get_results = λ s. codes "22:33" ∷ codes "44:55" ∷ [];
  get_paired_peripherals = λ s. codes "22:33" ∷ codes "44:55" ∷ [];
}

same_objects_example :
    (os : List ℕ) × (a' : Adapter ℕ) × (scan_get_ruby_results name number self_of scanner false true
        adapter
      ≡ (ok os, a'))
    × (scan_get_ruby_results name number self_of scanner true false a' ≡ (ok os, a'))
    × (get_ruby_paired_peripherals name number self_of scanner true false a' ≡ (ok os, a'))
    × (length os ≡ 2)
same_objects_example =
    same_objects name number self_of scanner true adapter true false tt (refl, (refl, tt))
      (refl, (refl, tt))

-- The adapter at address 1 scans, the one at 2 does not.
abbrev scans : ℕ → Bool
scans this = this == 1

second_is_wrong :
    answers scanner none ((scans, 2) ∷ (scans, 1) ∷ [])
    ≡ (codes "initialized" ∷ []) ∷ (codes "initialized" ∷ []) ∷ []
unfolding answers status_flags
second_is_wrong = refl

status_flags_lem_example :
    answers scanner none ((scans, 2) ∷ (scans, 1) ∷ [])
    ≡ map (λ (call : (ℕ → Bool) × ℕ). flags_of scanner (call.0 2)) ((scans, 2) ∷ (scans, 1) ∷ [])
status_flags_lem_example = status_flags_lem scanner scans 2 ((scans, 1) ∷ [])

scanner-Scans : Scans scanner
scanner-Scans = record { starts = λ s. (refl, refl); stops = λ s. (refl, refl) }

abbrev requests : List Request
requests = stop ∷ start ∷ start ∷ stop ∷ stop ∷ start ∷ []

request_all_lem_example :
    (s : Bool) × (request_all (logged scanner) requests (false, [])
      ≡ (ok tt, (s, changes false requests)))
    × (s ≡ finally false requests)
request_all_lem_example = request_all_lem scanner requests false [] scanner-Scans

asked : changes false requests ≡ start ∷ stop ∷ start ∷ []
asked = refl
