-- ===== src/Bindings/Adapter/Queued.antt =====
-- The events of an adapter behind the queue. SimpleBLE's thread pushes one item for each; the pointers to the callbacks,
-- which it tests before, are never null. The thread of Ruby calls the items.
use mathlib.Core.List.{reverse, reverse-cons, map-append}
use ru_ble.Base.{
  ℕ, suc, ◌+◌, ◌≡◌, refl, ap, Bool, false, Option, some, List, [], ◌∷◌, map, length, arith, Result,
  ok,
}
use ru_ble.Base.Texts.{Text}
use ru_ble.Base.Maps.{IsSorted}
use ru_ble.Containers.Callback.{Call, call_of}
use ru_ble.Containers.Callback
use ru_ble.Utils.CallbackTraits.{proc_value, ParameterType}
use ru_ble.Management.Registry.{Registry, map_to_objects}
use ru_ble.Management.Registry.Bulk.{fetch-Extends, map_to_objects-cons}
use ru_ble.Management.RubyQueue.{RubyQueue, push_all, drain}
use ru_ble.Management.RubyQueue.Order.{drain-push_all}
use ru_ble.Bindings.Adapter.{
  Adapter, fire_scan_start, fire_scan_stop, fire_scan_find, fire_scan_update,
}

length-map : {A B : Type 0} (f : A → B) (xs : List A) → length (map f xs) ≡ length xs
length-map f [] = refl
length-map f (x ∷ xs) = ap suc (length-map f xs)

reverse-map : {A B : Type 0} (f : A → B) (xs : List A) → reverse (map f xs) ≡ map f (reverse xs)
reverse-map f [] = refl
reverse-map f (x ∷ xs) =
    rw
      (
        reverse-cons (f x) (map f xs),
        reverse-cons x xs,
        map-append f (reverse xs) (x ∷ []),
        reverse-map f xs,
      )
      refl

pub data Event (V : Type 0) : Type 0 where
  scan_started scan_stopped : Event V
  scan_updated scan_found : V → Event V

abbrev pub Outcome : Type 0
Outcome = Result (Option (Call ℕ))

module _ {V P : Type 0} (address_of : V → Text) (new_peripheral : ℕ → V → P) (self_of : P → ℕ)
    (debug : Bool) where
  -- The item of an event.
  unfoldable pub run_event : Bool → Event V → Adapter P → Outcome × Adapter P
  run_event during_gc scan_started a = (fire_scan_start debug a, a)
  run_event during_gc scan_stopped a = (fire_scan_stop debug a, a)
  run_event during_gc (scan_updated v) a =
      fire_scan_update address_of new_peripheral self_of during_gc debug a v
  run_event during_gc (scan_found v) a =
      fire_scan_find address_of new_peripheral self_of during_gc debug a v

  unfoldable pub run_events : Bool → List (Event V) → Adapter P → List Outcome × Adapter P
  unfolding run_event
  run_events during_gc [] a = ([], a)
  run_events during_gc (e ∷ es) a =
      let (r, a') = run_event during_gc e a in
      let (rs, a'') = run_events during_gc es a' in (r ∷ rs, a'')

  -- The call of the proc for a proxy.
  abbrev pub told : ℕ → Adapter P → P → Outcome
  told id a p = ok (some (record { proc = id; args = self_of p ∷ a.self ∷ [] }))

  run_found :
      (l : Bool) (params : List ParameterType) (id : ℕ) (a : Adapter P) (vs : List V)
      → a.on_scan_find_cb ≡ record { arg_count = 2; cb = proc_value l params id }
      → IsSorted a.peripheral_registry.entries
      → (ps : List P) × (r : Registry P) × (map_to_objects address_of new_peripheral false
            a.peripheral_registry vs
          ≡ (ok ps, r))
        × (run_events false (map scan_found vs) a
            ≡ (map (told id a) ps, record a { peripheral_registry = r }))
  unfolding run_events run_event map_to_objects fire_scan_find Callback.fire call_of
  run_found l params id a [] f s = ([], a.peripheral_registry, refl, refl)
  run_found l params id a (v ∷ vs) f s =
      let (p, r1, e, x, y, s1) =
        fetch-Extends address_of new_peripheral a.peripheral_registry v s in
      let (ps, r, m, n) = run_found l params id (record a { peripheral_registry = r1 }) vs f s1 in
      (
        p ∷ ps,
        r,
        map_to_objects-cons address_of new_peripheral a.peripheral_registry r1 r v vs e m,
        ground (arith, e, n),
      )

  -- Outside a garbage collection, with a proc set for two arguments, an empty queue that is not stopped and increasing keys:
  -- the peripherals that a scan finds while the thread of Ruby is busy call the proc once each, from the last that was found
  -- to the first, with the objects that `map_to_objects` gives for them in that order, and leave the registry as it does.
  found_backlog :
      (l : Bool) (params : List ParameterType) (id : ℕ) (a : Adapter P) (vs : List V)
      (s : RubyQueue (Event V))
      → a.on_scan_find_cb ≡ record { arg_count = 2; cb = proc_value l params id }
      → IsSorted a.peripheral_registry.entries
      → s.stopping ≡ false
      → s.q ≡ []
      → s.sem ≡ 0
      → let items = (drain (length vs + 1) (push_all debug (map scan_found vs) s)).0 in
        (ps : List P) × (r : Registry P) × (map_to_objects address_of new_peripheral false
            a.peripheral_registry
            (reverse vs)
          ≡ (ok ps, r))
        × (run_events false items a ≡ (map (told id a) ps, record a { peripheral_registry = r }))
  found_backlog l params id a vs s f sorted n p e =
      let (ps, r, m, runs) = run_found l params id a (reverse vs) f sorted in
      let items : (drain (length vs + 1) (push_all debug (map scan_found vs) s)).0
          ≡ map scan_found (reverse vs) =
        rw (← length-map scan_found vs, drain-push_all debug (map scan_found vs) s n p e)
          (reverse-map scan_found vs) in
      (ps, r, m, rw items runs)
