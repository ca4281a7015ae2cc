-- ===== src/Bindings/Adapter/Events.antt =====
-- What Ruby is told of a scan.
use ru_ble.Base.{ℕ, ◌≡◌, Bool, false, some, List, [], ◌∷◌, arith, ok}
use ru_ble.Base.Texts.{Text}
use ru_ble.Containers.Callback.{Call, call_of}
use ru_ble.Containers.Callback
use ru_ble.Utils.CallbackTraits.{proc_value, ParameterType}
use ru_ble.Management.Registry.Fetch.{fetch_lem}
use ru_ble.Bindings.Adapter.{Adapter, fire_scan_find, fire_scan_update}

module _ {V P : Type 0} (address_of : V → Text) (new_peripheral : ℕ → V → P) (self_of : P → ℕ) where
  -- Outside a garbage collection and with procs set for two arguments, a peripheral that is found calls the
  -- proc with the object of its proxy and with the adapter. A later update of a peripheral with the same
  -- address, a garbage collection or not, calls the other proc with the same object, and changes nothing.
  pub found_updated :
      (debug l k gc : Bool) (a : Adapter P) (v w : V) (ps qs : List ParameterType)
      (find_id update_id : ℕ)
      → a.on_scan_find_cb ≡ record { arg_count = 2; cb = proc_value l ps find_id }
      → a.on_scan_update_cb ≡ record { arg_count = 2; cb = proc_value k qs update_id }
      → address_of w ≡ address_of v
      → (p : P) × (a' : Adapter P) × (fire_scan_find address_of new_peripheral self_of false debug a
            v
          ≡ (ok (some (record { proc = find_id; args = self_of p ∷ a.self ∷ [] })), a'))
        × (fire_scan_update address_of new_peripheral self_of gc debug a' w
            ≡ (ok (some (record { proc = update_id; args = self_of p ∷ a.self ∷ [] })), a'))
  unfolding fire_scan_find fire_scan_update Callback.fire call_of
  found_updated debug l k gc a v w ps qs find_id update_id f u h =
      let (p, o, r', e, j, e') =
        fetch_lem address_of new_peripheral a.peripheral_registry v w gc (address_of v) h in
      (p, record a { peripheral_registry = r' }, ground (arith, e), ground (arith, e'))
