-- ===== src/Bindings/Adapter.antt =====
-- ext/ruble/bindings/Adapter.hpp and Adapter.cpp: a Bluetooth adapter, over the one that SimpleBLE has for it.
pub mod Events
pub mod Results
pub mod Statuses
pub mod Queued
pub mod Scanning
mod Runs
use ru_ble.Base.{
  ℕ, Bool, true, false, not, ◌&&◌, Option, none, some, List, [], ◌∷◌, if◌then◌else◌, Result, ok,
  err, is_some, runtime_error, ◌>>=◌,
}
use ru_ble.Base.Texts.{Text, codes, text_eq}
use ru_ble.Containers.Callback.{Callback, new_callback, Call}
use ru_ble.Containers.Callback
use ru_ble.Utils.CallbackTraits.{Value}
use ru_ble.Management.Registry.{Registry, fetch, map_to_objects, map_to_ruby_objects}
use ru_ble.Bindings.Peripheral.{Step}

-- An adapter of SimpleBLE, with `V` for its peripherals.
pub record AdapterBackend (S V : Type 0) : Type 0 where
  pub initialized : S → Bool
  pub identifier : S → Text
  pub scan_is_active : S → Bool
  pub scan_start : Step S (Unit {0})
  pub scan_stop : Step S (Unit {0})
  pub scan_for : ℕ → Step S (Unit {0})
  pub scan_get_results : S → List V
  pub get_paired_peripherals : S → List V

-- `P` is the class of proxies of peripherals.
pub record Adapter (P : Type 0) : Type 0 where
  pub self : ℕ
  pub addr : Text
  pub on_scan_start_cb : Callback
  pub on_scan_stop_cb : Callback
  pub on_scan_update_cb : Callback
  pub on_scan_find_cb : Callback
  pub peripheral_registry : Registry P

-- The constructor, with the registry that `peripheralRegistryFactory` gives it. The pointer to the
-- adapter of SimpleBLE is never null afterwards.
pub new_adapter : {P : Type 0} → ℕ → Text → Registry P → Adapter P
new_adapter self addr registry = record {
  self = self;
  addr = addr;
  on_scan_start_cb = new_callback 1;
  on_scan_stop_cb = new_callback 1;
  on_scan_update_cb = new_callback 2;
  on_scan_find_cb = new_callback 2;
  peripheral_registry = registry;
}

-- `get` tests the pointer to the adapter of SimpleBLE; `S` is what it points to.
unfoldable pub get : {S : Type 0} → Option S → Result S
get none = err runtime_error
get (some s) = ok s

module _ {S V : Type 0} (b : AdapterBackend S V) where
  pub initialized : Option S → Result Bool
  unfolding get
  initialized adapter = do s ← get adapter; ok (b.initialized s)

  pub identifier : Option S → Result Text
  unfolding get
  identifier adapter = if is_some adapter then (do s ← get adapter; ok (b.identifier s)) else ok []

  pub scan_is_active : Option S → Result Bool
  unfolding get
  scan_is_active adapter = do s ← get adapter; ok (b.scan_is_active s)

  pub scan_start : Step S (Unit {0})
  scan_start s = if not (b.scan_is_active s) then b.scan_start s else (ok tt, s)

  unfoldable pub scan_stop : Step S (Unit {0})
  scan_stop s = if b.scan_is_active s then b.scan_stop s else (ok tt, s)

  pub scan_for : ℕ → Step S (Unit {0})
  scan_for timeout_ms = b.scan_for timeout_ms

module _ {P : Type 0} where
  pub on_scan_start : Adapter P → Value → Result (Unit {0}) × Adapter P
  on_scan_start a v =
      let (r, c) = Callback.set a.on_scan_start_cb v in (r, record a { on_scan_start_cb = c })

  pub on_scan_stop : Adapter P → Value → Result (Unit {0}) × Adapter P
  on_scan_stop a v =
      let (r, c) = Callback.set a.on_scan_stop_cb v in (r, record a { on_scan_stop_cb = c })

  pub on_scan_update : Adapter P → Value → Result (Unit {0}) × Adapter P
  on_scan_update a v =
      let (r, c) = Callback.set a.on_scan_update_cb v in (r, record a { on_scan_update_cb = c })

  pub on_scan_find : Adapter P → Value → Result (Unit {0}) × Adapter P
  on_scan_find a v =
      let (r, c) = Callback.set a.on_scan_find_cb v in (r, record a { on_scan_find_cb = c })

  -- `operator==` with an address and with an adapter.
  pub has_address : Adapter P → Text → Bool
  has_address a addr = not (text_eq a.addr []) && text_eq a.addr addr

  pub equals : Adapter P → Adapter P → Bool
  unfolding has_address
  equals a b = has_address a b.addr

  -- What the thread of Ruby does when a scan starts or stops.
  unfoldable pub fire_scan_start : Bool → Adapter P → Result (Option (Call ℕ))
  fire_scan_start debug a = Callback.fire debug a.on_scan_start_cb (a.self ∷ [])

  unfoldable pub fire_scan_stop : Bool → Adapter P → Result (Option (Call ℕ))
  fire_scan_stop debug a = Callback.fire debug a.on_scan_stop_cb (a.self ∷ [])

module _ {V P : Type 0} (address_of : V → Text) (new_peripheral : ℕ → V → P) (self_of : P → ℕ)
    (during_gc : Bool) where
  -- What the thread of Ruby does for a peripheral that was found, and for one that was updated.
  unfoldable pub fire_scan_find : Bool → Adapter P → V → Result (Option (Call ℕ)) × Adapter P
  fire_scan_find debug a peripheral =
      let (r, registry) =
        fetch address_of new_peripheral during_gc a.peripheral_registry peripheral in
      (
        elim r [
          | err e ↦ err e
          | ok wrapped ↦ Callback.fire debug a.on_scan_find_cb (self_of wrapped ∷ a.self ∷ [])
        ],
        record a { peripheral_registry = registry },
      )

  unfoldable pub fire_scan_update : Bool → Adapter P → V → Result (Option (Call ℕ)) × Adapter P
  fire_scan_update debug a peripheral =
      let (r, registry) =
        fetch address_of new_peripheral during_gc a.peripheral_registry peripheral in
      (
        elim r [
          | err e ↦ err e
          | ok wrapped ↦ Callback.fire debug a.on_scan_update_cb (self_of wrapped ∷ a.self ∷ [])
        ],
        record a { peripheral_registry = registry },
      )

  pub scan_get_results :
      {S : Type 0} → AdapterBackend S V → S → Adapter P → Result (List P) × Adapter P
  scan_get_results b s a =
      let (r, registry) =
        map_to_objects address_of new_peripheral during_gc a.peripheral_registry
          (b.scan_get_results s) in
      (r, record a { peripheral_registry = registry })

  pub get_paired_peripherals :
      {S : Type 0} → AdapterBackend S V → S → Adapter P → Result (List P) × Adapter P
  get_paired_peripherals b s a =
      let (r, registry) =
        map_to_objects address_of new_peripheral during_gc a.peripheral_registry
          (b.get_paired_peripherals s) in
      (r, record a { peripheral_registry = registry })
