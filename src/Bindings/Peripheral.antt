-- ===== src/Bindings/Peripheral.antt =====
-- ext/ruble/bindings/Peripheral.hpp and Peripheral.cpp: a device, over the one that SimpleBLE has for it.
pub mod Statuses
pub mod Getters
pub mod Lookup
use ru_ble.Base.{
  ℕ, Bool, true, false, not, ◌||◌, Option, none, some, List, [], ◌∷◌, if◌then◌else◌, Result, ok,
  err, out_of_range, fault, Error, is_some, ℤ,
}
use ru_ble.Base.Texts.{Text, codes}
use ru_ble.Containers.ByteArray.{ByteArray}
use ru_ble.Containers.NamedBitSet.{NamedBitSet, FlagFn, mem_fn, of_map, flag_names}
use ru_ble.Containers.Callback.{Callback, new_callback, Call}
use ru_ble.Containers.Callback
use ru_ble.Utils.CallbackTraits.{Value}
use ru_ble.Management.Registry.{Registry, fetch_each, contains, at}

-- What a call of SimpleBLE returns or throws, and its state afterwards.
abbrev pub Step : Type 0 → Type 0 → Type 0
Step S A = S → Result A × S

-- A peripheral of SimpleBLE: its state, and its functions.
pub record Backend (S : Type 0) : Type 0 where
  pub initialized : S → Bool
  pub is_paired : S → Bool
  pub is_connected : S → Bool
  pub is_connectable : S → Bool
  pub identifier : S → Text
  pub rssi : S → ℤ
  pub tx_power : S → ℤ
  pub mtu : S → ℕ
  pub manufacturer_data : S → List (ℕ × ByteArray)
  pub connect : Step S (Unit {0})
  pub disconnect : Step S (Unit {0})
  pub unpair : Step S (Unit {0})
  pub read : Text → Text → Step S ByteArray
  pub read_descriptor : Text → Text → Text → Step S ByteArray
  pub write : Text → Text → Text → ByteArray → Step S (Unit {0})
  pub write_request : Text → Text → ByteArray → Step S (Unit {0})
  pub write_command : Text → Text → ByteArray → Step S (Unit {0})
  -- The callback of these two is named by a number.
  pub notify : Text → Text → ℕ → Step S (Unit {0})
  pub indicate : Text → Text → ℕ → Step S (Unit {0})
  pub unsubscribe : Text → Text → Step S (Unit {0})

-- `P` is the class of proxies of services. `addr_type` is an enumerator of `AddressType`, as its number.
pub record Peripheral (P : Type 0) : Type 0 where
  pub self : ℕ
  pub addr : Text
  pub addr_type : ℕ
  pub on_connected : Callback
  pub on_disconnected : Callback
  pub service_registry : Option (Registry P)

-- The constructor, with the registry that `serviceRegistryFactory` gives it.
pub new_peripheral : {P : Type 0} → ℕ → Text → ℕ → Registry P → Peripheral P
new_peripheral self addr addr_type registry = record {
  self = self;
  addr = addr;
  addr_type = addr_type;
  on_connected = new_callback 1;
  on_disconnected = new_callback 1;
  service_registry = some registry;
}

module _ {P : Type 0} where
  -- What the thread of Ruby does for each of the two events of SimpleBLE.
  pub fire_connected : Bool → Peripheral P → Result (Option (Call ℕ))
  fire_connected debug p = Callback.fire debug p.on_connected (p.self ∷ [])

  pub fire_disconnected : Bool → Peripheral P → Result (Option (Call ℕ))
  fire_disconnected debug p = Callback.fire debug p.on_disconnected (p.self ∷ [])

  pub on_connect : Peripheral P → Value → Result (Unit {0}) × Peripheral P
  on_connect p v = let (r, c) = Callback.set p.on_connected v in (r, record p { on_connected = c })

  pub on_disconnect : Peripheral P → Value → Result (Unit {0}) × Peripheral P
  on_disconnect p v =
      let (r, c) = Callback.set p.on_disconnected v in (r, record p { on_disconnected = c })

module _ {S : Type 0} (b : Backend S) where
  unfoldable pub initialized : S → Bool
  initialized = b.initialized

  unfoldable pub is_connected : S → Bool
  is_connected = b.is_connected

  unfoldable pub is_connectable : S → Bool
  is_connectable = b.is_connectable

  unfoldable pub is_paired : S → Bool
  is_paired = b.is_paired

  unfoldable pub connect : Step S (Unit {0})
  connect = b.connect

  unfoldable pub disconnect : Step S (Unit {0})
  disconnect = b.disconnect

  unfoldable pub unpair : Step S (Unit {0})
  unpair = b.unpair

  unfoldable pub read : Text → Text → Step S ByteArray
  read service characteristic = b.read service characteristic

  unfoldable pub write_request : Text → Text → ByteArray → Step S (Unit {0})
  write_request service characteristic value = b.write_request service characteristic value

  unfoldable pub write_command : Text → Text → ByteArray → Step S (Unit {0})
  write_command service characteristic value = b.write_command service characteristic value

  unfoldable pub notify : Text → Text → ℕ → Step S (Unit {0})
  notify service characteristic callback = b.notify service characteristic callback

  unfoldable pub indicate : Text → Text → ℕ → Step S (Unit {0})
  indicate service characteristic callback = b.indicate service characteristic callback

  unfoldable pub unsubscribe : Text → Text → Step S (Unit {0})
  unsubscribe service characteristic = b.unsubscribe service characteristic

  unfoldable pub read_descriptor : Text → Text → Text → Step S ByteArray
  read_descriptor service characteristic descriptor =
      b.read_descriptor service characteristic descriptor

  unfoldable pub write : Text → Text → Text → ByteArray → Step S (Unit {0})
  write service characteristic descriptor value = b.write service characteristic descriptor value

-- `StatusFlagNames`
abbrev pub status_flag_names : List Text
status_flag_names =
    codes "initialized" ∷ codes "connected" ∷ codes "connectable" ∷ codes "paired" ∷ []

module _ {S : Type 0} (b : Backend S) where
  -- The tests have different names, so the order of the hash map does not matter.
  abbrev status_flag_testers : List (Text × FlagFn S)
  status_flag_testers =
      (codes "initialized", mem_fn (initialized b))
      ∷ (codes "paired", mem_fn (is_paired b))
      ∷ (codes "connected", mem_fn (is_connected b))
      ∷ (codes "connectable", mem_fn (is_connectable b))
      ∷ []

  pub status_flags : S → Result NamedBitSet
  unfolding initialized is_paired is_connected is_connectable
  status_flags s = of_map status_flag_names status_flag_testers s

  pub statuses : S → Result (List Text)
  unfolding status_flags
  statuses s = elim (status_flags s) [ err e ↦ err e | ok f ↦ ok (flag_names status_flag_names f) ]

-- `out_of_range` is caught.
abbrev pub null_if_missing : {P : Type 0} → Result P → Result (Option P)
null_if_missing (ok p) = ok (some p)
null_if_missing (err out_of_range) = ok none
null_if_missing (err e) = err e

-- `V` is the class of services of SimpleBLE; `listed` is what it answers for the services of the peripheral.
module _ {V P : Type 0} (uuid_of : V → Text) (new_service : ℕ → V → P) (during_gc : Bool)
    (listed : List V) where
  unfoldable pub services : Registry P → Result (List (Text × P)) × Registry P
  services r =
      if during_gc
      then (ok r.entries, r)
      else (let (e, r') = fetch_each uuid_of new_service during_gc r listed in
          (elim e [ err x ↦ err x | ok _ ↦ ok r'.entries ], r'))

  -- `operator[]`. A registry that is a null pointer is undefined behaviour.
  unfoldable pub get : Option (Registry P) → Text → Result (Option P) × Option (Registry P)
  unfolding services
  get none uuid = (err fault, none)
  get (some r) uuid =
      if is_some (some r) || not (contains r uuid)
      then (let (e, r') = services r in
          (
            elim e [ err x ↦ null_if_missing (err x) | ok _ ↦ null_if_missing (at r' uuid) ],
            some r',
          ))
      else (null_if_missing (at r uuid), some r)
