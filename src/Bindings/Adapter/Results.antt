-- ===== src/Bindings/Adapter/Results.antt =====
-- What Ruby gets of an adapter in arrays: the adapters, the peripherals that a scan found, and the paired ones.
use ru_ble.Base.{ℕ, ◌≡◌, Bool, false, List, map, length, arith, Result, ok}
use ru_ble.Base.Texts.{Text}
use ru_ble.Base.Maps.{IsSorted}
use ru_ble.Management.Registry.{Registry, map_to_objects, map_to_ruby_objects}
use ru_ble.Management.Registry.Again.{SameKeys, ruby_objects_first, ruby_objects_again}
use ru_ble.Bindings.Adapter.{Adapter, AdapterBackend}

-- The static functions of SimpleBLE's adapters: `V` is its class of adapters.
pub record Host (W V : Type 0) : Type 0 where
  pub bluetooth_enabled : W → Bool
  pub get_adapters : W → List V

module _ {W V P : Type 0} (address_of : V → Text) (new_adapter : ℕ → V → P) (during_gc : Bool)
    (host : Host W V) where
  unfoldable pub bluetooth_enabled : W → Bool
  bluetooth_enabled w = host.bluetooth_enabled w

  -- `P` is the class of adapters here, and the registry is the one of all of them.
  unfoldable pub get_adapters : W → Registry P → Result (List P) × Registry P
  get_adapters w adapter_registry =
      map_to_objects address_of new_adapter during_gc adapter_registry (host.get_adapters w)

  unfoldable pub get_ruby_adapters :
      {O : Type 0} → (P → O) → W → Registry P → Result (List O) × Registry P
  get_ruby_adapters self_of w adapter_registry =
      map_to_ruby_objects address_of new_adapter self_of during_gc adapter_registry
        (host.get_adapters w)

module _ {S V P O : Type 0} (address_of : V → Text) (new_peripheral : ℕ → V → P) (self_of : P → O)
    (b : AdapterBackend S V) where
  unfoldable pub ruby_objects : Bool → List V → Adapter P → Result (List O) × Adapter P
  ruby_objects during_gc listed a =
      let (r, registry) =
        map_to_ruby_objects address_of new_peripheral self_of during_gc a.peripheral_registry
          listed in
      (r, record a { peripheral_registry = registry })

  unfoldable pub scan_get_ruby_results : Bool → S → Adapter P → Result (List O) × Adapter P
  unfolding ruby_objects
  scan_get_ruby_results during_gc s a = ruby_objects during_gc (b.scan_get_results s) a

  unfoldable pub get_ruby_paired_peripherals : Bool → S → Adapter P → Result (List O) × Adapter P
  unfolding ruby_objects
  get_ruby_paired_peripherals during_gc s a = ruby_objects during_gc (b.get_paired_peripherals s) a

  -- Outside a garbage collection, the objects that Ruby gets for the peripherals of a scan, one for each, it gets again for
  -- any later list of the same peripherals (by their addresses), found by a scan or paired, a garbage collection or not.
  -- The adapter is then as the first call left it.
  pub same_objects :
      (gc : Bool) (a : Adapter P) (s t : S)
      → IsSorted a.peripheral_registry.entries
      → SameKeys address_of (b.scan_get_results s) (b.scan_get_results t)
      → SameKeys address_of (b.scan_get_results s) (b.get_paired_peripherals t)
      → (os : List O) × (a' : Adapter P) × (scan_get_ruby_results false s a ≡ (ok os, a'))
        × (scan_get_ruby_results gc t a' ≡ (ok os, a'))
        × (get_ruby_paired_peripherals gc t a' ≡ (ok os, a'))
        × (length os ≡ length (b.scan_get_results s))
  unfolding scan_get_ruby_results get_ruby_paired_peripherals ruby_objects
  same_objects gc a s t sorted e k =
      let (ps, r, first, stored, n) =
        ruby_objects_first address_of new_peripheral self_of a.peripheral_registry
          (b.scan_get_results s) sorted in
      (
        map self_of ps,
        record a { peripheral_registry = r },
        ground (arith, first),
        ground (
          arith,
          ruby_objects_again address_of new_peripheral self_of gc r (b.scan_get_results s)
              (b.scan_get_results t) ps stored e,
        ),
        ground (
          arith,
          ruby_objects_again address_of new_peripheral self_of gc r (b.scan_get_results s)
              (b.get_paired_peripherals t) ps stored k,
        ),
        n,
      )
