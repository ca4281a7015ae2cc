-- ===== src/Bindings/Shutdown/Laws.antt =====
-- What is left when `DeInit` is done.
use ru_ble.Base.{◌≡◌, refl, Bool, true, false, some, List, [], ◌∷◌, arith, ok, All}
use ru_ble.Bindings.Peripheral
use ru_ble.Bindings.Peripheral.{Backend, Step}
use ru_ble.Bindings.Adapter.{AdapterBackend, scan_stop}
use ru_ble.Bindings.Shutdown.{
  World, shut_peripheral, shut_peripherals, shut_adapter, shut_adapters, deinit,
}

-- What the calls promise where they throw nothing: the flag is clear afterwards, and disconnecting does not pair.
pub record Obeys {A S V : Type 0} (ab : AdapterBackend A V) (b : Backend S) : Type 0 where
  pub scan_stops :
      (a : A) → ((ab.scan_stop a).0 ≡ ok tt) × (ab.scan_is_active (ab.scan_stop a).1 ≡ false)
  pub unpairs : (s : S) → ((b.unpair s).0 ≡ ok tt) × (b.is_paired (b.unpair s).1 ≡ false)
  pub disconnects :
      (s : S)
      → ((b.disconnect s).0 ≡ ok tt)
        × (b.is_connected (b.disconnect s).1 ≡ false)
        × (b.is_paired (b.disconnect s).1 ≡ b.is_paired s)

module _ {A S V : Type 0} (ab : AdapterBackend A V) (b : Backend S) where
  abbrev pub Gone : S → Type 0
  Gone s = (b.is_paired s ≡ false) × (b.is_connected s ≡ false)

  abbrev pub Quiet : A × List S → Type 0
  Quiet x = (ab.scan_is_active x.0 ≡ false) × All Gone x.1

  shut_peripheral-Gone :
      Obeys ab b → (s : S) → ((shut_peripheral ab b s).0 ≡ ok tt) × Gone (shut_peripheral ab b s).1
  unfolding shut_peripheral Peripheral.is_paired Peripheral.unpair Peripheral.is_connected
      Peripheral.disconnect
  shut_peripheral-Gone o s =
      ground (arith, o.unpairs s, o.disconnects s, o.disconnects (b.unpair s).1)

  shut_peripherals-Gone :
      Obeys ab b
      → (ss : List S)
      → ((shut_peripherals ab b ss).0 ≡ ok tt) × All Gone (shut_peripherals ab b ss).1
  unfolding shut_peripherals
  shut_peripherals-Gone o [] = (refl, tt)
  shut_peripherals-Gone o (s ∷ ss) =
      let (e, g) = shut_peripheral-Gone o s in
      let (e', g') = shut_peripherals-Gone o ss in ground (arith, e, e', g, g')

  shut_adapter-Quiet :
      Obeys ab b
      → (x : A × List S) → ((shut_adapter ab b x).0 ≡ ok tt) × Quiet (shut_adapter ab b x).1
  unfolding shut_adapter scan_stop
  shut_adapter-Quiet o (a, ss) =
      let (e, g) = shut_peripherals-Gone o ss in ground (arith, e, g, o.scan_stops a)

  shut_adapters-Quiet :
      Obeys ab b
      → (xs : List (A × List S))
      → ((shut_adapters ab b xs).0 ≡ ok tt) × All Quiet (shut_adapters ab b xs).1
  unfolding shut_adapters
  shut_adapters-Quiet o [] = (refl, tt)
  shut_adapters-Quiet o (x ∷ xs) =
      let (e, g) = shut_adapter-Quiet o x in
      let (e', g') = shut_adapters-Quiet o xs in ground (arith, e, e', g, g')

  -- If SimpleBLE obeys, the first call with `unpair_all_on_exit` throws nothing: no adapter scans afterwards, no
  -- peripheral is paired or connected, and the queue was stopped. Without the flag the adapters are left alone and
  -- the queue is stopped all the same. Any call after it does nothing.
  pub deinit_lem :
      (again : Bool) (w : World A S) (xs : List (A × List S))
      → Obeys ab b
      → w.called ≡ false
      → w.adapters ≡ some xs
      → (ys : List (A × List S)) × (deinit ab b true w
          ≡ (ok tt, record { called = true; adapters = some ys; queue_stopped = true }))
        × All Quiet ys
        × (deinit ab b false w
            ≡ (ok tt, record { called = true; adapters = some xs; queue_stopped = true }))
        × (deinit ab b again (deinit ab b true w).1 ≡ (ok tt, (deinit ab b true w).1))
        × (deinit ab b again (deinit ab b false w).1 ≡ (ok tt, (deinit ab b false w).1))
  unfolding deinit
  deinit_lem again w xs o c e =
      let (t, q) = shut_adapters-Quiet o xs in
      (
        (shut_adapters ab b xs).1,
        ground (arith, t),
        q,
        ground arith,
        ground (arith, t),
        ground arith,
      )
