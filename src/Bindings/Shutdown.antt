-- ===== src/Bindings/Shutdown.antt =====
-- `DeInit` of ext/ruble/bindings/RuBLE.cpp, which Ruby calls at its end. Each adapter and each peripheral is the state
-- of the one of SimpleBLE behind it.
pub mod Laws
pub mod Exit
mod Runs
use ru_ble.Base.{
  ℕ, Bool, true, false, not, ◌&&◌, Option, none, some, List, [], ◌∷◌, if◌then◌else◌, Result, ok,
  err,
}
use ru_ble.Bindings.Peripheral.{Backend, is_paired, is_connected, unpair, disconnect, Step}
use ru_ble.Bindings.Adapter.{AdapterBackend, scan_stop}

-- `called` is the static flag; the registry of adapters, in the order of its keys, is null at first, and each
-- adapter has its peripherals. `queue_stopped` says whether `RubyQueue::stop_on_exit` was called.
pub record World (A S : Type 0) : Type 0 where
  pub called : Bool
  pub adapters : Option (List (A × List S))
  pub queue_stopped : Bool

module _ {A S V : Type 0} (ab : AdapterBackend A V) (b : Backend S) where
  pub shut_peripheral : Step S (Unit {0})
  unfolding is_paired unpair is_connected disconnect
  shut_peripheral s =
      let (r, s') = if is_paired b s then unpair b s else (ok tt, s) in
      elim r [
        | err e ↦ (err e, s')
        | ok _ ↦ if is_connected b s' then disconnect b s' else (ok tt, s')
      ]

  pub shut_peripherals : Step (List S) (Unit {0})
  unfolding shut_peripheral
  shut_peripherals [] = (ok tt, [])
  shut_peripherals (s ∷ ss) =
      let (r, s') = shut_peripheral s in
      let (q, ss') = shut_peripherals ss in
      elim r [ err e ↦ (err e, s' ∷ ss) | ok _ ↦ (q, s' ∷ ss') ]

  pub shut_adapter : Step (A × List S) (Unit {0})
  unfolding shut_peripherals scan_stop
  shut_adapter (a, ss) =
      let (r, a') = if ab.scan_is_active a then scan_stop ab a else (ok tt, a) in
      let (q, ss') = shut_peripherals ss in
      elim r [ err e ↦ (err e, (a', ss)) | ok _ ↦ (q, (a', ss')) ]

  pub shut_adapters : Step (List (A × List S)) (Unit {0})
  unfolding shut_adapter
  shut_adapters [] = (ok tt, [])
  shut_adapters (x ∷ xs) =
      let (r, x') = shut_adapter x in
      let (q, xs') = shut_adapters xs in elim r [ err e ↦ (err e, x' ∷ xs) | ok _ ↦ (q, x' ∷ xs') ]

  -- An exception leaves the function before the queue is stopped.
  pub deinit : Bool → Step (World A S) (Unit {0})
  unfolding shut_adapters
  deinit unpair_all_on_exit w = if w.called then (ok tt, w) else (elim w.adapters [
    | none ↦ (ok tt, record w { called = true; queue_stopped = true })
    | some xs ↦
        let (r, xs') = if unpair_all_on_exit then shut_adapters xs else (ok tt, xs) in
        (
          r,
          record {
            called = true;
            adapters = some xs';
            queue_stopped = elim r [ err e ↦ w.queue_stopped | ok _ ↦ true ];
          },
        )
  ])
