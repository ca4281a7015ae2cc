-- ===== src/Bindings/Shutdown/Exit.antt =====
-- `DeInit` of ext/ruble/bindings/RuBLE.cpp together with the queue that it stops, `RubyQueue::stop_on_exit` of
-- management/RubyQueue.cpp.
use ru_ble.Base.{
  ℕ, suc, zero, ◌+◌, ◌*◌, ◌≤◌, ◌<◌, ◌≡◌, refl, ap, Bool, true, false, Option, none, some, List, [],
  ◌∷◌, arith, get_elem?, All, if◌then◌else◌, Result, ok, err, Error, is_some, ◌⊎◌,
}
use ru_ble.Utils.Async.{Environment}
use ru_ble.Management.RubyQueue.{RubyQueue, is_running}
use ru_ble.Management.RubyQueue.Lifecycle.{
  Left, stop_on_exit, leave, poll_running, stop_on_exit_lem,
}
use ru_ble.Bindings.Peripheral.{Backend}
use ru_ble.Bindings.Adapter.{AdapterBackend}
use ru_ble.Bindings.Shutdown.{
  World, shut_peripheral, shut_peripherals, shut_adapter, shut_adapters, deinit,
}
use ru_ble.Bindings.Shutdown.Laws.{Obeys, Quiet, deinit_lem}

abbrev is_err : Result (Unit {0}) → Bool
is_err (err e) = true
is_err (ok _) = false

is_err-cases : (r : Result (Unit {0})) → is_err r ≡ true → (e : Error) × (r ≡ err e)
is_err-cases (err e) h = (e, refl)
is_err-cases (ok _) h = cc

module _ {A S V Q W : Type 0} (ab : AdapterBackend A V) (b : Backend S)
    (env : Environment (RubyQueue Q × W)) (second : ℕ) where
  abbrev with_world :
      World A S
      → Option (Left (RubyQueue Q × W))
      → Option (Result (Unit {0}) × World A S × Left (RubyQueue Q × W))
  with_world w none = none
  with_world w (some l) = some (l.outcome, w, l)

  -- What `DeInit` throws, and what it leaves; `none` means that the fuel ran out.
  unfoldable pub exit :
      ℕ
      → Bool
      → World A S
      → RubyQueue Q × W
      → Option (Result (Unit {0}) × World A S × Left (RubyQueue Q × W))
  exit fuel unpair_all_on_exit w t =
      let (r, w') = deinit ab b unpair_all_on_exit w in
      if w.called then some (ok tt, w', leave t) else (elim r [
        | err e ↦ some (err e, w', leave t)
        | ok _ ↦ with_world w' (stop_on_exit env second fuel t)
      ])

  -- If SimpleBLE obeys and the registry of adapters is there, the first call, with `unpair_all_on_exit`, ends (fuel for two rounds more than one second is enough, if sleeping
  -- moves the clock on and polling does not move it back) and throws nothing. Afterwards no adapter scans, no peripheral is
  -- paired or connected, and the loop of the queue is not running, or it was told to stop and `rb_thread_kill` was
  -- called too, unless no thread was recorded.
  pub exit_lem :
      (w : World A S) (xs : List (A × List S)) (t : RubyQueue Q × W)
      → Obeys ab b
      → w.called ≡ false
      → w.adapters ≡ some xs
      → ((u : RubyQueue Q × W) → env.now u < env.now (env.sleep u))
      → ((u : RubyQueue Q × W) → env.now u ≤ env.now (poll_running u).1)
      → (ys : List (A × List S)) × (l : Left (RubyQueue Q × W)) × (exit (1 * second + 2) true w t
          ≡ some (ok tt, record { called = true; adapters = some ys; queue_stopped = true }, l))
        × All (Quiet ab b) ys
        × (((is_running l.state.0).0 ≡ false)
            ⊎ ((l.state.0.stopping ≡ true) × (l.killed ≡ is_some l.state.0.rb_thread)))
  unfolding exit
  exit_lem w xs t obeys first has passes keeps =
      let (ys, e, quiet, _, _, _) = deinit_lem ab b true w xs obeys first has in
      let (l, f, returned, stops) = stop_on_exit_lem env second t passes keeps in
      (ys, l, ground (arith, e, f, returned), quiet, stops)

  shut_peripherals_throws :
      (ss : List S) (i : ℕ) (s : S)
      → get_elem? ss i ≡ some s
      → is_err (shut_peripheral ab b s).0 ≡ true
      → is_err (shut_peripherals ab b ss).0 ≡ true
  unfolding shut_peripherals
  shut_peripherals_throws [] i s at_i h = cc
  shut_peripherals_throws (x ∷ ss) zero s at_i h = ground (arith, at_i, h)
  shut_peripherals_throws (x ∷ ss) (suc i) s at_i h =
      ground (arith, shut_peripherals_throws ss i s at_i h)

  shut_adapter_throws :
      (a : A) (ss : List S)
      → is_err (shut_peripherals ab b ss).0 ≡ true
      → is_err (shut_adapter ab b (a, ss)).0 ≡ true
  unfolding shut_adapter
  shut_adapter_throws a ss h = ground (arith, h)

  shut_adapters_throws :
      (xs : List (A × List S)) (j : ℕ) (a : A) (ss : List S)
      → get_elem? xs j ≡ some (a, ss)
      → is_err (shut_peripherals ab b ss).0 ≡ true
      → is_err (shut_adapters ab b xs).0 ≡ true
  unfolding shut_adapters
  shut_adapters_throws [] j a ss at_j h = cc
  shut_adapters_throws (x ∷ xs) zero a ss at_j h = ground (arith, at_j, shut_adapter_throws a ss h)
  shut_adapters_throws (x ∷ xs) (suc j) a ss at_j h =
      ground (arith, shut_adapters_throws xs j a ss at_j h)

  -- If shutting down one of the peripherals throws, then so does the first call of `DeInit` with `unpair_all_on_exit`, whatever the fuel is, and the queue
  -- is as it was: it was not told to stop. Any later call does nothing, so the queue is never stopped by it.
  pub exit_throws :
      (w : World A S) (xs : List (A × List S)) (t t' : RubyQueue Q × W) (fuel : ℕ) (again : Bool)
      (j i : ℕ) (a : A) (ss : List S) (s : S) (e : Error)
      → w.called ≡ false
      → w.adapters ≡ some xs
      → get_elem? xs j ≡ some (a, ss)
      → get_elem? ss i ≡ some s
      → (shut_peripheral ab b s).0 ≡ err e
      → (thrown : Error) × (w' : World A S) × (exit fuel true w t ≡ some (err thrown, w', leave t))
        × (w'.queue_stopped ≡ w.queue_stopped)
        × (exit fuel again w' t' ≡ some (ok tt, w', leave t'))
  unfolding exit deinit
  exit_throws w xs t t' fuel again j i a ss s e first has at_j at_i h =
      let inner : is_err (shut_peripherals ab b ss).0 ≡ true =
        shut_peripherals_throws ss i s at_i (ap is_err h) in
      let (thrown, e') =
        is_err-cases (shut_adapters ab b xs).0 (shut_adapters_throws xs j a ss at_j inner) in
      let w' : World A S = record w { called = true; adapters = some (shut_adapters ab b xs).1 } in
      (thrown, w', ground (arith, first, has, e'), refl, ground arith)
