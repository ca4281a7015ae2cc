-- ===== src/Bindings/Shutdown/Runs.antt =====
-- One adapter that scans, with a peripheral that is paired and connected. The state of a peripheral is
-- those two flags, and that of an adapter is whether it scans.
use ru_ble.Base.{ℕ, ◌≡◌, refl, Bool, true, false, some, List, [], ◌∷◌, All, ok, pos}
use ru_ble.Containers.ByteArray.{ByteArray}
use ru_ble.Bindings.Peripheral.{Backend, Step}
use ru_ble.Bindings.Adapter.{AdapterBackend}
use ru_ble.Bindings.Shutdown.{World}
use ru_ble.Base.{◌+◌, ◌*◌, ◌⊎◌, Error, err, runtime_error, arith, is_some}
use ru_ble.Utils.Async.{Environment}
use ru_ble.Management.RubyQueue.{RubyQueue, new_queue, is_running}
use ru_ble.Management.RubyQueue.Lifecycle.{Left, leave}
use ru_ble.Bindings.Shutdown.{shut_peripheral}
use ru_ble.Bindings.Peripheral.{is_paired, is_connected, unpair, disconnect}
use ru_ble.Bindings.Shutdown.Exit.{exit, exit_lem, exit_throws}
use ru_ble.Bindings.Shutdown.Laws.{Obeys, Quiet}

abbrev Flags : Type 0
Flags = Bool × Bool

abbrev nothing : Step Flags (Unit {0})
nothing s = (ok tt, s)

abbrev no_value : Step Flags ByteArray
no_value s = (ok (record { bytes = [] }), s)

abbrev peripheral : Backend Flags
peripheral = record {
  initialized = λ s. true;
  is_paired = λ s. s.0;
  is_connected = λ s. s.1;
  is_connectable = λ s. true;
  identifier = λ s. [];
  rssi = λ s. pos 0;
  tx_power = λ s. pos 0;
  mtu = λ s. 0;
  manufacturer_data = λ s. [];
  connect = λ s. (ok tt, (s.0, true));
  disconnect = λ s. (ok tt, (s.0, false));
  unpair = λ s. (ok tt, (false, s.1));
  read = λ service uuid. no_value;
  read_descriptor = λ service uuid descriptor. no_value;
  write = λ service uuid descriptor value. nothing;
  write_request = λ service uuid value. nothing;
  write_command = λ service uuid value. nothing;
  notify = λ service uuid callback. nothing;
  indicate = λ service uuid callback. nothing;
  unsubscribe = λ service uuid. nothing;
}

abbrev adapter : AdapterBackend Bool ℕ
adapter = record {
  initialized = λ s. true;
  identifier = λ s. [];
  scan_is_active = λ s. s;
  scan_start = λ s. (ok tt, true);
  scan_stop = λ s. (ok tt, false);
  scan_for = λ timeout_ms s. (ok tt, s);
  scan_get_results = λ s. [];
  get_paired_peripherals = λ s. [];
}

abbrev both : Flags
both = (true, true)

abbrev busy : List (Bool × List Flags)
busy = (true, both ∷ []) ∷ []

abbrev running : World Bool Flags
running = record { called = false; adapters = some busy; queue_stopped = false }

device-Obeys : Obeys adapter peripheral
device-Obeys = record {
  scan_stops = λ a. (refl, refl);
  unpairs = λ s. (refl, refl);
  disconnects = λ s. (refl, refl, refl);
}

abbrev Waiting : Type 0
Waiting = RubyQueue ℕ × ℕ

abbrev clock : Environment Waiting
clock = record { now = λ t. t.1; sleep = λ t. (t.0, t.1 + 1) }

abbrev idle : Waiting
idle = (new_queue, 0)

exit_lem_example :
    (ys : List (Bool × List Flags)) × (l : Left Waiting) × (exit adapter peripheral clock 1
        (1 * 1 + 2)
        true
        running
        idle
      ≡ some (ok tt, record { called = true; adapters = some ys; queue_stopped = true }, l))
    × All (Quiet adapter peripheral) ys
    × (((is_running l.state.0).0 ≡ false)
        ⊎ ((l.state.0.stopping ≡ true) × (l.killed ≡ is_some l.state.0.rb_thread)))
exit_lem_example =
    exit_lem adapter peripheral clock 1 running busy idle device-Obeys refl refl (λ u. omega arith)
      (λ u. omega arith)

-- A peripheral that is out of reach, so that it cannot be unpaired.
abbrev out_of_reach : Backend Flags
out_of_reach = record peripheral { unpair = λ s. (err runtime_error, s) }

shut_peripheral_refused : (shut_peripheral adapter out_of_reach both).0 ≡ err runtime_error
unfolding shut_peripheral is_paired is_connected unpair disconnect
shut_peripheral_refused = refl

exit_throws_example :
    (thrown : Error) × (w' : World Bool Flags) × (exit adapter out_of_reach clock 1 3 true running
        idle
      ≡ some (err thrown, w', leave idle))
    × (w'.queue_stopped ≡ false)
    × (exit adapter out_of_reach clock 1 3 true w' idle ≡ some (ok tt, w', leave idle))
exit_throws_example =
    exit_throws adapter out_of_reach clock 1 running busy idle idle 3 true 0 0 true (both ∷ []) both
      runtime_error refl refl refl refl shut_peripheral_refused
