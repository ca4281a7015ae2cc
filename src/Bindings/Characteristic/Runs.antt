-- ===== src/Bindings/Characteristic/Runs.antt =====
-- The heart rate of a device, which notifies.
use mathlib.Core.List.{reverse}
use ru_ble.Base.{
  ℕ, ◌≡◌, refl, Bool, true, false, Option, none, some, List, [], ◌∷◌, if◌then◌else◌, Result, ok,
  err,
}
use ru_ble.Base.Texts.{Text, codes, text_eq}
use ru_ble.Containers.ByteArray.{ByteArray}
use ru_ble.Containers.NamedBitSet
use ru_ble.Concerns.ValueTracker.{
  Tracker, new_tracker, value_tracking, record_new_value, last_value,
}
use ru_ble.Concerns.ValueTracker.Laws.{known}
use ru_ble.Utils.CallbackTraits.{proc_value, req}
use ru_ble.Bindings.Service.{Service}
use ru_ble.Bindings.Service
use ru_ble.Bindings.Peripheral
use ru_ble.Bindings.Device.{device}
use ru_ble.Bindings.Characteristic.{Characteristic, read, can_notify, has_capability, make_map, get}
use ru_ble.Management.RubyQueue.{RubyQueue, new_queue, push_all, drain}
use ru_ble.Management.RubyQueue.Order.{pop_back-append}
use ru_ble.Management.RubyQueue.Threads.{
  System, Reach, begin, later, start_thread, lock, release_latch, set_running, check, put,
  release_push, test_go, acquire, recheck_go, take_item, call_item,
}
use ru_ble.Concerns.ValueTracker.Laws.{last_of}
use ru_ble.Bindings.Characteristic.Backlog.{notified_in_order, notified, notify_backlog}
use ru_ble.Bindings.Characteristic.Reading.{read_again}
use ru_ble.Bindings.Characteristic.Events.{notify_all, calls_for}

abbrev service : Service
service = record { uuid = codes "180d" }

abbrev log : List Text
log = []

abbrev heart_rate : Tracker → Characteristic
heart_rate t = record {
  uuid = codes "2a37";
  self = 7;
  owner = service;
  capabilities = record { bits = false ∷ false ∷ false ∷ true ∷ false ∷ [] };
  tracker = t;
  on_notify = some (record { arg_count = 2; cb = proc_value true (req ∷ req ∷ []) 5 });
  on_indicate = none;
  descriptors = none;
}

abbrev fresh : Tracker
fresh = new_tracker none

abbrev rate : ℕ → ByteArray
rate n = record { bytes = n ∷ [] }

abbrev after : Tracker
after = record { track_values = none; value = some (rate 0) }

abbrev log_after : List Text
log_after = codes "2a37" ∷ []

fresh_tracks : value_tracking (can_notify (heart_rate fresh)) fresh ≡ true
unfolding value_tracking can_notify has_capability NamedBitSet.get NamedBitSet.index_of
    NamedBitSet.index_from text_eq
fresh_tracks = refl

first_read : read device false (heart_rate fresh) log ≡ (ok (rate 0), heart_rate after, log_after)
unfolding read value_tracking last_value record_new_value can_notify has_capability NamedBitSet.get
    NamedBitSet.index_of NamedBitSet.index_from text_eq Service.read Peripheral.read
first_read = refl

read_again_example :
    (read device false (heart_rate after) [] ≡ (ok (rate 0), heart_rate after, []))
    × ((read device true (heart_rate after) []).0
        ≡ (device.read (codes "180d") (codes "2a37") []).0)
    × ((read device true (heart_rate after) []).2
        ≡ (device.read (codes "180d") (codes "2a37") []).1)
read_again_example =
    read_again device false (heart_rate fresh) (heart_rate after) log log_after [] (rate 0)
      fresh_tracks first_read

abbrev rates : List ByteArray
rates = rate 7 ∷ rate 7 ∷ rate 8 ∷ []

abbrev names : List Text
names = codes "read" ∷ codes "notify" ∷ []

-- A descriptor that the device does not list is not found, also when it is asked for again.
no_descriptor :
    (get (codes "2902" ∷ []) (heart_rate fresh) (codes "2901")).0 ≡ err ru_ble.Base.out_of_range
unfolding get make_map ru_ble.Base.Maps.find ru_ble.Base.Maps.emplace text_eq
no_descriptor = refl

abbrev idle : RubyQueue ByteArray
idle = new_queue

notify_backlog_example :
    let items = (drain 4 (push_all false rates idle)).0 in
    let c' = notified false (heart_rate fresh) items in
    (notify_all false (heart_rate fresh) items ≡ calls_for 5 7 (known none) (reverse rates))
    × (last_value c'.tracker ≡ some (rate 7))
    × (read device false c' [] ≡ (ok (rate 7), c', []))
notify_backlog_example =
    notify_backlog device [] false true (heart_rate fresh) (rate 7) (rate 7 ∷ rate 8 ∷ [])
      (req ∷ req ∷ []) 5 idle fresh_tracks refl refl refl refl

-- Two values are notified; the loop calls the first before the second comes.
prompt : (s : System ByteArray) × Reach false s
prompt = (
  _,
  later
      (later
        (later
          (later
            (later
              (later
                (later
                  (later
                    (later
                      (later
                        (later
                          (later
                            (later
                              (later
                                (later (later (later begin (start_thread 42 refl)) lock)
                                  release_latch)
                                set_running)
                              (check refl))
                            (put (rate 7) refl))
                          (release_push refl))
                        (test_go refl))
                      (acquire refl))
                    (recheck_go refl))
                  (take_item (pop_back-append [] (rate 7))))
                call_item)
              (check refl))
            (put (rate 8) refl))
          (release_push refl))
        (test_go refl))
      (acquire refl),
)

handled : (s : System ByteArray) × Reach false s
unfolding prompt
handled = (
  _,
  later (later (later prompt.1 (recheck_go refl)) (take_item (pop_back-append [] (rate 8))))
      call_item,
)

notified_in_order_example :
    (notify_all false (heart_rate fresh) handled.0.called
      ≡ calls_for 5 7 (known none) handled.0.pushed)
    × (last_value (notified false (heart_rate fresh) handled.0.called).tracker
        ≡ last_of none handled.0.pushed)
unfolding handled prompt
notified_in_order_example =
    notified_in_order false true (heart_rate fresh) (req ∷ req ∷ []) 5 handled.0 handled.1
      fresh_tracks refl refl refl refl
