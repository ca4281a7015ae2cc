-- ===== src/Bindings/Characteristic/Backlog.antt =====
-- A characteristic behind the queue: values that are notified while the Ruby thread is busy. The items of the queue are the
-- values that `fire_on_notify` is bound to.
use mathlib.Core.List.{reverse, reverse-cons, append-nil}
use ru_ble.Management.RubyQueue.Threads.{System, Reach}
use ru_ble.Management.RubyQueue.InOrder.{keeps_up, called_in_order}
use ru_ble.Management.RubyQueue.Safety.{in_hand}
use ru_ble.Base.{
  ℕ, ◌+◌, ◌≡◌, refl, ap, ◌∙◌, Bool, true, false, Option, some, List, [], ◌∷◌, ◌++◌, arith, ok,
  length,
}
use ru_ble.Containers.ByteArray.{ByteArray}
use ru_ble.Concerns.ValueTracker.{value_tracking, last_value}
use ru_ble.Concerns.ValueTracker.Laws.{known, last_of, record_tracked}
use ru_ble.Utils.CallbackTraits.{proc_value, ParameterType}
use ru_ble.Management.RubyQueue.{RubyQueue, push_all, drain}
use ru_ble.Management.RubyQueue.Order.{drain-push_all}
use ru_ble.Bindings.Peripheral.{Backend}
use ru_ble.Bindings.Characteristic.{Characteristic, can_notify, fire_on_notify, read}
use ru_ble.Bindings.Characteristic.Events.{notify_all, calls_for, notify_all_lem}

-- The characteristic when `fire_on_notify` was called on each value.
pub notified : Bool → Characteristic → List ByteArray → Characteristic
notified debug c [] = c
notified debug c (v ∷ vs) = notified debug (fire_on_notify debug c v).1 vs

notified-tracked :
    (debug : Bool) (c : Characteristic) (vs : List ByteArray)
    → value_tracking (can_notify c) c.tracker ≡ true
    → notified debug c vs
      ≡ record c { tracker = record c.tracker { value = last_of c.tracker.value vs } }
unfolding notified fire_on_notify can_notify value_tracking
notified-tracked debug c [] t = refl
notified-tracked debug c (v ∷ vs) t =
    let c' = record c { tracker = record c.tracker { value = some v } } in
    ground (arith, record_tracked (can_notify c) c.tracker v t, notified-tracked debug c' vs t)

last_of-append :
    (o : Option ByteArray) (vs : List ByteArray) (v : ByteArray)
    → last_of o (vs ++ (v ∷ [])) ≡ some v
last_of-append o [] v = refl
last_of-append o (u ∷ vs) v = last_of-append (some u) vs v

known_read :
    {S : Type 0} (b : Backend S) (c : Characteristic) (t : S) (v : ByteArray)
    → value_tracking (can_notify c) c.tracker ≡ true
    → c.tracker.value ≡ some v
    → read b false c t ≡ (ok v, c, t)
unfolding read can_notify last_value value_tracking
known_read b c t v h e = ground arith

-- Values are notified while the loop is busy, with an empty queue at first, under value tracking and with a proc set for two
-- arguments. The proc is then called for the newest value first: once for each value that differs from the one
-- handled before it. At the end the last value of the characteristic is the oldest of them, and that is
-- what a read that is not forced returns, in whatever state the device is, without asking it.
pub notify_backlog :
    {S : Type 0} (b : Backend S) (t : S) (debug is_lambda : Bool) (c : Characteristic)
    (v : ByteArray) (vs : List ByteArray) (params : List ParameterType) (id : ℕ)
    (s : RubyQueue ByteArray)
    → value_tracking (can_notify c) c.tracker ≡ true
    → c.on_notify ≡ some (record { arg_count = 2; cb = proc_value is_lambda params id })
    → s.stopping ≡ false
    → s.q ≡ []
    → s.sem ≡ 0
    → let items = (drain (length (v ∷ vs) + 1) (push_all debug (v ∷ vs) s)).0 in
      let c' = notified debug c items in
      (notify_all debug c items ≡ calls_for id c.self (known c.tracker.value) (reverse (v ∷ vs)))
      × (last_value c'.tracker ≡ some v)
      × (read b false c' t ≡ (ok v, c', t))
unfolding last_value value_tracking can_notify
notify_backlog b t debug is_lambda c v vs params id s h n p e m =
    let late : Option ByteArray = last_of c.tracker.value (reverse (v ∷ vs)) in
    let c' : Characteristic = record c { tracker = record c.tracker { value = late } } in
    let oldest : late ≡ some v =
      ap (last_of c.tracker.value) (reverse-cons v vs)
      ∙ last_of-append c.tracker.value (reverse vs) v in
    rw (drain-push_all debug (v ∷ vs) s p e m, notified-tracked debug c (reverse (v ∷ vs)) h)
      (
        notify_all_lem debug is_lambda c (reverse (v ∷ vs)) params id h n,
        oldest,
        known_read b c' t v h oldest,
      )

-- Values are notified while the loop keeps up, whatever the threads do, under value tracking and with a proc set for two
-- arguments. When none of them waits and none is in hand, the proc was called, in the order in which they were notified, once for each value
-- that differs from the one before it, and the last value of the characteristic is the newest of them.
pub notified_in_order :
    (debug is_lambda : Bool) (c : Characteristic) (params : List ParameterType) (id : ℕ)
    (s : System ByteArray) (r : Reach debug s)
    → value_tracking (can_notify c) c.tracker ≡ true
    → c.on_notify ≡ some (record { arg_count = 2; cb = proc_value is_lambda params id })
    → keeps_up r ≡ true
    → in_hand s.pc ≡ []
    → s.mem.q ≡ []
    → (notify_all debug c s.called ≡ calls_for id c.self (known c.tracker.value) s.pushed)
      × (last_value (notified debug c s.called).tracker ≡ last_of c.tracker.value s.pushed)
unfolding last_value
notified_in_order debug is_lambda c params id s r h n k hand q =
    let (_, order) = called_in_order r k in
    let same : s.pushed ≡ s.called = order ∙ (rw (hand, q) (append-nil s.called)) in
    rw same (
      notify_all_lem debug is_lambda c s.called params id h n,
      rw (notified-tracked debug c s.called h) refl,
    )
