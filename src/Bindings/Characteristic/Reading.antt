-- ===== src/Bindings/Characteristic/Reading.antt =====
-- When a read asks the device.
use ru_ble.Base.{◌≡◌, Bool, true, false, arith, ok}
use ru_ble.Containers.ByteArray.{ByteArray}
use ru_ble.Concerns.ValueTracker.{value_tracking, record_new_value, last_value}
use ru_ble.Bindings.Peripheral.{Backend}
use ru_ble.Bindings.Service
use ru_ble.Bindings.Peripheral
use ru_ble.Bindings.Characteristic.{Characteristic, read, can_notify}

module _ {S : Type 0} (b : Backend S) where
  -- After a read, forced or not, that returned a value under value tracking, a read that is not
  -- forced returns that value, in whatever state the device is then, without asking it and without a change. A
  -- forced read always asks the device for this characteristic of this service, and returns what it answers.
  pub read_again :
      (force : Bool) (c c' : Characteristic) (s s' t : S) (v : ByteArray)
      → value_tracking (can_notify c) c.tracker ≡ true
      → read b force c s ≡ (ok v, c', s')
      → (read b false c' t ≡ (ok v, c', t))
        × ((read b true c' t).0 ≡ (b.read c.owner.uuid c.uuid t).0)
        × ((read b true c' t).2 ≡ (b.read c.owner.uuid c.uuid t).1)
  unfolding read can_notify last_value value_tracking record_new_value Service.read Peripheral.read
  read_again force c c' s s' t v h e = (ground arith, ground arith, ground arith)
