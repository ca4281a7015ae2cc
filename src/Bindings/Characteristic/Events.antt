-- ===== src/Bindings/Characteristic/Events.antt =====
-- What a characteristic asks to be told, and what it passes on to Ruby.
use ru_ble.Base.{
  ℕ, ◌≡◌, refl, Bool, true, Option, none, some, List, [], ◌∷◌, arith, if◌then◌else◌, Result, ok,
}
use ru_ble.Base.Texts.{Text, codes, text_eq}
use ru_ble.Containers.ByteArray.{ByteArray, differs}
use ru_ble.Containers.NamedBitSet.Positions.{contains}
use ru_ble.Containers.NamedBitSet.Flags.{AllFields, get-of_list}
use ru_ble.Containers.Callback.{Callback, Call, call_of}
use ru_ble.Containers.Callback
use ru_ble.Concerns.ValueTracker.{new_tracker, value_tracking}
use ru_ble.Concerns.ValueTracker.Laws.{known, record_tracked}
use ru_ble.Utils.CallbackTraits.{proc_value, ParameterType}
use ru_ble.Bindings.Peripheral.{Backend}
use ru_ble.Bindings.Service.{Service}
use ru_ble.Bindings.Service
use ru_ble.Bindings.Peripheral
use ru_ble.Bindings.Characteristic.{
  Characteristic, capability_names, new_characteristic, subscribe, can_notify, can_indicate,
  has_capability, and_then, done, fire_on_notify, Argument, bytes_argument, self_argument,
}

-- `fire_on_notify` on one value after the other.
pub notify_all : Bool → Characteristic → List ByteArray → List (Result (Option (Call Argument)))
notify_all debug c [] = []
notify_all debug c (v ∷ vs) = let (r, c') = fire_on_notify debug c v in r ∷ notify_all debug c' vs

-- One call for each value that differs from the one before.
pub calls_for : ℕ → ℕ → ByteArray → List ByteArray → List (Result (Option (Call Argument)))
calls_for proc self before [] = []
calls_for proc self before (v ∷ vs) =
    ok (
      if differs before v
      then some (record { proc = proc; args = bytes_argument v ∷ self_argument self ∷ [] })
      else none)
    ∷ calls_for proc self v vs

-- Under value tracking and with a proc set for two arguments, a sequence of notified values calls the proc
-- once for each value that differs from the one recorded before it (from the empty one if there is none),
-- with that value and the characteristic, and not for the others; nothing is thrown.
pub notify_all_lem :
    (debug is_lambda : Bool) (c : Characteristic) (vs : List ByteArray)
    (params : List ParameterType) (id : ℕ)
    → value_tracking (can_notify c) c.tracker ≡ true
    → c.on_notify ≡ some (record { arg_count = 2; cb = proc_value is_lambda params id })
    → notify_all debug c vs ≡ calls_for id c.self (known c.tracker.value) vs
unfolding notify_all calls_for fire_on_notify Callback.fire call_of can_notify value_tracking
notify_all_lem debug is_lambda c [] params id t h = refl
notify_all_lem debug is_lambda c (v ∷ vs) params id t h =
    let c' = record c { tracker = record c.tracker { value = some v } } in
    ground (
      arith,
      record_tracked (can_notify c) c.tracker v t,
      notify_all_lem debug is_lambda c' vs params id t h,
    )

-- If SimpleBLE answers names of capabilities only, the constructor asks the device to notify exactly if `notify` is
-- among them, and then, unless that threw, to indicate exactly if `indicate` is; what these throw it throws.
-- Otherwise it makes a characteristic that can notify and indicate as the names say.
pub new_characteristic_lem :
    {S : Type 0} (b : Backend S) (uuid : Text) (names : List Text) (owner : Service) (self : ℕ)
    (s : S)
    → AllFields capability_names names
    → (c : Characteristic) × (can_notify c ≡ contains (codes "notify") names)
      × (can_indicate c ≡ contains (codes "indicate") names)
      × (new_characteristic b uuid names owner self s
          ≡ and_then
              (if contains (codes "notify") names then b.notify owner.uuid uuid self else done)
              (λ _.
                and_then
                  (if contains (codes "indicate") names
                    then b.indicate owner.uuid uuid self
                    else done)
                  (λ _ t. (ok c, t)))
              s)
unfolding new_characteristic subscribe can_notify can_indicate has_capability Service.notify
    Peripheral.notify Service.indicate Peripheral.indicate contains text_eq
new_characteristic_lem b uuid names owner self s k =
    let (f, e, h, g) = get-of_list capability_names names k in
    let c : Characteristic = record {
      uuid = uuid;
      self = self;
      owner = owner;
      capabilities = f;
      tracker = new_tracker none;
      on_notify = none;
      on_indicate = none;
      descriptors = none;
    } in
    (
      c,
      ground (arith, g (codes "notify") refl),
      ground (arith, g (codes "indicate") refl),
      ground (arith, e, g (codes "notify") refl, g (codes "indicate") refl),
    )
