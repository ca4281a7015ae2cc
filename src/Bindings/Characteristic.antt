-- ===== src/Bindings/Characteristic.antt =====
-- ext/ruble/bindings/Characteristic.hpp, Characteristic.cpp, Descriptor.hpp and Descriptor.cpp: a characteristic of a
-- service, and its descriptors.
pub mod Reading
pub mod Events
pub mod Backlog
pub mod Capabilities
mod Runs
use ru_ble.Base.{
  ℕ, Bool, true, false, not, ◌&&◌, ◌||◌, Option, none, some, List, [], ◌∷◌, if◌then◌else◌, Result,
  ok, err, is_some, out_of_range, fault, Error,
}
use Prim.Native.Nat.{Ordering}
use ru_ble.Base.Texts.{Text, codes, compare_text}
use ru_ble.Base.Maps.{find, emplace}
use ru_ble.Containers.ByteArray.{ByteArray}
use ru_ble.Containers.NamedBitSet.{NamedBitSet}
use ru_ble.Containers.NamedBitSet
use ru_ble.Containers.Callback.{Callback, Call, new_callback}
use ru_ble.Containers.Callback
use ru_ble.Concerns.ValueTracker.{
  Tracker, new_tracker, value_tracking, record_new_value, last_value,
}
use ru_ble.Utils.CallbackTraits.{Value}
use ru_ble.Bindings.Peripheral.{Backend, Step}
use ru_ble.Bindings.Service.{Service}
use ru_ble.Bindings.Service

-- `CAPABILITY_NAMES`
abbrev pub capability_names : List Text
capability_names =
    codes "read"
    ∷ codes "write_request"
    ∷ codes "write_command"
    ∷ codes "notify"
    ∷ codes "indicate"
    ∷ []

-- `CharacteristicCapabilityType`, whose enumerators have no values given.
abbrev pub capability_types : List (Text × ℕ)
capability_types =
    (codes "READ", 0)
    ∷ (codes "WRITE_REQUEST", 1)
    ∷ (codes "WRITE_COMMAND", 2)
    ∷ (codes "NOTIFY", 3)
    ∷ (codes "INDICATE", 4)
    ∷ []

-- A descriptor; its characteristic is the one that its calls are given.
pub record Descriptor : Type 0 where
  pub uuid : Text

-- `self` stands for the Ruby object. `capabilities`, which the source computes at the first use from what
-- SimpleBLE answers, is computed by the constructor here.
pub record Characteristic : Type 0 where
  pub uuid : Text
  pub self : ℕ
  pub owner : Service
  pub capabilities : NamedBitSet
  pub tracker : Tracker
  pub on_notify : Option Callback
  pub on_indicate : Option Callback
  pub descriptors : Option (List (Text × Descriptor))

pub has_capability : Characteristic → Text → Result Bool
has_capability c name = NamedBitSet.get capability_names c.capabilities name

-- Each of the names is a capability, so nothing is thrown.
pub can_notify : Characteristic → Bool
unfolding has_capability
can_notify c = elim (has_capability c (codes "notify")) [ err e ↦ false | ok b ↦ b ]

pub can_indicate : Characteristic → Bool
unfolding has_capability
can_indicate c = elim (has_capability c (codes "indicate")) [ err e ↦ false | ok b ↦ b ]

-- The next call is made only if this one threw nothing.
abbrev pub and_then : {S A B : Type 0} → Step S A → (A → Step S B) → Step S B
and_then m f s = let (r, s') = m s in elim r [ err e ↦ (err e, s') | ok a ↦ f a s' ]

abbrev pub done : {S : Type 0} → Step S (Unit {0})
done s = (ok tt, s)

module _ {S : Type 0} (b : Backend S) where
  -- What the constructor asks SimpleBLE for. The callbacks push `fire_on_notify` and `fire_on_indicate` of this
  -- object on the queue.
  pub subscribe : Characteristic → Step S (Unit {0})
  unfolding can_notify can_indicate
  subscribe c =
      and_then (if can_notify c then Service.notify b c.owner c.uuid c.self else done)
        (λ _. if can_indicate c then Service.indicate b c.owner c.uuid c.self else done)

  -- The constructor, from what SimpleBLE answers for the UUID and for the capabilities.
  pub new_characteristic : Text → List Text → Service → ℕ → Step S Characteristic
  unfolding subscribe
  new_characteristic uuid names owner self = elim (NamedBitSet.of_list capability_names names) [
    | err e ↦ λ s. (err e, s)
    | ok flags ↦
        let c : Characteristic = record {
          uuid = uuid;
          self = self;
          owner = owner;
          capabilities = flags;
          tracker = new_tracker none;
          on_notify = none;
          on_indicate = none;
          descriptors = none;
        } in
        and_then (subscribe c) (λ _ s. (ok c, s))
  ]

  -- `read(bool)`
  unfoldable pub read : Bool → Characteristic → S → Result ByteArray × Characteristic × S
  unfolding can_notify
  read force c s =
      let known =
        if not force && value_tracking (can_notify c) c.tracker
        then last_value c.tracker
        else none in
      let (r, s') = Service.read b c.owner c.uuid s in
      elim known [
        | some value ↦ (ok value, c, s)
        | none ↦ elim r [
          | err e ↦ (err e, c, s')
          | ok value ↦ (
            ok value,
            record c { tracker = (record_new_value (can_notify c) c.tracker value).1 },
            s',
          )
        ]
      ]

  unfoldable pub read_descriptor : Characteristic → Text → Step S ByteArray
  read_descriptor c descriptor = Service.read_descriptor b c.owner c.uuid descriptor

  unfoldable pub write : Characteristic → Text → ByteArray → Step S (Unit {0})
  write c descriptor value = Service.write b c.owner c.uuid descriptor value

  unfoldable pub write_request : Characteristic → ByteArray → Step S (Unit {0})
  write_request c value = Service.write_request b c.owner c.uuid value

  unfoldable pub write_command : Characteristic → ByteArray → Step S (Unit {0})
  write_command c value = Service.write_command b c.owner c.uuid value

  unfoldable pub unsubscribe : Characteristic → Step S (Unit {0})
  unsubscribe c = Service.unsubscribe b c.owner c.uuid

  -- `Descriptor::read` and `Descriptor::write`
  unfoldable pub descriptor_read : Characteristic → Descriptor → Step S ByteArray
  unfolding read_descriptor
  descriptor_read c d = read_descriptor c d.uuid

  unfoldable pub descriptor_write : Characteristic → Descriptor → ByteArray → Step S (Unit {0})
  unfolding write
  descriptor_write c d value = write c d.uuid value

pub set_on_notify : Characteristic → Value → Result (Unit {0}) × Characteristic
set_on_notify c v =
    let (r, cb) = Callback.set (elim c.on_notify [ none ↦ new_callback 2 | some cb ↦ cb ]) v in
    (r, record c { on_notify = some cb })

pub set_on_indicate : Characteristic → Value → Result (Unit {0}) × Characteristic
set_on_indicate c v =
    let (r, cb) = Callback.set (elim c.on_indicate [ none ↦ new_callback 2 | some cb ↦ cb ]) v in
    (r, record c { on_indicate = some cb })

-- An argument of a Ruby proc: the bytes, or the characteristic.
pub data Argument : Type 0 where
  bytes_argument : ByteArray → Argument
  self_argument : ℕ → Argument

abbrev pub fire_if_set : Bool → Option Callback → List Argument → Result (Option (Call Argument))
fire_if_set debug none args = ok none
fire_if_set debug (some cb) args = Callback.fire debug cb args

-- The call that is made, and the state afterwards.
pub fire_on_notify :
    Bool → Characteristic → ByteArray → Result (Option (Call Argument)) × Characteristic
unfolding can_notify
fire_on_notify debug c value =
    let (changed, t) = record_new_value (can_notify c) c.tracker value in
    (
      if not changed
          then ok none
          else fire_if_set debug c.on_notify (bytes_argument value ∷ self_argument c.self ∷ []),
      record c { tracker = t },
    )

pub fire_on_indicate : Bool → Characteristic → ByteArray → Result (Option (Call Argument))
fire_on_indicate debug c value =
    fire_if_set debug c.on_indicate (bytes_argument value ∷ self_argument c.self ∷ [])

-- `Descriptor::make_map`
unfoldable pub make_map : List Text → List (Text × Descriptor) → List (Text × Descriptor)
make_map [] result = result
make_map (uuid ∷ range) result = make_map range (emplace uuid (record { uuid = uuid }) result)

-- `listed` is what SimpleBLE answers for the UUIDs of the descriptors.
module _ (listed : List Text) where
  abbrev pub with_descriptors : Characteristic → Characteristic
  with_descriptors c = elim c.descriptors [
    | some m ↦ c
    | none ↦ record c { descriptors = some (make_map listed []) }
  ]

  -- `operator[]`
  unfoldable pub get : Characteristic → Text → Result Descriptor × Characteristic
  unfolding make_map
  get c uuid =
      let c' = with_descriptors c in
      elim c'.descriptors [
        | none ↦ (err fault, c')
        | some m ↦ (elim (find uuid m) [ none ↦ err out_of_range | some d ↦ ok d ], c')
      ]

-- The constructor of a descriptor, from what SimpleBLE answers for its UUID, and its comparison.
new_descriptor : Text → Descriptor
new_descriptor uuid = record { uuid = uuid }

compare_descriptors : Descriptor → Descriptor → Ordering
compare_descriptors d other = compare_text d.uuid other.uuid
