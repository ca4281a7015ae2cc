-- ===== src/Bindings/Characteristic/Capabilities.antt =====
-- What a characteristic says that it can do.
use ru_ble.Base.{◌≡◌, refl, Bool, false, List, ok, err, arith}
use ru_ble.Base.Texts.{Text, codes, text_eq}
use ru_ble.Containers.NamedBitSet
use ru_ble.Containers.NamedBitSet.Positions.{contains}
use ru_ble.Containers.NamedBitSet.Flags.{AllFields, get-of_list}
use ru_ble.Containers.NamedBitSet.{NamedBitSet}
use ru_ble.Bindings.Characteristic.{
  Characteristic, capability_names, has_capability, can_notify, can_indicate,
}

-- Each of the names is a capability, so nothing is thrown.
unfoldable pub can_read : Characteristic → Bool
unfolding has_capability
can_read c = elim (has_capability c (codes "read")) [ err e ↦ false | ok b ↦ b ]

unfoldable pub can_write_request : Characteristic → Bool
unfolding has_capability
can_write_request c = elim (has_capability c (codes "write_request")) [ err e ↦ false | ok b ↦ b ]

unfoldable pub can_write_command : Characteristic → Bool
unfolding has_capability
can_write_command c = elim (has_capability c (codes "write_command")) [ err e ↦ false | ok b ↦ b ]

-- `capability_names()`
unfoldable pub names : Characteristic → List Text
names c = NamedBitSet.flag_names capability_names c.capabilities

-- Of a characteristic whose capabilities were made from names of capabilities, each test says whether its name is among
-- them.
pub capabilities_lem :
    (c : Characteristic) (listed : List Text)
    → AllFields capability_names listed
    → NamedBitSet.of_list capability_names listed ≡ ok c.capabilities
    → (can_read c ≡ contains (codes "read") listed)
      × (can_write_request c ≡ contains (codes "write_request") listed)
      × (can_write_command c ≡ contains (codes "write_command") listed)
      × (can_notify c ≡ contains (codes "notify") listed)
      × (can_indicate c ≡ contains (codes "indicate") listed)
unfolding can_read can_write_request can_write_command can_notify can_indicate has_capability
    contains text_eq
capabilities_lem c listed k e =
    let (f, e', h, g) = get-of_list capability_names listed k in
    (
      ground (arith, e, e', g (codes "read") refl),
      ground (arith, e, e', g (codes "write_request") refl),
      ground (arith, e, e', g (codes "write_command") refl),
      ground (arith, e, e', g (codes "notify") refl),
      ground (arith, e, e', g (codes "indicate") refl),
    )
