-- ===== src/Bindings/Inspection/Addresses.antt =====
-- The texts say which object they are of.
use mathlib.Core.List.{append_assoc}
use ru_ble.Base.{
  err, ℕ, ◌≡◌, ◌<◌, ◌^◌, Option, some, List, [], ◌++◌, Result, ok, Bool-cases, inl, inr,
}
use ru_ble.Base.Texts.{Text, codes}
use ru_ble.Containers.ByteArray.{ByteArray}
use ru_ble.Utils.Hexadecimal.{Boost}
use ru_ble.Utils.Inspection.{basic_object_inspect_start, EnumToString}
use ru_ble.Utils.Inspection.Addresses.{address_in, address_in-start}
use ru_ble.Bindings.Peripheral.{Peripheral, Backend, initialized}
use ru_ble.Bindings.Peripheral.Statuses.{statuses_lem}
use ru_ble.Bindings.Service.{Service}
use ru_ble.Bindings.Characteristic.{Characteristic, Descriptor}
use ru_ble.Bindings.Adapter.{Adapter, AdapterBackend}
use ru_ble.Bindings.Inspection.{
  peripheral_to_s, service_to_s, characteristic_to_s, descriptor_to_s, byte_array_to_s,
  adapter_to_s,
}

-- A text was returned, and it contains the address.
abbrev pub Tells : Text → ℕ → Result Text → Type 0
Tells name this (err e) = ⊥
Tells name this (ok t) = address_in name t ≡ some this

module _ (name : Text) (this : ℕ) (h : this < 16 ^ 16) where
  address_in-space :
      (s t : Text) → address_in name ((basic_object_inspect_start name this ++ s) ++ t) ≡ some this
  address_in-space s t =
      rw (append_assoc (basic_object_inspect_start name this) s t)
        (address_in-start name (s ++ t) this h)

  peripheral_text :
      {S P : Type 0} (e : EnumToString) (b : Backend S) (svc_count : ℕ) (p : Peripheral P) (s : S)
      → Tells name this (peripheral_to_s e b name this svc_count p s)
  unfolding peripheral_to_s
  peripheral_text e b svc_count p s = elim (Bool-cases (initialized b s)) [
    | inl holds ↦ rw (holds, statuses_lem b s) (address_in-space (codes " ") _)
    | inr fails ↦ rw fails (address_in-space (codes " ") (codes "uninitialized>"))
  ]

  adapter_text :
      {A V Q : Type 0} (ab : AdapterBackend A V) (in_order : List Text → List Text) (a : Adapter Q)
      (states : ℕ → A) (flag_check : Option ℕ)
      → Tells name this (ok (adapter_to_s ab in_order [] name this a states flag_check).0)
  unfolding adapter_to_s basic_object_inspect_start
  adapter_text ab in_order a states flag_check = elim (Bool-cases (ab.initialized (states this))) [
    | inl holds ↦ rw holds (address_in-start name _ this h)
    | inr fails ↦ rw fails (address_in-start name (codes " uninitialized>") this h)
  ]

  -- The texts of a peripheral, a service, a characteristic, a descriptor, a byte array and an adapter with
  -- no text from its superclass all contain the address of the object, in digits that read back as it.
  -- None of them throws, that of a byte array if Ruby's `inspect` does not.
  to_s_address :
      {S A V P Q : Type 0} (e : EnumToString) (b : Backend S) (svc_count : ℕ) (p : Peripheral P)
      (s : S) (data_of : ByteArray) (service : Service) (c : Characteristic) (d : Descriptor)
      (boost : Boost) (q : Text → Result Text) (bytes : ByteArray) (quoted : Text)
      (ab : AdapterBackend A V) (in_order : List Text → List Text) (a : Adapter Q) (states : ℕ → A)
      (flag_check : Option ℕ)
      → q bytes.bytes ≡ ok quoted
      → Tells name this (peripheral_to_s e b name this svc_count p s)
        × Tells name this (byte_array_to_s boost q name this bytes)
        × Tells name this (ok (service_to_s name this data_of service))
        × Tells name this (ok (characteristic_to_s name this c))
        × Tells name this (ok (descriptor_to_s name this d))
        × Tells name this (ok (adapter_to_s ab in_order [] name this a states flag_check).0)
  unfolding byte_array_to_s service_to_s characteristic_to_s descriptor_to_s
  to_s_address e b svc_count p s data_of service c d boost q bytes quoted ab in_order a states
        flag_check k =
      (
        peripheral_text e b svc_count p s,
        rw k (address_in-start name _ this h),
        address_in-start name _ this h,
        address_in-start name _ this h,
        address_in-start name _ this h,
        adapter_text ab in_order a states flag_check,
      )
