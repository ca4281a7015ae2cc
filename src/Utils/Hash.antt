-- ===== src/Utils/Hash.antt =====
-- ext/ruble/utils/hash.hpp and hash.cpp: hashes of the objects, on a platform where `std::size_t` has 64 bits. The
-- hash of a string, the address or UUID of the object, and the hash codes of the types are parameters.
pub mod Xor
pub mod Keys
use ru_ble.Base.{ℕ, ◌*◌, ◌%◌, ◌^◌, Bool, List, bit_xor}
use ru_ble.Base.Texts.{Text}
use ru_ble.Containers.NamedBitSet.{NamedBitSet}

-- `h1 ^ (h2 << 1)`
unfoldable pub combine : ℕ → ℕ → ℕ
combine h1 h2 = bit_xor h1 ((h2 * 2) % 2 ^ 64)

module _ (hasher : Text → ℕ) where
  -- `std::hash` of an adapter, a peripheral, a service or a characteristic of SimpleBLE, and of a `Descriptor`.
  unfoldable pub hash_simple : ℕ → Text → ℕ
  unfolding combine
  hash_simple type_code key = combine type_code (hasher key)

  -- `std::hash` of `Adapter`, `Peripheral`, `Service` and `Characteristic`.
  unfoldable pub hash_wrapped : ℕ → ℕ → Text → ℕ
  unfolding combine hash_simple
  hash_wrapped type_code simple_code key = combine type_code (hash_simple simple_code key)

-- What `typeid(...).hash_code()` gives for each class.
pub record TypeCodes : Type 0 where
  pub simple_adapter : ℕ
  pub adapter : ℕ
  pub simple_peripheral : ℕ
  pub peripheral : ℕ
  pub simple_service : ℕ
  pub service : ℕ
  pub simple_characteristic : ℕ
  pub characteristic : ℕ
  pub descriptor : ℕ
  pub named_bit_set : ℕ

-- `std::hash` of the classes, of an object with an address or a UUID. The first four are of the classes of SimpleBLE.
module _ (hasher : Text → ℕ) (types : TypeCodes) where
  hash_simple_adapter : Text → ℕ
  hash_simple_adapter address = hash_simple hasher types.simple_adapter address

  hash_simple_peripheral : Text → ℕ
  hash_simple_peripheral address = hash_simple hasher types.simple_peripheral address

  hash_simple_service : Text → ℕ
  hash_simple_service uuid = hash_simple hasher types.simple_service uuid

  hash_simple_characteristic : Text → ℕ
  hash_simple_characteristic uuid = hash_simple hasher types.simple_characteristic uuid

  hash_adapter : Text → ℕ
  hash_adapter address = hash_wrapped hasher types.adapter types.simple_adapter address

  hash_peripheral : Text → ℕ
  hash_peripheral address = hash_wrapped hasher types.peripheral types.simple_peripheral address

  hash_service : Text → ℕ
  hash_service uuid = hash_wrapped hasher types.service types.simple_service uuid

  hash_characteristic : Text → ℕ
  hash_characteristic uuid =
      hash_wrapped hasher types.characteristic types.simple_characteristic uuid

  hash_descriptor : Text → ℕ
  hash_descriptor uuid = hash_simple hasher types.descriptor uuid

-- `std::hash` of a set of named bits, with that of its bits.
hash_named_bit_set : (List Bool → ℕ) → TypeCodes → NamedBitSet → ℕ
unfolding combine
hash_named_bit_set hasher types s = combine types.named_bit_set (hasher s.bits)
