-- ===== src/Management/RegistryFactory.antt =====
-- ext/ruble/management/RegistryFactory.hpp: a registry for each owner. `O` is the class of owners, `hash` the hash of one;
-- `new_registry` makes the registry of an owner.
pub mod Sharing
pub mod Race
mod Runs
use ru_ble.Base.{
  ℕ, Bool, true, false, Option, none, some, List, [], ◌∷◌, ◌==◌, if◌then◌else◌, is_some,
}

-- `_registries`, the hash map from hashes of owners.
pub record RegistryFactory (R : Type 0) : Type 0 where
  pub registries : List (ℕ × R)

-- The constructor.
abbrev pub new_factory : {R : Type 0} → RegistryFactory R
new_factory = record { registries = [] }

unfoldable pub find_hash : {R : Type 0} → ℕ → List (ℕ × R) → Option R
find_hash index [] = none
find_hash index ((i, r) ∷ rest) = if i == index then some r else find_hash index rest

-- `try_emplace`, where there is no entry.
abbrev pub with_registry : {R : Type 0} → ℕ → R → RegistryFactory R → RegistryFactory R
with_registry index r f = record { registries = (index, r) ∷ f.registries }

-- The registry of an owner, and the factory afterwards.
unfoldable pub registry :
    {O R : Type 0} → (O → ℕ) → (O → R) → RegistryFactory R → O → R × RegistryFactory R
unfolding find_hash
registry hash new_registry f owner = elim (find_hash (hash owner) f.registries) [
  | some r ↦ (r, f)
  | none ↦ (new_registry owner, with_registry (hash owner) (new_registry owner) f)
]

-- `_instance`, which is made at the first use, and `instance`.
unfoldable pub instance_of :
    {R : Type 0} → Option (RegistryFactory R) → RegistryFactory R × Option (RegistryFactory R)
instance_of none = (new_factory, some new_factory)
instance_of (some f) = (f, some f)

-- `getRegistry`: the registry, and the static `_instance` afterwards.
unfoldable pub get_registry :
    {O R : Type 0}
    → (O → ℕ)
    → (O → R)
    → Option (RegistryFactory R)
    → O
    → R × Option (RegistryFactory R)
unfolding instance_of registry
get_registry hash new_registry instance owner =
    let (r, f) = registry hash new_registry (instance_of instance).0 owner in (r, some f)
