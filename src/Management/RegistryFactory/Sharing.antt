-- ===== src/Management/RegistryFactory/Sharing.antt =====
-- Which owners share a registry.
use ru_ble.Base.{ap, Option, none, some, ℕ, ◌≡◌, ◌≢◌, refl, ◌%◌, ◌^◌, arith, Option-cases, inl, inr}
use ru_ble.Base.Texts.{Text}
use ru_ble.Utils.Hash.{hash_wrapped}
use ru_ble.Utils.Hash.Keys.{hash_wrapped_iff}
use ru_ble.Management.RegistryFactory.{
  RegistryFactory, find_hash, registry, get_registry, instance_of, new_factory,
}

module _ {O R : Type 0} (hash : O → ℕ) (new_registry : O → R) where
  registry_again :
      (f : RegistryFactory R) (owner other : O)
      → hash other ≡ hash owner
      → registry hash new_registry (registry hash new_registry f owner).1 other
        ≡ registry hash new_registry f owner
  unfolding registry find_hash
  registry_again f owner other h = elim (Option-cases (find_hash (hash owner) f.registries)) [
    | inl e ↦ ground (arith, h)
    | inr (r, e) ↦ ground (arith, h)
  ]

  registry_other :
      (f : RegistryFactory R) (owner : O) (index : ℕ)
      → index ≢ hash owner
      → find_hash index (registry hash new_registry f owner).1.registries
        ≡ find_hash index f.registries
  unfolding registry find_hash
  registry_other f owner index h = ground (arith, h)

  -- `getRegistry` makes the factory at its first call, and the registry at the first call for the owner.
  get_registry_again :
      (instance : Option (RegistryFactory R)) (owner : O)
      → get_registry hash new_registry (get_registry hash new_registry instance owner).1 owner
        ≡ get_registry hash new_registry instance owner
  unfolding get_registry instance_of
  get_registry_again none owner =
      ap (λ (a : R × RegistryFactory R). (a.0, some a.1))
        (registry_again new_factory owner owner refl)
  get_registry_again (some f) owner =
      ap (λ (a : R × RegistryFactory R). (a.0, some a.1)) (registry_again f owner owner refl)

-- The registry of an owner is made once: asking again returns the same one and changes nothing. So does asking for
-- any other owner whose string hash agrees in all of 64 bits but the two highest, though it may be a different owner.
-- The registries of all owners whose string hash differs in one of the lower bits stay as they are.
pub registry_lem :
    {R : Type 0} (hasher : Text → ℕ) (type_code simple_code : ℕ) (new_registry : Text → R)
    (f : RegistryFactory R) (owner other third : Text)
    → hasher other % 2 ^ 62 ≡ hasher owner % 2 ^ 62
    → hasher third % 2 ^ 62 ≢ hasher owner % 2 ^ 62
    → let hash = hash_wrapped hasher type_code simple_code in
      let get = registry hash new_registry in
      (get (get f owner).1 owner ≡ get f owner)
      × (get (get f owner).1 other ≡ get f owner)
      × (find_hash (hash third) (get f owner).1.registries ≡ find_hash (hash third) f.registries)
registry_lem hasher type_code simple_code new_registry f owner other third h d =
    let hash = hash_wrapped hasher type_code simple_code in
    let same = hash_wrapped_iff hasher type_code simple_code other owner in
    let apart = hash_wrapped_iff hasher type_code simple_code third owner in
    (
      registry_again hash new_registry f owner owner refl,
      registry_again hash new_registry f owner other (same.1 h),
      registry_other hash new_registry f owner (hash third) (λ e. d (apart.0 e)),
    )
