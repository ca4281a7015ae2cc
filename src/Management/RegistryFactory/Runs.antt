-- ===== src/Management/RegistryFactory/Runs.antt =====
-- Two addresses whose hashes differ in the highest bit.
use ru_ble.Base.{ℕ, ◌≡◌, [], ◌∷◌, ◌^◌, arith, ◌+◌}
use ru_ble.Base.Texts.{Text, codes}
use ru_ble.Utils.Hash.{hash_wrapped}
use ru_ble.Management.RegistryFactory.{
  RegistryFactory, new_factory, with_registry, registry, find_hash,
}
use ru_ble.Management.RegistryFactory.Sharing.{registry_lem}
use ru_ble.Management.RegistryFactory.Race.{
  System, Move, Reach, moved, idle, looking, missing, holding, returned,
}

abbrev hasher : Text → ℕ
hasher [] = 5
hasher (c ∷ []) = 2 ^ 62 + 5
hasher (c ∷ d ∷ t) = 6

abbrev factory : RegistryFactory Text
factory = new_factory

abbrev copy : Text → Text
copy t = t

registry_lem_example :
    let hash = hash_wrapped hasher 1 2 in
    let get = registry hash copy in
    (get (get factory []).1 [] ≡ get factory [])
    × (get (get factory []).1 (codes "a") ≡ get factory [])
    × (find_hash (hash (codes "ab")) (get factory []).1.registries
        ≡ find_hash (hash (codes "ab")) factory.registries)
registry_lem_example =
    registry_lem hasher 1 2 copy factory [] (codes "a") (codes "ab") (omega arith)
      (λ e. omega (arith, e))

-- Two threads that ask for the registry of the same owner, both of which find none. A registry is its address here.
abbrev owner : Text
owner = codes "a"

abbrev address : ℕ → Text → ℕ
address fresh o = fresh

abbrev MoveHere : System Text ℕ → System Text ℕ → Type 0
MoveHere = Move hasher address

abbrev ReachHere : System Text ℕ → Type 0
ReachHere = Reach hasher address

abbrev missed : System Text ℕ
missed = record {
  factory = new_factory;
  fresh = 0;
  pc =
      moved
        (moved (moved (moved (λ i. idle) 0 (looking owner)) 1 (looking owner)) 0 (missing owner)) 1
        (missing owner);
}

abbrev raced : System Text ℕ
raced = record {
  factory = with_registry (hasher owner) 0 missed.factory;
  fresh = 2;
  pc =
      moved
        (moved (moved (moved missed.pc 0 (holding owner 0)) 1 (holding owner 1)) 0
          (returned owner 0))
        1 (returned owner 0);
}

abbrev first : ℕ
first = 0
