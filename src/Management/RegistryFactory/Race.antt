-- ===== src/Management/RegistryFactory/Race.antt =====
-- `RegistryFactory::registry` on any number of threads. It takes no lock. A thread that stands before a call of the hash map
-- can make that call at once, so where two do and one of the calls changes the map, the C++ program has a data race, and what it
-- does then is undefined: `DataRace`. As a step, a call of the map is made from start to end. What is said of states behind such a
-- step is so only where the callers keep the calls apart, for instance by Ruby's global lock.
use ru_ble.Base.{◌≢◌, Bool, true, false, ℕ, suc, ◌≡◌, none, some, ◌==◌, if◌then◌else◌}
use ru_ble.Management.RegistryFactory.{RegistryFactory, find_hash, with_registry, new_factory}

-- Where a thread stands that asks for the registry of an owner, and what it returned.
pub data Pc (O R : Type 0) : Type 0 where
  idle : Pc O R
  looking : O → Pc O R  -- before `contains`
  missing : O → Pc O R  -- before the registry is made
  holding : O → R → Pc O R  -- before `try_emplace`
  returned : O → R → Pc O R

-- `fresh` is the address of the next registry.
pub record System (O R : Type 0) : Type 0 where
  pub factory : RegistryFactory R
  pub fresh : ℕ
  pub pc : ℕ → Pc O R

module _ {O R : Type 0} where
  abbrev pub moved : (ℕ → Pc O R) → ℕ → Pc O R → ℕ → Pc O R
  moved pc i p j = if i == j then p else pc j

  abbrev pub init : System O R
  init = record { factory = new_factory; fresh = 0; pc = λ i. idle }

-- The next step is a call of the map; it can change the map. (`operator[]` behind `contains` finds its key.)
abbrev pub calls_map : {O R : Type 0} → Pc O R → Bool
calls_map (looking o) = true
calls_map (holding o r) = true
calls_map _ = false

abbrev pub changes_map : {O R : Type 0} → Pc O R → Bool
changes_map (holding o r) = true
changes_map _ = false

-- Two threads can call the map at once, and one of the calls changes it.
pub record DataRace {O R : Type 0} (s : System O R) (i j : ℕ) : Type 0 where
  pub apart : i ≢ j
  pub calls : calls_map (s.pc i) ≡ true
  pub changes : changes_map (s.pc j) ≡ true

module _ {O R : Type 0} (hash : O → ℕ) (new_registry : ℕ → O → R) where
  pub data Move (s : System O R) : System O R → Type 0 where
    ask : (i : ℕ) (o : O) → s.pc i ≡ idle → Move s (record s { pc = moved s.pc i (looking o) })
    hit :
        (i : ℕ) (o : O) (r : R)
        → s.pc i ≡ looking o
        → find_hash (hash o) s.factory.registries ≡ some r
        → Move s (record s { pc = moved s.pc i (returned o r) })
    miss :
        (i : ℕ) (o : O)
        → s.pc i ≡ looking o
        → find_hash (hash o) s.factory.registries ≡ none
        → Move s (record s { pc = moved s.pc i (missing o) })
    make :
        (i : ℕ) (o : O)
        → s.pc i ≡ missing o
        → Move s (record s {
          fresh = suc s.fresh;
          pc = moved s.pc i (holding o (new_registry s.fresh o));
        })
    -- `try_emplace` puts the registry in the map if the key is still not there, and returns the one that is.
    emplace :
        (i : ℕ) (o : O) (r : R)
        → s.pc i ≡ holding o r
        → find_hash (hash o) s.factory.registries ≡ none
        → Move s (record s {
          factory = with_registry (hash o) r s.factory;
          pc = moved s.pc i (returned o r);
        })
    emplace_late :
        (i : ℕ) (o : O) (r earlier : R)
        → s.pc i ≡ holding o r
        → find_hash (hash o) s.factory.registries ≡ some earlier
        → Move s (record s { pc = moved s.pc i (returned o earlier) })

  pub data Reach : System O R → Type 0 where
    begin : Reach init
    next : {s t : System O R} → Reach s → Move s t → Reach t

  -- A registry that was returned is the one in the map.
  Kept : System O R → Type 0
  Kept s =
      (j : ℕ) (o : O) (r : R)
      → s.pc j ≡ returned o r
      → find_hash (hash o) s.factory.registries ≡ some r
