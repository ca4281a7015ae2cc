-- ===== src/Bindings/Service.antt =====
-- ext/ruble/bindings/Service.hpp and Service.cpp: a service of a peripheral. Its peripheral is the backend
-- of its calls.
pub mod Lookup
pub mod Owners
mod Runs
use ru_ble.Base.{
  ℕ, Bool, true, false, not, Option, none, some, List, [], ◌∷◌, if◌then◌else◌, Result, ok, err,
}
use ru_ble.Base.Texts.{Text}
use ru_ble.Containers.ByteArray.{ByteArray}
use ru_ble.Management.Registry.{Registry, fetch_each, contains, at}
use ru_ble.Bindings.Peripheral.{Backend, Step}
use ru_ble.Bindings.Peripheral

pub record Service : Type 0 where
  pub uuid : Text

module _ {S : Type 0} (b : Backend S) (s : Service) where
  unfoldable pub read : Text → Step S ByteArray
  read characteristic = Peripheral.read b s.uuid characteristic

  unfoldable pub read_descriptor : Text → Text → Step S ByteArray
  read_descriptor characteristic descriptor =
      Peripheral.read_descriptor b s.uuid characteristic descriptor

  unfoldable pub write : Text → Text → ByteArray → Step S (Unit {0})
  write characteristic descriptor value = Peripheral.write b s.uuid characteristic descriptor value

  unfoldable pub write_request : Text → ByteArray → Step S (Unit {0})
  write_request characteristic value = Peripheral.write_request b s.uuid characteristic value

  unfoldable pub write_command : Text → ByteArray → Step S (Unit {0})
  write_command characteristic value = Peripheral.write_command b s.uuid characteristic value

  unfoldable pub notify : Text → ℕ → Step S (Unit {0})
  notify characteristic callback = Peripheral.notify b s.uuid characteristic callback

  unfoldable pub indicate : Text → ℕ → Step S (Unit {0})
  indicate characteristic callback = Peripheral.indicate b s.uuid characteristic callback

  unfoldable pub unsubscribe : Text → Step S (Unit {0})
  unsubscribe characteristic = Peripheral.unsubscribe b s.uuid characteristic

-- `V` is the class of characteristics of SimpleBLE, `P` that of their proxies; `listed` is what SimpleBLE answers
-- for the characteristics of the service.
module _ {V P : Type 0} (uuid_of : V → Text) (new_characteristic : ℕ → V → P) (during_gc : Bool)
    (listed : List V) where
  unfoldable pub characteristics : Registry P → Result (List (Text × P)) × Registry P
  characteristics r =
      if during_gc
      then (ok r.entries, r)
      else (let (e, r') = fetch_each uuid_of new_characteristic during_gc r listed in
          (elim e [ err x ↦ err x | ok _ ↦ ok r'.entries ], r'))

  -- `operator[]`
  unfoldable pub get : Registry P → Text → Result P × Registry P
  unfolding characteristics
  get r uuid =
      if not (contains r uuid)
      then (let (e, r') = characteristics r in (elim e [ err x ↦ err x | ok _ ↦ at r' uuid ], r'))
      else (at r uuid, r)
