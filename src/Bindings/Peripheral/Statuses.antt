-- ===== src/Bindings/Peripheral/Statuses.antt =====
-- The statuses of a peripheral.
use ru_ble.Base.{◌≡◌, Bool, true, false, List, [], ◌∷◌, ok, arith}
use ru_ble.Base.Texts.{Text, codes, text_eq}
use ru_ble.Containers.NamedBitSet.{
  of_map, test_all, assign, index_of, index_from, flag_names, names_from, test_flag,
}
use ru_ble.Bindings.Peripheral
use ru_ble.Bindings.Peripheral.{Backend, statuses, status_flags}

abbrev pub named_if : Text → Bool → List Text → List Text
named_if name true names = name ∷ names
named_if name false names = names

-- `statuses` never throws. It lists the names of exactly those tests that hold, in the order of the
-- flags, not in the order of the tests.
pub statuses_lem :
    {S : Type 0} (b : Backend S) (s : S)
    → statuses b s
      ≡ ok (
          named_if (codes "initialized") (b.initialized s) (
            named_if (codes "connected") (b.is_connected s) (
              named_if
                (codes "connectable")
                (b.is_connectable s)
                (named_if (codes "paired") (b.is_paired s) []))))
unfolding statuses status_flags Peripheral.initialized Peripheral.is_paired Peripheral.is_connected
    Peripheral.is_connectable of_map test_all assign index_of index_from flag_names names_from
    test_flag text_eq
statuses_lem b s = ground arith
