-- ===== src/Bindings/Startup.antt =====
-- `Init_RuBLE` of ext/ruble/bindings/RuBLE.cpp, which Ruby calls when it loads the extension, with `Init_Registries` of
-- management/Registry.cpp and `wrap_termination_handler` of utils/exception_handling.cpp. The classes that are defined for
-- Ruby are left out.
pub mod Laws
pub mod Termination
mod Runs
use ru_ble.Base.{
  ℕ, ◌+◌, suc, Bool, true, false, Option, none, some, List, [], ◌∷◌, length, if◌then◌else◌, Result,
  ok, err, Error, runtime_error, fault,
}
use ru_ble.Utils.RubyContext.{InRuby, assert_in_ruby_guard, move_assign, destroy, holds}
use ru_ble.Utils.Async.{Environment}
use ru_ble.Management.RegistryFactory.{RegistryFactory, instance_of, registry}
use ru_ble.Management.RubyQueue.{RubyQueue, start}
use ru_ble.Management.RubyQueue.Lifecycle.{Left, ensure_started}

-- A class of factories: its static `_instance`, and whether the global variable for it, which is null at first, points there.
pub record FactoryClass (R : Type 0) : Type 0 where
  pub instance : Option (RegistryFactory R)
  pub is_set : Bool

-- The globals. Guard number 0 of `in_ruby` is `main_thread_in_ruby`. Handlers are numbers, and `R` is the class of
-- registries. `end_procs` counts the procs that Ruby calls at its end.
pub record Globals (R : Type 0) : Type 0 where
  pub in_ruby : InRuby
  pub terminate_handler : ℕ
  pub old_terminate_handler : Option ℕ
  pub adapter_factories : FactoryClass R
  pub peripheral_factories : FactoryClass R
  pub service_factories : FactoryClass R
  pub characteristic_factories : FactoryClass R
  pub adapter_registry : Option R
  pub end_procs : ℕ

abbrev pub no_factory : {R : Type 0} → FactoryClass R
no_factory = record { instance = none; is_set = false }

-- What globals.cpp sets up, before `Init_RuBLE`: the guard of the main thread does not hold, and nothing is set.
abbrev pub unloaded : {R : Type 0} → ℕ → Globals R
unloaded handler = record {
  in_ruby = record { use_count = 0; guards = some false ∷ [] };
  terminate_handler = handler;
  old_terminate_handler = none;
  adapter_factories = no_factory;
  peripheral_factories = no_factory;
  service_factories = no_factory;
  characteristic_factories = no_factory;
  adapter_registry = none;
  end_procs = 0;
}

-- The assignment of a guard to `main_thread_in_ruby`; the guard that was moved from ends there.
unfoldable pub enter_ruby : InRuby → InRuby
enter_ruby r = let n = length r.guards in destroy (move_assign (assert_in_ruby_guard r) 0 n) n

module _ {R : Type 0} where
  -- The handler that is set is `ours`.
  unfoldable pub wrap_termination_handler : ℕ → Globals R → Result (Unit {0}) × Globals R
  wrap_termination_handler ours g = elim g.old_terminate_handler [
    | some old ↦ (err runtime_error, g)
    | none ↦ (
      ok tt,
      record g { old_terminate_handler = some g.terminate_handler; terminate_handler = ours },
    )
  ]

  -- `if (!factory) factory = Factory::instance()`
  unfoldable pub ensure_factory : FactoryClass R → FactoryClass R
  ensure_factory c =
      if c.is_set then c else record { instance = (instance_of c.instance).1; is_set = true }

  -- `adapterRegistryFactory->registry()`. `hash_null` is the hash of the null pointer.
  unfoldable pub registry_of_null : ℕ → R → FactoryClass R → Option R × FactoryClass R
  registry_of_null hash_null new_registry c = elim c.instance [
    | none ↦ (none, c)
    | some f ↦
        let (r, f') = registry (λ (owner : Unit {0}). hash_null) (λ owner. new_registry) f tt in
        (some r, record c { instance = some f' })
  ]

  -- The globals that `Init_Registries` sets.
  unfoldable pub init_registries : ℕ → R → Globals R → Globals R
  unfolding ensure_factory registry_of_null
  init_registries hash_null new_registry g =
      let adapters = ensure_factory g.adapter_factories in
      let found : Option R × FactoryClass R = elim g.adapter_registry [
        | some r ↦ (some r, adapters)
        | none ↦ registry_of_null hash_null new_registry adapters
      ] in
      record g {
        adapter_factories = found.1;
        adapter_registry = found.0;
        peripheral_factories = ensure_factory g.peripheral_factories;
        service_factories = ensure_factory g.service_factories;
        characteristic_factories = ensure_factory g.characteristic_factories;
      }

  unfoldable pub init_de_init : Globals R → Globals R
  init_de_init g = record g { end_procs = suc g.end_procs }

-- An exception, before anything was done to the queue.
abbrev pub throws : {S : Type 0} → Error → S → Left S
throws e t = record { state = t; killed = false; outcome = err e }

-- The globals, and what the call leaves: the queue with the rest of the world, whether `rb_thread_kill` was called, and
-- what was thrown. `none` means that the fuel ran out.
module _ {R A W : Type 0} (env : Environment (RubyQueue A × W)) (second ours hash_null tid : ℕ)
    (new_registry : R) where
  abbrev with_globals :
      Globals R → Option (Left (RubyQueue A × W)) → Option (Globals R × Left (RubyQueue A × W))
  with_globals g none = none
  with_globals g (some l) = some (g, l)

  -- What is called once the guard is set.
  unfoldable pub init_guarded :
      ℕ → Globals R → RubyQueue A × W → Option (Globals R × Left (RubyQueue A × W))
  unfolding wrap_termination_handler init_registries init_de_init
  init_guarded fuel g (q, w) =
      let (wrapped, g1) = wrap_termination_handler ours g in
      let g2 = init_de_init (init_registries hash_null new_registry g1) in
      elim wrapped [
        | err e ↦ some (g1, throws e (q, w))
        | ok _ ↦ with_globals g2 (ensure_started env second fuel ((start tid q).0, w))
      ]

  unfoldable pub init :
      ℕ → Globals R → RubyQueue A × W → Option (Globals R × Left (RubyQueue A × W))
  unfolding enter_ruby init_guarded
  init fuel g t =
      let g' = record g { in_ruby = enter_ruby g.in_ruby } in
      if holds g'.in_ruby.guards 0 then init_guarded fuel g' t else some (g', throws fault t)

  -- The extension is loaded again and again: the fuel of each time and the state that it meets.
  unfoldable pub init_each :
      List (ℕ × (RubyQueue A × W)) → Globals R → Option (Globals R × List (Left (RubyQueue A × W)))
  init_each [] g = some (g, [])
  init_each ((fuel, t) ∷ times) g = elim (init fuel g t) [
    | none ↦ none
    | some (g', l) ↦ elim (init_each times g') [ none ↦ none | some (g'', ls) ↦ some (g'', l ∷ ls) ]
  ]
