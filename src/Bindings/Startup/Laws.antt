-- ===== src/Bindings/Startup/Laws.antt =====
-- Loading the extension, once and again.
use ru_ble.Base.{
  ℕ, ◌+◌, ◌*◌, ◌≤◌, ◌<◌, ◌≡◌, refl, Bool, true, Option, some, List, [], ◌∷◌, arith, length, ◌++◌,
  get_elem?, runtime_error, Option-cases, inl, inr,
}
use ru_ble.Utils.RubyContext.{InRuby, state, assert_in_ruby_guard, move_assign, destroy, holds}
use ru_ble.Utils.Async.{Environment}
use ru_ble.Management.RegistryFactory.{RegistryFactory, find_hash, registry, instance_of}
use ru_ble.Management.RubyQueue.{RubyQueue, start}
use ru_ble.Management.RubyQueue.Lifecycle.{
  ensure_started_lem, ensure_started, poll_latch, Waited, Left,
}
use ru_ble.Management.RubyQueue.Graceful.{view, Schedules}
use ru_ble.Management.RubyQueue.Launched.{all_spare, Due, ensure_started-released}
use ru_ble.Management.RubyQueue.Threads.{System, Steps}
use ru_ble.Base.{ok, false}
use ru_ble.Bindings.Startup.{
  Globals, unloaded, enter_ruby, wrap_termination_handler, ensure_factory, registry_of_null,
  init_registries, init_de_init, init_guarded, init, init_each, throws,
}

-- Afterwards: all is set, the old handler is kept, and the registry of adapters is the one that its factory holds.
pub record Loaded {R : Type 0} (handler ours hash_null : ℕ) (g : Globals R) : Type 0 where
  pub in_ruby : state g.in_ruby ≡ true
  pub handlers : (g.terminate_handler ≡ ours) × (g.old_terminate_handler ≡ some handler)
  pub factories :
      (g.adapter_factories.is_set ≡ true)
      × (g.peripheral_factories.is_set ≡ true)
      × (g.service_factories.is_set ≡ true)
      × (g.characteristic_factories.is_set ≡ true)
  pub registry :
      (r : R) × (f : RegistryFactory R) × (g.adapter_registry ≡ some r)
      × (g.adapter_factories.instance ≡ some f)
      × (find_hash hash_null f.registries ≡ some r)
  pub at_end : g.end_procs ≡ 1

get_elem?-append :
    {A : Type 0} (xs : List A) (x : A) → get_elem? (xs ++ (x ∷ [])) (length xs) ≡ some x
get_elem?-append [] x = refl
get_elem?-append (y ∷ xs) x = get_elem?-append xs x

enter_ruby-holds :
    (r : InRuby) (guard : Option Bool) (guards : List (Option Bool))
    → r.guards ≡ guard ∷ guards
    → holds (enter_ruby r).guards 0 ≡ true
unfolding enter_ruby move_assign assert_in_ruby_guard destroy
enter_ruby-holds r guard guards k = rw (k, get_elem?-append guards (some true)) refl

holds-first :
    (guards : List (Option Bool))
    → holds guards 0 ≡ true
    → (guard : Option Bool) × (rest : List (Option Bool)) × (guards ≡ guard ∷ rest)
holds-first [] h = cc
holds-first (guard ∷ rest) h = (guard, rest, refl)

enter_ruby-keeps : (r : InRuby) → holds r.guards 0 ≡ true → holds (enter_ruby r).guards 0 ≡ true
enter_ruby-keeps r h =
    let (guard, rest, e) = holds-first r.guards h in enter_ruby-holds r guard rest e

-- What loading again does to the guards, and what it leaves each time.
abbrev pub enter_again : {T : Type 0} → List T → InRuby → InRuby
enter_again [] r = r
enter_again (t ∷ times) r = enter_again times (enter_ruby r)

abbrev pub refused : {T : Type 0} → List (ℕ × T) → List (Left T)
refused [] = []
refused ((fuel, t) ∷ times) = throws runtime_error t ∷ refused times

module _ {R A W : Type 0} (env : Environment (RubyQueue A × W)) (second ours hash_null tid : ℕ)
    (new_registry : R) where
  loaded : ℕ → Globals R
  loaded handler =
      let g : Globals R = unloaded handler in
      init_de_init (
        init_registries hash_null new_registry
          (wrap_termination_handler ours (record g { in_ruby = enter_ruby g.in_ruby })).1)

  loaded-Loaded : (handler : ℕ) → Loaded handler ours hash_null (loaded handler)
  unfolding loaded init_de_init init_registries wrap_termination_handler ensure_factory
      registry_of_null registry instance_of find_hash enter_ruby move_assign assert_in_ruby_guard
      destroy state
  loaded-Loaded handler = record {
    in_ruby = refl;
    handlers = (refl, refl);
    factories = (refl, refl, refl, refl);
    registry = (
      new_registry,
      record { registries = (hash_null, new_registry) ∷ [] },
      refl,
      refl,
      ground arith,
    );
    at_end = refl;
  }

  loaded-old : (handler : ℕ) → (loaded handler).old_terminate_handler ≡ some handler
  unfolding loaded wrap_termination_handler init_de_init init_registries
  loaded-old handler = refl

  loaded-holds : (handler : ℕ) → holds (loaded handler).in_ruby.guards 0 ≡ true
  unfolding loaded wrap_termination_handler init_de_init init_registries enter_ruby move_assign
      assert_in_ruby_guard destroy
  loaded-holds handler = refl

  -- Loading the extension for the first time ends (fuel for two rounds more than fifteen seconds is enough, if sleeping moves
  -- the clock on and polling does not move it back). Everything is set up as `Loaded` says: the main thread is in Ruby, the
  -- handlers are chained, the factories are there, and the registry of adapters is the one in its factory. The latch of the
  -- queue is polled up to the first time that it is found released or fifteen seconds have passed. If that last poll found it
  -- released, nothing is thrown and `rb_thread_kill` is not called; otherwise a runtime error is thrown, with the queue told
  -- to stop, and `rb_thread_kill` was called exactly if a thread was recorded.
  pub init_lem :
      (handler : ℕ) (q : RubyQueue A) (w : W)
      → ((u : RubyQueue A × W) → env.now u < env.now (env.sleep u))
      → ((u : RubyQueue A × W) → env.now u ≤ env.now (poll_latch u).1)
      → (g : Globals R) × (l : Left (RubyQueue A × W)) × (init env second ours hash_null tid
            new_registry
            (15 * second + 2)
            (unloaded handler)
            (q, w)
          ≡ some (g, l))
        × Loaded handler ours hash_null g
        × Waited env second ((start tid q).0, w) l
  unfolding init init_guarded loaded wrap_termination_handler enter_ruby move_assign
      assert_in_ruby_guard destroy
  init_lem handler q w passes keeps =
      let (l, e, waited) = ensure_started_lem env second ((start tid q).0, w) passes keeps in
      (loaded handler, l, rw e refl, loaded-Loaded handler, waited)

  -- Loading the extension for the first time succeeds, if the queue's thread gets on while the main thread waits for it: where
  -- `start` has created that thread, which has released its latch or has not yet come to that, every sleep lets it make a step
  -- if it can, no other thread takes the latch, and two sleeps fit in fifteen seconds, loading ends (fuel for three rounds is
  -- enough), throws nothing and sets everything up as `Loaded` says; `rb_thread_kill` is not called, and the queue is as the
  -- threads can make it from what `start` left.
  pub init_succeeds :
      (debug : Bool) (rest : W → System A) (tick fuel handler : ℕ) (q : RubyQueue A) (w : W)
      (sched : Schedules debug env rest tick)
      → ((u : RubyQueue A × W) → all_spare (sched.steps u) ≡ true)
      → Due (view rest ((start tid q).0, w))
      → 2 * tick ≤ 15 * second
      → 2 < fuel
      → (g : Globals R) × (l : Left (RubyQueue A × W)) × (init env second ours hash_null tid
            new_registry fuel
            (unloaded handler)
            (q, w)
          ≡ some (g, l))
        × Loaded handler ours hash_null g
        × (l.outcome ≡ ok tt)
        × (l.killed ≡ false)
        × Steps debug (view rest ((start tid q).0, w)) (view rest l.state)
  unfolding init init_guarded loaded wrap_termination_handler enter_ruby move_assign
      assert_in_ruby_guard destroy
  init_succeeds debug rest tick fuel handler q w sched spared due fits enough =
      let (l, e, returned, unkilled, steps) =
        ensure_started-released debug env rest tick sched spared second fuel ((start tid q).0, w)
          due fits enough in
      (loaded handler, l, rw e refl, loaded-Loaded handler, returned, unkilled, steps)

  init-refused :
      (g : Globals R) (old fuel : ℕ) (t : RubyQueue A × W)
      → g.old_terminate_handler ≡ some old
      → holds g.in_ruby.guards 0 ≡ true
      → init env second ours hash_null tid new_registry fuel g t
        ≡ some (record g { in_ruby = enter_ruby g.in_ruby }, throws runtime_error t)
  unfolding init init_guarded wrap_termination_handler
  init-refused g old fuel t h k = ground (arith, enter_ruby-keeps g.in_ruby k)

  init_each-refused :
      (times : List (ℕ × (RubyQueue A × W))) (g : Globals R) (old : ℕ)
      → g.old_terminate_handler ≡ some old
      → holds g.in_ruby.guards 0 ≡ true
      → init_each env second ours hash_null tid new_registry times g
        ≡ some (record g { in_ruby = enter_again times g.in_ruby }, refused times)
  unfolding init_each
  init_each-refused [] g old h k = refl
  init_each-refused ((fuel, t) ∷ times) g old h k = ground (
    arith,
    init-refused g old fuel t h k,
    init_each-refused times (record g { in_ruby = enter_ruby g.in_ruby }) old h
        (enter_ruby-keeps g.in_ruby k),
  )

  init_loads :
      (fuel handler : ℕ) (t : RubyQueue A × W) (g : Globals R) (l : Left (RubyQueue A × W))
      → init env second ours hash_null tid new_registry fuel (unloaded handler) t ≡ some (g, l)
      → g ≡ loaded handler
  unfolding init init_guarded loaded wrap_termination_handler enter_ruby move_assign
      assert_in_ruby_guard destroy
  init_loads fuel handler (q, w) g l h =
      elim (Option-cases (ensure_started env second fuel ((start tid q).0, w))) [
        | inl e ↦ ground (arith, h, e)
        | inr (l', e) ↦ ground (arith, h, e)
      ]

  -- If loading the extension for the first time ended, whether it succeeded or threw, everything is set up as `Loaded` says,
  -- and however often it is loaded again, at whatever state of the queue and the rest, each time throws a runtime error and
  -- leaves that state as it met it, without `rb_thread_kill`; of the globals only the guards of `in_ruby` change, so the
  -- handlers are not chained again, the registries stay and no second proc is registered for the end.
  pub init_again :
      (fuel handler : ℕ) (t : RubyQueue A × W) (times : List (ℕ × (RubyQueue A × W)))
      (g : Globals R) (l : Left (RubyQueue A × W))
      → init env second ours hash_null tid new_registry fuel (unloaded handler) t ≡ some (g, l)
      → Loaded handler ours hash_null g
        × (init_each env second ours hash_null tid new_registry times g
            ≡ some (record g { in_ruby = enter_again times g.in_ruby }, refused times))
  init_again fuel handler t times g l h =
      let e = init_loads fuel handler t g l h in
      (
        rw e (loaded-Loaded handler),
        rw e (
            init_each-refused times (loaded handler) handler (loaded-old handler)
              (loaded-holds handler)),
      )
