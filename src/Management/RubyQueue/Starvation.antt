-- ===== src/Management/RubyQueue/Starvation.antt =====
-- Items that wait in the queue while later ones are called: ext/ruble/management/RubyQueue.cpp takes the newest first.
use mathlib.Core.List.{append-nil, append_assoc}
use ru_ble.Base.{◌≡◌, refl, sym, ◌∙◌, subst, Bool, false, List, [], ◌∷◌, ◌++◌, arith}
use ru_ble.Management.RubyQueue.Order.{pop_back-append}
use ru_ble.Management.RubyQueue.Atomic.{chain}
use ru_ble.Management.RubyQueue.Drained.{tests}
use ru_ble.Management.RubyQueue.Threads.{
  System, Steps, here, next, at_test, check, put, release_push, test_go, acquire, recheck_go,
  take_item, call_item,
}

module _ {ℓ} {A : Type ℓ} where
  -- A run from `s` in which these items, and no others, are pushed and called, both in this order, and that ends where it
  -- began: the loop is about to test `_stopping`, the queue holds what it held, and the other threads are where they were.
  pub record Served (debug : Bool) (s : System A) (fns : List A) : Type ℓ where
    pub final : System A
    pub steps : Steps debug s final
    pub same : final ≡ record s { pc = at_test; pushed = s.pushed ++ fns; called = s.called ++ fns }

  -- The state when one item was pushed and called.
  abbrev served : System A → A → System A
  served s fn = record s {
    pc = at_test;
    pushed = s.pushed ++ (fn ∷ []);
    called = s.called ++ (fn ∷ []);
  }

  serve :
      {debug : Bool} (s : System A) (fn : A)
      → s.mem.stopping ≡ false
      → Steps debug (tests s) (served s fn)
  serve {debug} s fn go =
      let pushing : Steps debug (tests s) _ =
        next (next (next here (check (ground (arith, go)))) (put {n = s.checked} fn (omega arith)))
          (release_push {n = s.unreleased} (omega arith)) in
      next
        (next
          (next (next (next pushing (test_go go)) (acquire {n = s.mem.sem} (omega arith)))
            (recheck_go go))
          (take_item (pop_back-append s.mem.q fn)))
        call_item

  -- What waits can wait for as long as new items come: from every state of the threads where the loop is about to test
  -- `_stopping` and `stop` was not called, whatever is in the queue, and for every list of new items, there is a run in which
  -- exactly these are pushed, in their order, and exactly these are called, in the same order, and that leaves the queue, with
  -- the items that waited before, and all threads as they were.
  pub passed_over :
      {debug : Bool} (fns : List A) (s : System A)
      → s.pc ≡ at_test
      → s.mem.stopping ≡ false
      → Served debug s fns
  passed_over [] s e go = record {
    final = s;
    steps = here;
    same = λ i. record s {
      pc = e i;
      pushed = sym (append-nil s.pushed) i;
      called = sym (append-nil s.called) i;
    };
  }
  passed_over {debug} (fn ∷ fns) s e go =
      let rest = passed_over fns (served s fn) refl go in
      let first : Steps debug s (served s fn) =
        subst (λ (x : System A). Steps debug x (served s fn)) (λ i. record s { pc = sym e i })
          (serve s fn go) in
      record {
        final = rest.final;
        steps = chain first rest.steps;
        same = rest.same ∙ (λ i. record s {
          pc = at_test;
          pushed = append_assoc s.pushed (fn ∷ []) fns i;
          called = append_assoc s.called (fn ∷ []) fns i;
        });
      }
