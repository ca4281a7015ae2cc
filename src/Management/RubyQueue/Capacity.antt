-- ===== src/Management/RubyQueue/Capacity.antt =====
-- `Semaphore` of ext/ruble/types/stl.hpp, as `RubyQueue` uses it: how far the count of `_sem` goes.
use ru_ble.Base.{
  ℕ, zero, suc, ◌+◌, ◌-◌, ◌^◌, ◌≤◌, ◌<◌, ◌≡◌, refl, Bool, false, [], ◌∷◌, ◌++◌, arith, length,
  length-append,
}
use ru_ble.Management.RubyQueue.Invariant.{Reach-Inv, count}
use ru_ble.Management.RubyQueue.Threads.{
  System, init, Reach, begin, later, check, put, release_push,
}

-- The greatest count that a `Semaphore` is sure to have.
abbrev pub semaphore_max : ℕ
semaphore_max = 2 ^ 16 - 1

module _ {ℓ} {A : Type ℓ} where
  -- Where `push` or `stop` is about to release the semaphore and the items that wait, with one more
  -- once `stop` was called, are at most `semaphore_max`, there is room for it.
  pub release_in_bounds :
      {debug : Bool} {s : System A}
      → Reach debug s
      → 0 < s.unreleased + count s.stop_unreleased
      → length s.mem.q + count s.mem.stopping ≤ semaphore_max
      → s.mem.sem + 1 ≤ semaphore_max
  release_in_bounds r h le = ground (arith, Reach-Inv r)

  -- No thread is inside `push`, nor was `stop` called, and `n` items wait.
  record Waits (debug : Bool) (n : ℕ) (s : System A) : Type ℓ where
    reached : Reach debug s
    unchecked : s.checked ≡ 0
    released : s.unreleased ≡ 0
    open_queue : s.mem.stopping ≡ false
    counted : s.mem.sem ≡ n
    waiting : length s.mem.q ≡ n

  -- `push` up to its release of the semaphore.
  abbrev half_pushed : A → System A → System A
  half_pushed fn s = record s {
    mem = record s.mem { q = s.mem.q ++ (fn ∷ []) };
    checked = 0;
    unreleased = s.unreleased + 1;
    pushed = s.pushed ++ (fn ∷ []);
  }

  half_pushed-Reach :
      {debug : Bool} {n : ℕ} (fn : A) (s : System A)
      → Waits debug n s
      → Reach debug (half_pushed fn s)
  half_pushed-Reach fn s w =
      later (later w.reached (check (ground arith))) (put fn (omega (arith, w.unchecked)))

  abbrev full_pushed : A → System A → System A
  full_pushed fn s = record (half_pushed fn s) {
    mem = record (half_pushed fn s).mem { sem = s.mem.sem + 1 };
    unreleased = s.unreleased;
  }

  full_pushed-Waits :
      {debug : Bool} {n : ℕ} (fn : A) (s : System A)
      → Waits debug n s
      → Waits debug (suc n) (full_pushed fn s)
  full_pushed-Waits fn s w = record {
    reached = later (half_pushed-Reach fn s w) (release_push (omega arith));
    unchecked = refl;
    released = w.released;
    open_queue = w.open_queue;
    counted = omega (arith, w.counted);
    waiting = omega (arith, w.waiting, length-append s.mem.q (fn ∷ []));
  }

  all_pushed : (debug : Bool) (fn : A) (n : ℕ) → (s : System A) × Waits debug n s
  all_pushed debug fn zero = (
    init,
    record {
      reached = begin;
      unchecked = refl;
      released = refl;
      open_queue = refl;
      counted = refl;
      waiting = refl;
    },
  )
  all_pushed debug fn (suc n) =
      let (s, w) = all_pushed debug fn n in (full_pushed fn s, full_pushed-Waits fn s w)

  -- Nothing keeps `push` from putting more items into the queue than the semaphore can count: for every `n` that is
  -- `semaphore_max` or more the threads reach a state where a thread in `push` is about to release the semaphore, `stop` was
  -- not called, `n + 1` items wait and the count is `n`, so that after the release it would be above `semaphore_max`.
  pub push_unbounded :
      (debug : Bool) (fn : A) (n : ℕ)
      → semaphore_max ≤ n
      → (s : System A) × Reach debug s
        × (s.unreleased ≡ 1)
        × (s.mem.stopping ≡ false)
        × (length s.mem.q ≡ n + 1)
        × (s.mem.sem ≡ n)
        × (semaphore_max < s.mem.sem + 1)
  push_unbounded debug fn n h =
      let (s, w) = all_pushed debug fn n in
      (
        half_pushed fn s,
        half_pushed-Reach fn s w,
        omega (arith, w.released),
        w.open_queue,
        omega (arith, w.waiting, length-append s.mem.q (fn ∷ [])),
        w.counted,
        omega (arith, h, w.counted),
      )
