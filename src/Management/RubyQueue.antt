-- ===== src/Management/RubyQueue.antt =====
-- ext/ruble/management/RubyQueue.hpp and RubyQueue.cpp: the queue that hands callbacks of
-- SimpleBLE's own threads over to a Ruby thread. `A` stands for the queued closures.
-- Here each function runs as one step; `Threads` takes them apart for the interleavings.
pub mod Threads
pub mod Invariant
pub mod Safety
pub mod Capacity
pub mod Progress
pub mod Drained
pub mod Determined
pub mod Mailbox
pub mod InOrder
pub mod Atomic
pub mod Sessions
pub mod Starvation
pub mod Order
pub mod Lifecycle
pub mod Graceful
pub mod Launched
pub mod Scheduled
mod Runs
use ru_ble.Base.{
  ℕ, zero, suc, ◌+◌, ◌-◌, Bool, true, false, ◌&&◌, not, Option, none, some, List, [], ◌∷◌, ◌++◌,
  ltb, ◌==◌, if◌then◌else◌, is_some,
}

-- The members that change. `sem`, `latch` and `run_mtx` are the counting semaphore, the binary
-- semaphore `_startup_latch` and the exclusive lock of the shared mutex `_run_mtx`.
pub record RubyQueue {ℓ} (A : Type ℓ) : Type ℓ where
  pub q : List A
  pub sem : ℕ
  pub latch : Bool
  pub run_mtx : Bool
  pub running : Bool
  pub rb_thread : Option ℕ
  pub starting : Bool
  pub stopping : Bool

module _ {ℓ} {A : Type ℓ} where
  abbrev pub behind : A → Option (A × List A) → Option (A × List A)
  behind x none = none
  behind x (some (z, front)) = some (z, x ∷ front)

  -- The last item and what stands before it: `back` and `pop_back` of the deque.
  pub pop_back : List A → Option (A × List A)
  pop_back [] = none
  pop_back (x ∷ []) = some (x, [])
  pop_back (x ∷ y ∷ r) = behind x (pop_back (y ∷ r))

  pub push : Bool → A → RubyQueue A → RubyQueue A
  push debug fn s =
      if s.stopping && debug then s else record s { q = s.q ++ (fn ∷ []); sem = s.sem + 1 }

  pub stop : RubyQueue A → RubyQueue A
  stop s = if s.stopping then s else record s { stopping = true; sem = s.sem + 1 }

  -- `tid` is what `rb_thread_create` returns, and the flag says whether it was called.
  pub start : ℕ → RubyQueue A → RubyQueue A × Bool
  start tid s =
      if s.starting then (s, false) else (record s { starting = true; rb_thread = some tid }, true)

  -- The shared lock is taken only if the loop does not hold the mutex. It is given up on return.
  pub is_running : RubyQueue A → Bool × RubyQueue A
  is_running s =
      if not s.running
      then (false, s)
      else if s.run_mtx
      then (true, s)
      else (false, record s { running = false })

  pub is_stopped : RubyQueue A → Bool × RubyQueue A
  unfolding is_running
  is_stopped s = if s.stopping then (let (r, s') = is_running s in (not r, s')) else (false, s)

  -- The flag says whether `rb_thread_kill` is called.
  pub kill : RubyQueue A → RubyQueue A × Bool
  unfolding stop
  kill s = (stop s, is_some (stop s).rb_thread)

  -- `_startup_latch.try_acquire()`
  pub try_acquire : RubyQueue A → Bool × RubyQueue A
  try_acquire s = (s.latch, record s { latch = false })

-- One round of the `while` in `loop`, with no other thread in between: the loop ends, it waits for
-- the semaphore, it finds no item (a fault), or it calls one.
pub data Round {ℓ} (A : Type ℓ) : Type ℓ where
  exits blocks faults : Round A
  calls : A → RubyQueue A → Round A

module _ {ℓ} {A : Type ℓ} where
  take_item : RubyQueue A → Option (A × List A) → Round A
  take_item s none = faults
  take_item s (some (item, front)) = calls item (record s { q = front })

  pub after_acquire : RubyQueue A → ℕ → Round A
  unfolding take_item
  after_acquire s zero = blocks
  after_acquire s (suc n) =
      if s.stopping then exits else take_item (record s { sem = n }) (pop_back s.q)

  pub round : RubyQueue A → Round A
  unfolding after_acquire
  round s = if s.stopping then exits else after_acquire s s.sem

  -- The items that `loop` calls before it ends or waits, and the state then.
  pub drain : ℕ → RubyQueue A → List A × RubyQueue A
  drain zero s = ([], s)
  drain (suc fuel) s = elim (round s) [
    | exits ↦ ([], s)
    | blocks ↦ ([], s)
    | faults ↦ ([], s)
    | calls item s' ↦ let (items, t) = drain fuel s' in (item ∷ items, t)
  ]

  pub push_all : Bool → List A → RubyQueue A → RubyQueue A
  unfolding push
  push_all debug [] s = s
  push_all debug (fn ∷ fns) s = push_all debug fns (push debug fn s)

abbrev pub new_queue {ℓ} : {A : Type ℓ} → RubyQueue A
new_queue = record {
  q = [];
  sem = 0;
  latch = false;
  run_mtx = false;
  running = false;
  rb_thread = none;
  starting = false;
  stopping = false;
}

-- `RubyQueue::instance`, with the static `_instance`.
instance_of {ℓ} : {A : Type ℓ} → Option (RubyQueue A) → RubyQueue A × Option (RubyQueue A)
instance_of none = (new_queue, some new_queue)
instance_of (some q) = (q, some q)

rb_thread {ℓ} : {A : Type ℓ} → RubyQueue A → Option ℕ
rb_thread s = s.rb_thread
