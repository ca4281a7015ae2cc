-- ===== src/Utils/RubyContext.antt =====
-- ext/ruble/utils/ruby_context.hpp: a counter of guards, which says whether a thread is in Ruby. The guards of one
-- `InRuby` are a list of slots: `some b` is a live guard, which holds the counter if `b`; `none` is one
-- that was destroyed. The counter is a `uint64_t`.
pub mod Guards
mod Runs
use ru_ble.Base.{
  ℕ, ◌+◌, ◌^◌, ◌%◌, Bool, true, false, Option, none, some, List, [], ◌∷◌, ◌++◌, ltb, ◌==◌,
  if◌then◌else◌, get_elem?, set, length, ◌-◌,
}

pub record InRuby : Type 0 where
  pub use_count : ℕ
  pub guards : List (Option Bool)

unfoldable pub state : InRuby → Bool
state r = ltb 0 r.use_count

abbrev pub word : ℕ
word = 2 ^ 64

abbrev pub incremented : ℕ → ℕ
incremented n = (n + 1) % word

abbrev pub decremented : ℕ → ℕ
decremented n = (n + (word - 1)) % word

-- `operator bool` of the guard at `i`, false where there is none.
abbrev pub holds : List (Option Bool) → ℕ → Bool
holds gs i = elim (get_elem? gs i) [ none ↦ false | some g ↦ elim g [ none ↦ false | some b ↦ b ] ]

-- The default constructor of a guard.
pub new_guard : InRuby → InRuby
new_guard r = record r { guards = r.guards ++ (some false ∷ []) }

-- `assert_in_ruby_guard`, with the constructor of the guard that it returns.
unfoldable pub assert_in_ruby_guard : InRuby → InRuby
assert_in_ruby_guard r = record {
  use_count = incremented r.use_count;
  guards = r.guards ++ (some true ∷ []);
}

-- The assignment of the guard at `j` to the one at `i`, which is another one.
unfoldable pub move_assign : InRuby → ℕ → ℕ → InRuby
move_assign r i j =
    let n = if holds r.guards j then incremented r.use_count else r.use_count in
    let m = if holds r.guards i then decremented n else n in
    record { use_count = m; guards = set (set r.guards i (some (holds r.guards j))) j (some false) }

-- The construction of a guard from the one at `j`.
pub move_construct : InRuby → ℕ → InRuby
unfolding new_guard move_assign
move_construct r j = move_assign (new_guard r) (length r.guards) j

-- The destructor.
unfoldable pub destroy : InRuby → ℕ → InRuby
destroy r i = record {
  use_count = if holds r.guards i then decremented r.use_count else r.use_count;
  guards = set r.guards i none;
}
