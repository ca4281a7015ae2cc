-- ===== src/Bindings/Adapter/Statuses.antt =====
-- `Adapter::status_flags`, for all adapters: `states` gives the state of the adapter of SimpleBLE that stands behind the
-- object at an address.
use ru_ble.Base.{ℕ, ◌≡◌, refl, ap, map, Bool, true, false, Option, none, some, List, [], ◌∷◌}
use ru_ble.Base.Texts.{Text, codes}
use ru_ble.Bindings.Adapter.{AdapterBackend}

abbrev pub named_if : Text → Bool → List Text → List Text
named_if name true names = name ∷ names
named_if name false names = names

module _ {S V : Type 0} (b : AdapterBackend S V) where
  -- The names whose function holds. The source returns a set, so their order does not matter.
  abbrev pub flags_of : S → List Text
  flags_of s =
      named_if (codes "initialized") (b.initialized s)
        (named_if (codes "scanning") (b.scan_is_active s) [])

  -- `flag_check` is a static variable of the function: the first call of all makes it, with the adapter of that call. It is
  -- passed on to the next call.
  unfoldable pub status_flags : (ℕ → S) → Option ℕ → ℕ → List Text × Option ℕ
  status_flags states none this = (flags_of (states this), some this)
  status_flags states (some checked) this = (flags_of (states checked), some checked)

  -- The results of calls one after the other, each with the states at its time and its `this`.
  unfoldable pub answers : Option ℕ → List ((ℕ → S) × ℕ) → List (List Text)
  unfolding status_flags
  answers flag_check [] = []
  answers flag_check ((states, this) ∷ calls) =
      let (flags, flag_check') = status_flags states flag_check this in
      flags ∷ answers flag_check' calls

  answers_later :
      (first : ℕ) (calls : List ((ℕ → S) × ℕ))
      → answers (some first) calls ≡ map (λ call. flags_of (call.0 first)) calls
  unfolding answers status_flags
  answers_later first [] = refl
  answers_later first ((states, this) ∷ calls) =
      ap (λ rest. flags_of (states first) ∷ rest) (answers_later first calls)

  -- From the first call of `status_flags` in the program on, every call of it returns the flags of the adapter of the first call, as they are at the time,
  -- whichever adapter it is called for.
  pub status_flags_lem :
      (states : ℕ → S) (first : ℕ) (calls : List ((ℕ → S) × ℕ))
      → answers none ((states, first) ∷ calls)
        ≡ map (λ call. flags_of (call.0 first)) ((states, first) ∷ calls)
  unfolding answers status_flags
  status_flags_lem states first calls =
      ap (λ rest. flags_of (states first) ∷ rest) (answers_later first calls)
