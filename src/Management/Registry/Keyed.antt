-- ===== src/Management/Registry/Keyed.antt =====
-- Proxies that know the key under which they are kept: `tag` is what a proxy under a key is to have as its `name`.
use ru_ble.Base.{ℕ, ◌≡◌, false, none, some, List, [], ◌∷◌, arith, inl, inr, Option-cases}
use ru_ble.Base.Texts.{Text, text_eq_iff}
use ru_ble.Base.Maps.{find, find-emplace}
use ru_ble.Management.Registry.{Registry, fetch_each, grown}
use ru_ble.Management.Registry.Refresh.{step_found, step_new}

abbrev pub Keyed : {P N : Type 0} → (P → N) → (Text → N) → Registry P → Type 0
Keyed {P} name tag r = (j : Text) (p : P) → find j r.entries ≡ some p → name p ≡ tag j

module _ {V P N : Type 0} (key_from_value : V → Text) (new_proxy : ℕ → V → P) (name : P → N)
    (tag : Text → N) (named : (n : ℕ) (v : V) → name (new_proxy n v) ≡ tag (key_from_value v)) where
  grown-Keyed :
      (r : Registry P) (v : V)
      → find (key_from_value v) r.entries ≡ none
      → Keyed name tag r
      → Keyed name tag (grown key_from_value new_proxy r v)
  grown-Keyed r v fresh k j p h = ground (
    arith,
    find-emplace j (key_from_value v) (new_proxy r.next v) r.entries fresh,
    named r.next v,
    k j p,
    text_eq_iff (key_from_value v) j,
    h,
  )

  -- The loop that fetches each object keeps it so.
  pub fetch_each-Keyed :
      (r : Registry P) (vs : List V)
      → Keyed name tag r
      → Keyed name tag (fetch_each key_from_value new_proxy false r vs).1
  unfolding fetch_each
  fetch_each-Keyed r [] k = k
  fetch_each-Keyed r (v ∷ vs) k = elim (Option-cases (find (key_from_value v) r.entries)) [
    | inl h ↦
        rw (step_new key_from_value new_proxy r v vs h)
          (fetch_each-Keyed (grown key_from_value new_proxy r v) vs (grown-Keyed r v h k))
    | inr (p, h) ↦ rw (step_found key_from_value new_proxy r v vs h) (fetch_each-Keyed r vs k)
  ]
