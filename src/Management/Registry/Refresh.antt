-- ===== src/Management/Registry/Refresh.antt =====
-- What a registry holds after the loop that fetches each object of SimpleBLE.
use ru_ble.Base.{
  ℕ, ◌≡◌, refl, inl, inr, Bool, false, ◌||◌, none, some, List, [], ◌∷◌, arith, ok, Option-cases,
}
use ru_ble.Base.Texts.{Text, text_eq, text_eq_iff}
use ru_ble.Base.Maps.{find, find-emplace}
use ru_ble.Management.Registry.{Registry, fetch_each, grown, contains}
use ru_ble.Management.Registry.Fetch.{fetch_found, fetch_new}
use ru_ble.Management.Registry.Bulk.{Extends}

module _ {V P : Type 0} (key_from_value : V → Text) (new_proxy : ℕ → V → P) where
  unfoldable pub has_key : Text → List V → Bool
  has_key j [] = false
  has_key j (v ∷ vs) = text_eq (key_from_value v) j || has_key j vs

  pub step_found :
      (r : Registry P) (v : V) (vs : List V) {p : P}
      → find (key_from_value v) r.entries ≡ some p
      → fetch_each key_from_value new_proxy false r (v ∷ vs)
        ≡ fetch_each key_from_value new_proxy false r vs
  unfolding fetch_each
  step_found r v vs h = ground (arith, fetch_found key_from_value new_proxy false r v h)

  pub step_new :
      (r : Registry P) (v : V) (vs : List V)
      → find (key_from_value v) r.entries ≡ none
      → fetch_each key_from_value new_proxy false r (v ∷ vs)
        ≡ fetch_each key_from_value new_proxy false (grown key_from_value new_proxy r v) vs
  unfolding fetch_each
  step_new r v vs h = ground (arith, fetch_new key_from_value new_proxy r v h)

  pub fetch_each_lem :
      (r : Registry P) (vs : List V)
      → (r' : Registry P) × (fetch_each key_from_value new_proxy false r vs ≡ (ok tt, r'))
        × Extends r.entries r'.entries
        × ((j : Text) → contains r' j ≡ (contains r j || has_key j vs))
  unfolding fetch_each has_key contains
  fetch_each_lem r [] = (r, refl, (λ j. inr refl), λ j. ground arith)
  fetch_each_lem r (v ∷ vs) = elim (Option-cases (find (key_from_value v) r.entries)) [
    | inl h ↦
        let (r', e, x, c) = fetch_each_lem (grown key_from_value new_proxy r v) vs in
        (
          r',
          rw (step_new r v vs h) e,
          (λ j. ground (
            arith,
            x j,
            find-emplace j (key_from_value v) (new_proxy r.next v) r.entries h,
            text_eq_iff (key_from_value v) j,
          )),
          λ j.
              ground
                (arith, c j, find-emplace j (key_from_value v) (new_proxy r.next v) r.entries h),
        )
    | inr (p, h) ↦
        let (r', e, x, c) = fetch_each_lem r vs in
        (
          r',
          rw (step_found r v vs h) e,
          x,
          λ j. ground (arith, c j, text_eq_iff (key_from_value v) j),
        )
  ]
