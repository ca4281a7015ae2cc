-- ===== src/Management/Registry/Fetch.antt =====
-- What one `fetch` returns and leaves.
use ru_ble.Base.{
  ℕ, ◌≡◌, inl, inr, Bool, true, false, none, some, arith, if◌then◌else◌, ok, err, runtime_error,
  Option-cases,
}
use ru_ble.Base.Texts.{Text, text_eq, text_eq_iff, text_eq_refl}
use ru_ble.Base.Maps.{find, find-emplace, IsSorted, emplace-IsSorted}
use ru_ble.Management.Registry.{Registry, contains, at, fetch, grown}

module _ {V P : Type 0} (key_from_value : V → Text) (new_proxy : ℕ → V → P) where
  pub fetch_found :
      (gc : Bool) (r : Registry P) (v : V) {p : P}
      → find (key_from_value v) r.entries ≡ some p
      → fetch key_from_value new_proxy gc r v ≡ (ok p, r)
  unfolding fetch
  fetch_found gc r v h = rw (h, fetch)

  pub fetch_new :
      (r : Registry P) (v : V)
      → find (key_from_value v) r.entries ≡ none
      → fetch key_from_value new_proxy false r v
        ≡ (ok (new_proxy r.next v), grown key_from_value new_proxy r v)
  unfolding fetch at
  fetch_new r v h = ground (
    arith,
    find-emplace (key_from_value v) (key_from_value v) (new_proxy r.next v) r.entries h,
    text_eq_refl (key_from_value v),
  )

  -- Outside a garbage collection `fetch` returns the proxy in the registry, or a new one where there
  -- is none. Afterwards that proxy is found under the key, any other key is found as before, and a
  -- further `fetch` of a value with the same key, a garbage collection or not, returns the same
  -- proxy and changes nothing.
  pub fetch_lem :
      (r : Registry P) (v w : V) (gc : Bool) (j : Text)
      → key_from_value w ≡ key_from_value v
      → (p : P) × (p
          ≡ (elim (find (key_from_value v) r.entries) [ none ↦ new_proxy r.next v | some q ↦ q ]))
        × (r' : Registry P) × (fetch key_from_value new_proxy false r v ≡ (ok p, r'))
        × (find j r'.entries ≡ (if text_eq (key_from_value v) j then some p else find j r.entries))
        × (fetch key_from_value new_proxy gc r' w ≡ (ok p, r'))
  fetch_lem r v w gc j e = elim (Option-cases (find (key_from_value v) r.entries)) [
    | inl h ↦ (
      new_proxy r.next v,
      rw h,
      grown key_from_value new_proxy r v,
      fetch_new r v h,
      find-emplace j (key_from_value v) (new_proxy r.next v) r.entries h,
      fetch_found gc (grown key_from_value new_proxy r v) w (
          ground (
            arith,
            find-emplace (key_from_value w) (key_from_value v) (new_proxy r.next v) r.entries h,
            text_eq_refl (key_from_value v),
          )),
    )
    | inr (p, h) ↦ (
      p,
      rw h,
      r,
      fetch_found false r v h,
      ground (arith, text_eq_iff (key_from_value v) j),
      fetch_found gc r w (rw e h),
    )
  ]

  -- During a garbage collection `fetch` never changes the registry: it returns the proxy that is
  -- there, or throws exactly where the registry does not contain the key.
  pub fetch_during_gc :
      (r : Registry P) (v : V)
      → (fetch key_from_value new_proxy true r v ≡ (
        if contains r (key_from_value v) then at r (key_from_value v) else err runtime_error,
        r,
      ))
  unfolding fetch contains at
  fetch_during_gc r v = ground arith

  -- If the keys increase strictly along the map, they still do after a `fetch`, whether it finds,
  -- adds or throws.
  pub fetch-IsSorted :
      (gc : Bool) (r : Registry P) (v : V)
      → IsSorted r.entries
      → IsSorted (fetch key_from_value new_proxy gc r v).1.entries
  unfolding fetch
  fetch-IsSorted gc r v s = elim (Option-cases (find (key_from_value v) r.entries)) [
    | inl h ↦ ground (arith, emplace-IsSorted (key_from_value v) (new_proxy r.next v) r.entries s)
    | inr (p, h) ↦ rw (fetch_found gc r v h) s
  ]
