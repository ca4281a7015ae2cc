-- ===== src/Management/Registry/Abstract.antt =====
-- A registry as its clients see it: a function from keys to proxies, and the address of the next proxy. A client makes
-- any sequence of calls.
use ru_ble.Base.{
  ℕ, suc, ◌≡◌, refl, ap, fun_ext, Bool, true, false, Option, none, some, List, [], ◌∷◌, arith,
  if◌then◌else◌, Result, ok, err, runtime_error, out_of_range, is_some, Option-cases, inl, inr,
  Bool-cases,
}
use ru_ble.Base.Texts.{Text, text_eq}
use ru_ble.Base.Maps.{find, find-emplace, IsSorted}
use ru_ble.Management.Registry.{Registry, contains, at, fetch, clear, grown}
use ru_ble.Management.Registry.Fetch.{fetch_found, fetch_new, fetch-IsSorted}

pub record View (P : Type 0) : Type 0 where
  pub lookup : Text → Option P
  pub next : ℕ

-- A call of a client, and what it returns.
pub data Call (V : Type 0) : Type 0 where
  fetch_call : Bool → V → Call V
  at_call contains_call : Text → Call V
  clear_call : Call V

pub data Answer (P : Type 0) : Type 0 where
  proxy_answer : Result P → Answer P
  bool_answer : Bool → Answer P
  no_answer : Answer P

module _ {P : Type 0} where
  abbrev pub view : Registry P → View P
  view r = record { lookup = λ k. find k r.entries; next = r.next }

  abbrev pub update : (Text → Option P) → Text → P → Text → Option P
  update f k p j = if text_eq k j then some p else f j

  abbrev pub or_throw : Option P → Result P
  or_throw none = err out_of_range
  or_throw (some p) = ok p

module _ {V P : Type 0} (key_from_value : V → Text) (new_proxy : ℕ → V → P) where
  unfoldable pub call : Call V → Registry P → Answer P × Registry P
  call (fetch_call during_gc v) r =
      let (p, r') = fetch key_from_value new_proxy during_gc r v in (proxy_answer p, r')
  call (at_call k) r = (proxy_answer (at r k), r)
  call (contains_call k) r = (bool_answer (contains r k), r)
  call clear_call r = (no_answer, clear r)

  unfoldable pub calls : List (Call V) → Registry P → List (Answer P) × Registry P
  calls [] r = ([], r)
  calls (c ∷ cs) r = let (a, r') = call c r in let (others, r'') = calls cs r' in (a ∷ others, r'')

  -- What the calls promise. A proxy is made for a key that has none, outside a garbage collection.
  unfoldable pub promise : Call V → View P → Answer P × View P
  promise (fetch_call during_gc v) w = elim (w.lookup (key_from_value v)) [
    | some p ↦ (proxy_answer (ok p), w)
    | none ↦ if during_gc then (proxy_answer (err runtime_error), w) else (
      proxy_answer (ok (new_proxy w.next v)),
      record {
        lookup = update w.lookup (key_from_value v) (new_proxy w.next v);
        next = suc w.next;
      },
    )
  ]
  promise (at_call k) w = (proxy_answer (or_throw (w.lookup k)), w)
  promise (contains_call k) w = (bool_answer (is_some (w.lookup k)), w)
  promise clear_call w = (no_answer, record w { lookup = λ k. none })

  pub promises : List (Call V) → View P → List (Answer P) × View P
  promises [] w = ([], w)
  promises (c ∷ cs) w =
      let (a, w') = promise c w in let (others, w'') = promises cs w' in (a ∷ others, w'')

  view-grown :
      (r : Registry P) (v : V)
      → find (key_from_value v) r.entries ≡ none
      → view (grown key_from_value new_proxy r v) ≡ record {
        lookup = update (view r).lookup (key_from_value v) (new_proxy r.next v);
        next = suc r.next;
      }
  view-grown r v h =
      ap {B = View P} (λ (f : Text → Option P). record { lookup = f; next = suc r.next })
        (fun_ext λ j. find-emplace j (key_from_value v) (new_proxy r.next v) r.entries h)

  fetch_refused :
      (r : Registry P) (v : V)
      → find (key_from_value v) r.entries ≡ none
      → fetch key_from_value new_proxy true r v ≡ (err runtime_error, r)
  unfolding fetch
  fetch_refused r v h = rw (h, fetch)

  module _ (w : View P) (v : V) where
    promise_found :
        (during_gc : Bool) {p : P}
        → w.lookup (key_from_value v) ≡ some p
        → promise (fetch_call during_gc v) w ≡ (proxy_answer (ok p), w)
    unfolding promise
    promise_found during_gc h = rw (h, promise)

    promise_missing :
        (during_gc : Bool)
        → w.lookup (key_from_value v) ≡ none
        → promise (fetch_call during_gc v) w ≡ (
            if during_gc then (proxy_answer (err runtime_error), w) else (
              proxy_answer (ok (new_proxy w.next v)),
              record {
                lookup = update w.lookup (key_from_value v) (new_proxy w.next v);
                next = suc w.next;
              },
            ))
    unfolding promise
    promise_missing during_gc h = rw (h, promise)

  fetch-promise :
      (during_gc : Bool) (v : V) (r : Registry P)
      → promise (fetch_call during_gc v) (view r) ≡ (
        proxy_answer (fetch key_from_value new_proxy during_gc r v).0,
        view (fetch key_from_value new_proxy during_gc r v).1,
      )
  fetch-promise during_gc v r = elim (Option-cases (find (key_from_value v) r.entries)) [
    | inr (p, h) ↦
        rw (fetch_found key_from_value new_proxy during_gc r v h)
          (promise_found (view r) v during_gc h)
    | inl h ↦ elim (Bool-cases during_gc) [
      | inl e ↦ rw (e, fetch_refused r v h) (promise_missing (view r) v true h)
      | inr e ↦
          rw (e, fetch_new key_from_value new_proxy r v h, view-grown r v h)
            (promise_missing (view r) v false h)
    ]
  ]

  call-promise :
      (c : Call V) (r : Registry P) → promise c (view r) ≡ ((call c r).0, view (call c r).1)
  unfolding call promise at contains clear find
  call-promise (fetch_call during_gc v) r = fetch-promise during_gc v r
  call-promise (at_call k) r = ground arith
  call-promise (contains_call k) r = refl
  call-promise clear_call r = refl

  call-IsSorted : (c : Call V) (r : Registry P) → IsSorted r.entries → IsSorted (call c r).1.entries
  unfolding call clear
  call-IsSorted (fetch_call during_gc v) r s =
      fetch-IsSorted key_from_value new_proxy during_gc r v s
  call-IsSorted (at_call k) r s = s
  call-IsSorted (contains_call k) r s = s
  call-IsSorted clear_call r s = tt

  -- Whatever a client calls, in any order and during garbage collections or not, it gets the answers that
  -- the promises give, and the registry then reads as the promised function. Keys that increase strictly before
  -- do so afterwards.
  pub calls_refine :
      (cs : List (Call V)) (r : Registry P)
      → IsSorted r.entries
      → (promises cs (view r) ≡ ((calls cs r).0, view (calls cs r).1))
        × IsSorted (calls cs r).1.entries
  unfolding calls promises
  calls_refine [] r s = (refl, s)
  calls_refine (c ∷ cs) r s =
      let (e, t) = calls_refine cs (call c r).1 (call-IsSorted c r s) in
      (rw (call-promise c r, e) refl, t)
