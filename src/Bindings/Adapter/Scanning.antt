-- ===== src/Bindings/Adapter/Scanning.antt =====
-- Starting and stopping scans: `scan_start`, `scan_stop` and `scan_is_active` of ext/ruble/bindings/Adapter.cpp.
use mathlib.Core.List.{append-nil, append_assoc}
use ru_ble.Base.{
  ◌≡◌, refl, ◌∙◌, ap, Bool, true, false, List, [], ◌∷◌, ◌++◌, arith, ok, err, if◌then◌else◌,
  Bool-cases, inl, inr,
}
use ru_ble.Bindings.Peripheral.{Step}
use ru_ble.Bindings.Adapter.{AdapterBackend, scan_start, scan_stop}

pub data Request : Type 0 where
  start stop : Request

-- Whether a scan is to be active afterwards.
abbrev pub wanted : Request → Bool
wanted start = true
wanted stop = false

-- What an adapter of SimpleBLE does with the calls that it gets: nothing is thrown, and a scan is active or not.
pub record Scans {S V : Type 0} (b : AdapterBackend S V) : Type 0 where
  pub starts : (s : S) → ((b.scan_start s).0 ≡ ok tt) × (b.scan_is_active (b.scan_start s).1 ≡ true)
  pub stops : (s : S) → ((b.scan_stop s).0 ≡ ok tt) × (b.scan_is_active (b.scan_stop s).1 ≡ false)

-- The same adapter, with a log of the calls that it gets.
abbrev pub logged : {S V : Type 0} → AdapterBackend S V → AdapterBackend (S × List Request) V
logged b = record {
  initialized = λ s. b.initialized s.0;
  identifier = λ s. b.identifier s.0;
  scan_is_active = λ s. b.scan_is_active s.0;
  scan_start = λ s. let (r, t) = b.scan_start s.0 in (r, (t, s.1 ++ (start ∷ [])));
  scan_stop = λ s. let (r, t) = b.scan_stop s.0 in (r, (t, s.1 ++ (stop ∷ [])));
  scan_for = λ ms s. let (r, t) = b.scan_for ms s.0 in (r, (t, s.1));
  scan_get_results = λ s. b.scan_get_results s.0;
  get_paired_peripherals = λ s. b.get_paired_peripherals s.0;
}

-- The requests that change something, from whether a scan is active.
abbrev pub changes : Bool → List Request → List Request
changes active [] = []
changes active (start ∷ rs) = let rest = changes true rs in if active then rest else start ∷ rest
changes active (stop ∷ rs) = let rest = changes false rs in if active then stop ∷ rest else rest

abbrev pub finally : Bool → List Request → Bool
finally active [] = active
finally active (r ∷ rs) = finally (wanted r) rs

module _ {S V : Type 0} (b : AdapterBackend S V) where
  request : Request → Step S (Unit {0})
  request start = scan_start b
  request stop = scan_stop b

  -- One request after the other, up to the first that throws.
  pub request_all : List Request → Step S (Unit {0})
  unfolding request
  request_all [] s = (ok tt, s)
  request_all (r ∷ rs) s =
      let (result, s') = request r s in
      let rest = request_all rs s' in elim result [ err e ↦ (err e, s') | ok _ ↦ rest ]

module _ {S V : Type 0} (b : AdapterBackend S V) where
  changes-cons :
      (active : Bool) (r : Request) (rs : List Request)
      → changes active (r ∷ rs) ≡ changes active (r ∷ []) ++ changes (wanted r) rs
  changes-cons active start rs = ground arith
  changes-cons active stop rs = ground arith

  -- What a request does to the adapter with its log.
  request_lem :
      Scans b
      → (r : Request) (s : S) (log : List Request)
      → (s' : S) × (request (logged b) r (s, log)
          ≡ (ok tt, (s', log ++ changes (b.scan_is_active s) (r ∷ []))))
        × (b.scan_is_active s' ≡ wanted r)
  unfolding request scan_start scan_stop
  request_lem o start s log = elim (Bool-cases (b.scan_is_active s)) [
    | inl h ↦ (s, ground (arith, h, append-nil log), h)
    | inr h ↦ ((b.scan_start s).1, ground (arith, h, o.starts s), (o.starts s).1)
  ]
  request_lem o stop s log = elim (Bool-cases (b.scan_is_active s)) [
    | inl h ↦ ((b.scan_stop s).1, ground (arith, h, o.stops s), (o.stops s).1)
    | inr h ↦ (s, ground (arith, h, append-nil log), h)
  ]

  -- SimpleBLE is asked to start a scan only while none is active and to stop one only while one is: if its calls throw nothing
  -- and make a scan active or not, then for every sequence of `scan_start` and `scan_stop` the calls that it gets are those among
  -- them that change whether a scan is active, in their order; nothing is thrown, and at the end a scan is active
  -- exactly if the last of them asked for it, or if there was none of them and one was active before.
  pub request_all_lem :
      (rs : List Request) (s : S) (log : List Request)
      → Scans b
      → (s' : S) × (request_all (logged b) rs (s, log)
          ≡ (ok tt, (s', log ++ changes (b.scan_is_active s) rs)))
        × (b.scan_is_active s' ≡ finally (b.scan_is_active s) rs)
  unfolding request_all
  request_all_lem [] s log o = (s, ground (arith, append-nil log), refl)
  request_all_lem (r ∷ rs) s log o =
      let (s', e, active) = request_lem o r s log in
      let first = changes (b.scan_is_active s) (r ∷ []) in
      let (s'', e', active') = request_all_lem rs s' (log ++ first) o in
      (
        s'',
        ground (
          arith,
          e,
          e',
          active,
          changes-cons (b.scan_is_active s) r rs,
          append_assoc log first (changes (wanted r) rs),
        ),
        active' ∙ ap (λ a. finally a rs) active,
      )
