-- ===== src/Management/RubyQueue/Mailbox.antt =====
-- What the queue promises the rest of the program, whatever the threads do: a mailbox, to which items are submitted, and
-- from which each is delivered once. In which order the items wait is forgotten.
use mathlib.Core.List.{Perm, append-nil, perm_append_singleton}
use mathlib.Core.List.Perm
use mathlib.Core.Quot
use mathlib.Core.Quot.{Quot, Quot-set}
use ru_ble.Base.{◌≡◌, refl, ap, sym, Bool, List, [], ◌∷◌, ◌++◌, arith}
use ru_ble.Management.RubyQueue.Order.{pop_back_lem}
use ru_ble.Management.RubyQueue.Safety.{in_hand}
use ru_ble.Management.RubyQueue.Threads.{
  Pc, System, Move, Steps, here, next, take_item, call_item, put,
}

abbrev pub Bag {ℓ} : Type ℓ → Type ℓ
Bag A = Quot {α = List A} Perm

module _ {ℓ} {A : Type ℓ} where
  abbrev pub bag : List A → Bag A
  bag xs = Quot.mk xs

  abbrev pub add : A → Bag A → Bag A
  add x = Quot.lift Quot-set (λ xs. bag (x ∷ xs)) (λ xs ys p. Quot.sound (Perm.cons x p))

-- The items that wait, in no order, and those that were delivered, in order.
pub record Mailbox {ℓ} (A : Type ℓ) : Type ℓ where
  pub waiting : Bag A
  pub delivered : List A

pub data Event {ℓ} (A : Type ℓ) : Type ℓ where
  quiet : Event A
  submit deliver : A → Event A

module _ {ℓ} {A : Type ℓ} where
  -- What an event does to a mailbox.
  abbrev pub Happens : Event A → Mailbox A → Mailbox A → Type ℓ
  Happens quiet m m' = (m'.waiting ≡ m.waiting) × (m'.delivered ≡ m.delivered)
  Happens (submit x) m m' = (m'.waiting ≡ add x m.waiting) × (m'.delivered ≡ m.delivered)
  Happens (deliver x) m m' =
      (m.waiting ≡ add x m'.waiting) × (m'.delivered ≡ m.delivered ++ (x ∷ []))

  -- A list of events, the last first.
  abbrev pub Run : List (Event A) → Mailbox A → Mailbox A → Type ℓ
  Run [] m m' = (m'.waiting ≡ m.waiting) × (m'.delivered ≡ m.delivered)
  Run (e ∷ es) m m'' = (m' : Mailbox A) × Run es m m' × Happens e m' m''

  -- An item waits until the call of it begins, so the one in hand does too.
  abbrev pub view : System A → Mailbox A
  view s = record { waiting = bag (s.mem.q ++ in_hand s.pc); delivered = s.called }

  abbrev pub event : {debug : Bool} {s t : System A} {p : Pc A} → Move debug s p t → Event A
  event (put fn _) = submit fn
  event (call_item {item}) = deliver item
  event _ = quiet

  put_view : (q h : List A) (fn : A) → bag ((q ++ (fn ∷ [])) ++ h) ≡ add fn (bag (q ++ h))
  put_view q h fn = Quot.sound (Perm.append_right h (perm_append_singleton fn q))

  call_view : (q : List A) (item : A) → bag (q ++ (item ∷ [])) ≡ add item (bag (q ++ []))
  call_view q item = rw (append-nil q) (Quot.sound (perm_append_singleton item q))

  -- Every move of a thread is an event of the mailbox.
  Move-Happens :
      {debug : Bool} {s t : System A} {p : Pc A} (m : Move debug s p t)
      → s.pc ≡ p
      → Happens (event m) (view s) (view t)
  Move-Happens {s = s} (put fn h) e = (put_view s.mem.q (in_hand s.pc) fn, refl)
  Move-Happens {s = s} (call_item {item}) e = (rw e (call_view s.mem.q item), refl)
  Move-Happens {s = s} (take_item {item} {front} h) e =
      (rw (e, append-nil s.mem.q) (ap bag (sym (pop_back_lem s.mem.q h))), refl)
  Move-Happens m e = ground arith

  abbrev pub events : {debug : Bool} {s t : System A} → Steps debug s t → List (Event A)
  events here = []
  events (next st m) = event m ∷ events st

  -- Whatever the threads do, and in whichever order, is a run of the mailbox: an item is submitted where `push` puts it into
  -- the queue, one that waits is delivered where the loop calls it, and no other step changes what
  -- waits or what was delivered.
  pub steps_refine :
      {debug : Bool} {s t : System A} (st : Steps debug s t) → Run (events st) (view s) (view t)
  steps_refine here = (refl, refl)
  steps_refine (next {t} st m) = (view t, steps_refine st, Move-Happens m refl)
