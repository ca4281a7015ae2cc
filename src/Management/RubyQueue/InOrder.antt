-- ===== src/Management/RubyQueue/InOrder.antt =====
-- The queue while its thread keeps up: ext/ruble/management/RubyQueue.hpp calls it FIFO.
use mathlib.Core.List.{append-nil, append_assoc}
use ru_ble.Base.{
  ◌≡◌, refl, ap, ◌∙◌, Bool, true, false, ◌&&◌, List, [], ◌∷◌, ◌++◌, arith, ◌≤◌, length,
  length-append,
}
use ru_ble.Management.RubyQueue.Order.{pop_back_lem}
use ru_ble.Management.RubyQueue.Safety.{in_hand}
use ru_ble.Management.RubyQueue.Threads.{
  Pc, System, Move, Reach, begin, later, take_item, call_item, put,
}

module _ {ℓ} {A : Type ℓ} where
  abbrev is_empty : List A → Bool
  is_empty [] = true
  is_empty (x ∷ xs) = false

  -- Where an item is put into the queue, none waits there.
  abbrev finds_empty : {debug : Bool} {s t : System A} {p : Pc A} → Move debug s p t → Bool
  finds_empty {s = s} (put _ _) = is_empty s.mem.q
  finds_empty _ = true

  abbrev pub keeps_up : {debug : Bool} {s : System A} → Reach debug s → Bool
  keeps_up begin = true
  keeps_up (later r m) = keeps_up r && finds_empty m

  abbrev InOrder : System A → Type ℓ
  InOrder s = (length s.mem.q ≤ 1) × (s.pushed ≡ s.called ++ (in_hand s.pc ++ s.mem.q))

  put_in_order :
      (pushed called hand q : List A) (fn : A)
      → is_empty q ≡ true
      → pushed ≡ called ++ (hand ++ q)
      → (length (q ++ (fn ∷ [])) ≤ 1) × (pushed ++ (fn ∷ []) ≡ called ++ (hand ++ (q ++ (fn ∷ []))))
  put_in_order pushed called hand [] fn h e = (
    omega arith,
    ap (λ xs. xs ++ (fn ∷ [])) (e ∙ ap (λ xs. called ++ xs) (append-nil hand))
        ∙ append_assoc called hand (fn ∷ []),
  )
  put_in_order pushed called hand (x ∷ q) fn h e = cc

  -- The item that is taken was the only one.
  take_in_order :
      (front q : List A) (item : A) → q ≡ front ++ (item ∷ []) → length q ≤ 1 → front ≡ []
  take_in_order [] q item e h = refl
  take_in_order (x ∷ front) q item e h =
      absurd (omega (arith, h, ap length e, length-append (x ∷ front) (item ∷ [])))

  Move-InOrder :
      {debug : Bool} {s t : System A} {p : Pc A} (m : Move debug s p t)
      → s.pc ≡ p
      → finds_empty m ≡ true
      → InOrder s
      → InOrder t
  Move-InOrder {s} (put fn h) e k v = put_in_order s.pushed s.called (in_hand s.pc) s.mem.q fn k v.1
  Move-InOrder {s} (take_item {item} {front} h) e k v =
      let split = pop_back_lem s.mem.q h in
      let alone = take_in_order front s.mem.q item split v.0 in
      (ground (arith, alone), ground (arith, alone, split, v.1, e))
  Move-InOrder {s} (call_item {item}) e k v =
      (v.0, rw (append_assoc s.called (item ∷ []) s.mem.q) (rw e at v.1))
  Move-InOrder m e k v = ground arith

  -- While the thread keeps up, so that `push` never finds an item that waits, the items are called in the order in which they
  -- were pushed, as the header says: those called, the one in hand and the one in the queue are the pushed ones, in this order.
  pub called_in_order :
      {debug : Bool} {s : System A} (r : Reach debug s)
      → keeps_up r ≡ true
      → (length s.mem.q ≤ 1) × (s.pushed ≡ s.called ++ (in_hand s.pc ++ s.mem.q))
  called_in_order begin h = (omega arith, refl)
  called_in_order (later r m) h =
      Move-InOrder m refl (ground (arith, h)) (called_in_order r (ground (arith, h)))
