-- ===== src/Bindings/Marking/Exact.antt =====
-- Which Ruby objects the marks of the registry of adapters reach.
use ru_ble.Base.{ℕ, ◌≡◌, ◌↔◌, ◌⊎◌, inl, inr, Option, none, some, List, [], ◌∷◌, ◌++◌, arith}
use ru_ble.Base.Texts.{Text}
use ru_ble.Containers.Callback.{Callback}
use ru_ble.Management.Registry.{Registry}
use ru_ble.Bindings.Characteristic.{Characteristic}
use ru_ble.Bindings.Peripheral.{Peripheral}
use ru_ble.Bindings.Adapter.{Adapter}
use ru_ble.Bindings.Marking.{
  Rice, ServiceObject, object_of, marks_option, gc_mark, marks_each, mark_callback, mark_byte_array,
  mark_descriptors, mark_characteristic, mark_registry, mark_service, mark_peripheral, mark_adapter,
  mark_adapter_registry, rice_mark, adapter_registry,
}

unfoldable pub Marked : ℕ → List ℕ → Type 0
Marked v [] = ⊥
Marked v (x ∷ xs) = (v ≡ x) ⊎ Marked v xs

-- Some value of a map.
abbrev pub Any : {P : Type 0} → (P → Type 0) → List (Text × P) → Type 0
Any H [] = ⊥
Any H ((key, value) ∷ rest) = H value ⊎ Any H rest

abbrev pub IfSome : {A : Type 0} → (A → Type 0) → Option A → Type 0
IfSome H none = ⊥
IfSome H (some a) = H a

-- The object that a callback calls.
abbrev pub Calls : ℕ → Callback → Type 0
Calls v c = object_of c.cb ≡ some v

module _ (rice : Rice) (v : ℕ) where
  -- The objects of a characteristic: its own, the one of its last value, and those it calls.
  abbrev pub OfCharacteristic : Characteristic → Type 0
  OfCharacteristic c =
      (v ≡ c.self)
      ⊎ IfSome (λ b. rice.byte_array_object b ≡ some v) c.tracker.value
      ⊎ IfSome (Calls v) c.on_indicate
      ⊎ IfSome (Calls v) c.on_notify
      ⊎ IfSome (Any (λ d. Marked v (rice.descriptor_marks d))) c.descriptors

  abbrev pub OfService : ServiceObject → Type 0
  OfService s = (v ≡ s.self) ⊎ Any OfCharacteristic s.characteristic_registry.entries

  -- The objects of a registry: its own, those that Rice marks for its map, and those of its values.
  abbrev pub OfRegistry : {P : Type 0} → (P → Type 0) → Registry P → Type 0
  OfRegistry H r = (v ≡ r.self) ⊎ Marked v (rice.map_marks r.self) ⊎ Any H r.entries

  abbrev pub OfPeripheral : Peripheral ServiceObject → Type 0
  OfPeripheral p =
      (v ≡ p.self)
      ⊎ Calls v p.on_connected
      ⊎ Calls v p.on_disconnected
      ⊎ IfSome (OfRegistry OfService) p.service_registry

  -- The object of the adapter itself is not among them.
  abbrev pub OfAdapter : Adapter (Peripheral ServiceObject) → Type 0
  OfAdapter a =
      OfRegistry OfPeripheral a.peripheral_registry
      ⊎ Calls v a.on_scan_start_cb
      ⊎ Calls v a.on_scan_stop_cb
      ⊎ Calls v a.on_scan_update_cb
      ⊎ Calls v a.on_scan_find_cb

  ⊎_iff : {A B C D : Type 0} → (A ↔ B) → (C ↔ D) → (A ⊎ C) ↔ (B ⊎ D)
  ⊎_iff p q = (
    (λ s. elim s [ inl a ↦ inl (p.0 a) | inr c ↦ inr (q.0 c) ]),
    λ s. elim s [ inl b ↦ inl (p.1 b) | inr d ↦ inr (q.1 d) ],
  )

  Marked-append : (xs ys : List ℕ) → Marked v (xs ++ ys) ↔ (Marked v xs ⊎ Marked v ys)
  unfolding Marked
  Marked-append [] ys = ((λ m. inr m), λ s. elim s [ inl e ↦ elim e [ ] | inr m ↦ m ])
  Marked-append (x ∷ xs) ys =
      let (f, g) = Marked-append xs ys in
      (
        (λ m. elim m [
          | inl e ↦ inl (inl e)
          | inr n ↦ elim (f n) [ inl a ↦ inl (inr a) | inr b ↦ inr b ]
        ]),
        λ s. elim s [
          | inl a ↦ elim a [ inl e ↦ inl e | inr b ↦ inr (g (inl b)) ]
          | inr b ↦ inr (g (inr b))
        ],
      )

  trans_iff : {A B C : Type 0} → (A ↔ B) → (B ↔ C) → A ↔ C
  trans_iff p q = ((λ a. q.0 (p.0 a)), λ c. p.1 (q.1 c))

  -- One part of a list of marks, and the rest.
  both_iff :
      {A B : Type 0} (xs ys : List ℕ)
      → (Marked v xs ↔ A)
      → (Marked v ys ↔ B)
      → Marked v (xs ++ ys) ↔ (A ⊎ B)
  both_iff xs ys p q = trans_iff (Marked-append xs ys) (⊎_iff p q)

  object_iff : (x : ℕ) → Marked v (gc_mark x) ↔ (v ≡ x)
  unfolding Marked
  object_iff x = ((λ m. elim m [ inl e ↦ e | inr n ↦ elim n [ ] ]), λ e. inl e)

  option_iff :
      {A : Type 0} {H : A → Type 0} (f : A → List ℕ) (o : Option A)
      → ((a : A) → Marked v (f a) ↔ H a)
      → Marked v (marks_option f o) ↔ IfSome H o
  unfolding Marked
  option_iff f none h = ((λ m. m), λ m. m)
  option_iff f (some a) h = h a

  each_iff :
      {P : Type 0} {H : P → Type 0} (f : P → List ℕ) (m : List (Text × P))
      → ((p : P) → Marked v (f p) ↔ H p)
      → Marked v (marks_each f m) ↔ Any H m
  unfolding marks_each Marked
  each_iff f [] h = ((λ e. e), λ e. e)
  each_iff f ((key, p) ∷ rest) h = both_iff _ _ (h p) (each_iff f rest h)

  held_iff : (o : Option ℕ) → Marked v (marks_option gc_mark o) ↔ (o ≡ some v)
  unfolding Marked
  held_iff none = ground arith
  held_iff (some x) = ground arith

  callback_iff : (c : Callback) → Marked v (mark_callback c) ↔ Calls v c
  unfolding mark_callback
  callback_iff c = held_iff (object_of c.cb)

  characteristic_iff :
      (c : Characteristic) → Marked v (mark_characteristic rice c) ↔ OfCharacteristic c
  unfolding mark_characteristic mark_byte_array mark_descriptors
  characteristic_iff c = both_iff _ _ (object_iff c.self) (
      both_iff _ _ (option_iff _ c.tracker.value (λ b. held_iff (rice.byte_array_object b))) (
        both_iff _ _ (option_iff _ c.on_indicate callback_iff) (
          both_iff _ _ (option_iff _ c.on_notify callback_iff)
            (option_iff _ c.descriptors (λ m. each_iff _ m (λ d. ((λ e. e), λ e. e)))))))

  service_iff : (s : ServiceObject) → Marked v (mark_service rice s) ↔ OfService s
  unfolding mark_service
  service_iff s =
      both_iff _ _ (object_iff s.self)
        (each_iff _ s.characteristic_registry.entries characteristic_iff)

  registry_iff :
      {P : Type 0} {H : P → Type 0} (f : P → List ℕ) (r : Registry P)
      → ((p : P) → Marked v (f p) ↔ H p)
      → Marked v (mark_registry rice f r) ↔ OfRegistry H r
  unfolding mark_registry
  registry_iff f r h =
      both_iff _ _ (object_iff r.self) (both_iff _ _ ((λ e. e), λ e. e) (each_iff f r.entries h))

  peripheral_iff :
      (p : Peripheral ServiceObject) → Marked v (mark_peripheral rice p) ↔ OfPeripheral p
  unfolding mark_peripheral
  peripheral_iff p = both_iff _ _ (object_iff p.self) (
      both_iff _ _ (callback_iff p.on_connected) (
        both_iff _ _ (callback_iff p.on_disconnected)
          (option_iff _ p.service_registry (λ r. registry_iff _ r service_iff))))

  adapter_iff :
      (a : Adapter (Peripheral ServiceObject)) → Marked v (mark_adapter rice a) ↔ OfAdapter a
  unfolding mark_adapter
  adapter_iff a = both_iff _ _ (registry_iff _ a.peripheral_registry peripheral_iff) (
      both_iff _ _ (callback_iff a.on_scan_start_cb) (
        both_iff _ _ (callback_iff a.on_scan_stop_cb)
          (both_iff _ _ (callback_iff a.on_scan_update_cb) (callback_iff a.on_scan_find_cb))))

  -- Besides what Rice marks by itself, marking the registry of adapters marks exactly these Ruby objects, at every level
  -- of the tree of registries: each proc or object set in a callback of an adapter, a peripheral or a characteristic, the
  -- objects of the registry, of the registries of peripherals and of services, of every peripheral, service and
  -- characteristic, and of the last value of a characteristic. Objects of adapters, of descriptors and of
  -- the registries of characteristics are not among them.
  pub mark_iff :
      (r : Registry (Adapter (Peripheral ServiceObject)))
      → Marked v (rice_mark rice (adapter_registry r)) ↔ OfRegistry OfAdapter r
  unfolding rice_mark mark_adapter_registry
  mark_iff r = registry_iff _ r adapter_iff
