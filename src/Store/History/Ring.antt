-- ===== src/Store/History/Ring.antt =====
-- store/event_queue.go and store/event_history.go: the ring against the list of its last events.
use native.Mathlib.Nat.{mod-add-mod, mod-lt}
use etcd.Prelude.{
  lt→ltb, false, sym, ap, ◌∙◌, ℕ, zero, suc, ◌+◌, ◌-◌, ◌%◌, ◌≤◌, ◌<◌, ◌≡◌, ◌≢◌, refl, inl, inr, ◌⊎◌,
  some, List, [], ◌∷◌, ◌++◌, arith, ltb, ◌==◌, if◌then◌else◌, length, get_elem?, length-append,
  length-drop, get_elem?-drop, drop, ok, Bool-cases,
}
use etcd.Prelude.Arrays.{set, length-set, get_elem?-set_same, get_elem?-set_other, mod_wrap}
use etcd.Store.Event.{Event}
use etcd.Store.History.{EventQueue, insert}

-- The queue holds these events, the oldest first, from `front` on around the ring.
pub record Represents (q : EventQueue) (es : List Event) : Type 0 where
  pub positive : 1 ≤ q.capacity
  pub room : length q.events ≡ q.capacity
  pub size : q.size ≡ length es
  pub bounded : length es ≤ q.capacity
  pub front : q.front < q.capacity
  pub back : q.back ≡ (q.front + length es) % q.capacity
  pub held :
      (k : ℕ) (e : Event)
      → get_elem? es k ≡ some e
      → get_elem? q.events ((q.front + k) % q.capacity) ≡ some (some e)

-- A list with one more event, of which a ring of the given capacity keeps the last ones.
abbrev pub keep_last : ℕ → List Event → Event → List Event
keep_last c es e = if length es == c then drop 1 (es ++ e ∷ []) else es ++ e ∷ []

-- Slots of the ring: the k-th from `front`, for `k` up to the capacity.
pub slot_wrap :
    (f k c : ℕ) → f < c → k ≤ c → (f + k) % c ≡ (if ltb (f + k) c then f + k else f + k - c)
slot_wrap f k c h g = mod_wrap (f + k) c (omega arith)

pub slot_next : (f k c : ℕ) → ((f + k) % c + 1) % c ≡ (f + (k + 1)) % c
slot_next f k c = mod-add-mod (f + k) c 1 ∙ ap (λ i. i % c) (omega arith)

slot_shift : (f k c : ℕ) → ((f + 1) % c + k) % c ≡ (f + (k + 1)) % c
slot_shift f k c = mod-add-mod (f + 1) c k ∙ ap (λ i. i % c) (omega arith)

-- The slot behind the last event is none of the others, but that of the oldest in a full ring.
slots_differ : (f k n c : ℕ) → f < c → k < n → n ≤ c → (n ≡ c → 1 ≤ k) → (f + n) % c ≢ (f + k) % c
slots_differ f k n c h g b full =
    rw (slot_wrap f n c h b, slot_wrap f k c h (omega arith)) (ground arith)

pub appended_cases :
    (es : List Event) (e x : Event) (k : ℕ)
    → get_elem? (es ++ e ∷ []) k ≡ some x
    → (k < length es) × (get_elem? es k ≡ some x) ⊎ (k ≡ length es) × (e ≡ x)
appended_cases [] e x zero h = inr (refl, ground (arith, h))
appended_cases [] e x (suc k) h = cc
appended_cases (y ∷ es) e x zero h = inl (omega arith, h)
appended_cases (y ∷ es) e x (suc k) h = elim (appended_cases es e x k h) [
  | inl (low, g) ↦ inl (omega arith, g)
  | inr (last, g) ↦ inr (omega arith, g)
]

inserted-held :
    (q : EventQueue) (es : List Event) (e : Event)
    → Represents q es
    → (k : ℕ) (x : Event) → get_elem? (es ++ e ∷ []) k ≡ some x
    → (length es ≡ q.capacity → 1 ≤ k)
    → get_elem? (set q.events q.back (some e)) ((q.front + k) % q.capacity) ≡ some (some x)
inserted-held q es e r k x h g = elim (appended_cases es e x k h) [
  | inl (low, old) ↦
      let other : q.back ≢ (q.front + k) % q.capacity =
        rw r.back (slots_differ q.front k (length es) q.capacity r.front low r.bounded g) in
      get_elem?-set_other q.events q.back _ (some e) other ∙ r.held k x old
  | inr (last, new) ↦
      let here : (q.front + k) % q.capacity ≡ q.back = rw (last, r.back) refl in
      let inside : q.back < length q.events =
        rw (r.back, r.room) (mod-lt (q.front + length es) r.positive) in
      rw here (get_elem?-set_same q.events q.back (some e) inside ∙ ap (λ y. some (some y)) new)
]

module _ (q : EventQueue) (es : List Event) (e : Event) (r : Represents q es) where
  -- The queue that `insert` leaves.
  abbrev inserted : EventQueue
  inserted = record q {
    events = set q.events q.back (some e);
    back = (q.back + 1) % q.capacity;
    front = if q.size == q.capacity then (q.front + 1) % q.capacity else q.front;
    size = if q.size == q.capacity then q.size else q.size + 1;
  }

  insert-eq : insert q e ≡ ok inserted
  insert-eq =
      let inside : q.back < length q.events =
        rw (r.back, r.room) (mod-lt (q.front + length es) r.positive) in
      let has_room : (q.capacity == 0) ≡ false = ground (arith, r.positive) in
      unfold insert in rw (lt→ltb q.back (length q.events) inside, has_room) refl

  full-Represents :
      length es ≡ q.capacity
      → Represents
          (record q {
            events = set q.events q.back (some e);
            back = (q.back + 1) % q.capacity;
            front = (q.front + 1) % q.capacity;
            size = length es;
          })
          (drop 1 (es ++ e ∷ []))
  full-Represents full =
      let n : length (drop 1 (es ++ e ∷ [])) ≡ length es =
        omega (arith, length-drop 1 (es ++ e ∷ []), length-append es (e ∷ [])) in
      record {
        positive = r.positive;
        room = length-set q.events q.back (some e) ∙ r.room;
        size = sym n;
        bounded = omega (arith, n, r.bounded);
        front = mod-lt (q.front + 1) r.positive;
        back =
            rw (r.back, n, slot_next q.front (length es) q.capacity)
              (sym (slot_shift q.front (length es) q.capacity));
        held = λ k x h. rw (slot_shift q.front k q.capacity) (
            inserted-held q es e r (k + 1) x
              (sym (get_elem?-drop 1 (es ++ e ∷ []) k (k + 1) (omega arith)) ∙ h) λ _. omega arith);
      }

  room-Represents :
      length es ≢ q.capacity
      → Represents
          (record q {
            events = set q.events q.back (some e);
            back = (q.back + 1) % q.capacity;
            size = length es + 1;
          })
          (es ++ e ∷ [])
  room-Represents room =
      let n : length (es ++ e ∷ []) ≡ length es + 1 = omega (arith, length-append es (e ∷ [])) in
      record {
        positive = r.positive;
        room = length-set q.events q.back (some e) ∙ r.room;
        size = sym n;
        bounded = ground (arith, n, r.bounded, room);
        front = r.front;
        back = rw (r.back, n) (slot_next q.front (length es) q.capacity);
        held = λ k x h. inserted-held q es e r k x h (λ full. absurd (room full));
      }

  inserted-Represents : Represents inserted (keep_last q.capacity es e)
  inserted-Represents = elim (Bool-cases (length es == q.capacity)) [
    | inl full ↦ simp (r.size, full) (full-Represents (ground (arith, full)))
    | inr room ↦ simp (r.size, room) (room-Represents (λ full. ground (arith, room, full)))
  ]

-- The queue is a list of at most `capacity` events: `insert` puts an event behind the others, and in
-- a full queue drops the oldest.
pub insert_exact :
    (q : EventQueue) (es : List Event) (e : Event)
    → Represents q es
    → (q' : EventQueue) × (insert q e ≡ ok q') × Represents q' (keep_last q.capacity es e)
insert_exact q es e r = (inserted q es e r, insert-eq q es e r, inserted-Represents q es e r)
