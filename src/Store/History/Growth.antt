-- ===== src/Store/History/Growth.antt =====
-- store/event_history.go: `addEvent` and the indexes of the first and the last event.
use etcd.Prelude.{
  ℕ, zero, suc, ◌+◌, ◌%◌, ◌≤◌, ◌≡◌, refl, ◌∙◌, sym, inl, inr, ◌⊎◌, some, List, [], ◌∷◌, ◌++◌, arith,
  ◌==◌, if◌then◌else◌, length, get_elem?, get_elem?-lt, get_elem?-ge, length-append, length-drop,
  get_elem?-drop, drop, ok, Bool-cases, ap,
}
use native.Mathlib.Nat.{mod-eq_of_lt, zero-mod}
use etcd.Store.Event.{Event, index}
use etcd.Store.History.{
  EventQueue, EventHistory, event_at, add_event, new_event_history, nil_events,
}
use etcd.Store.History.Ring.{Represents, keep_last, insert_exact, appended_cases}

-- The history holds these events; their indexes are consecutive, from the first index to the last.
pub record Records (h : EventHistory) (es : List Event) : Type 0 where
  pub ring : Represents h.queue es
  pub counted : (k : ℕ) (e : Event) → get_elem? es k ≡ some e → index e ≡ h.start_index + k
  pub last : (length es ≡ 0) ⊎ (h.last_index + 1 ≡ h.start_index + length es)

-- The indexes of a list count up from `base`.
abbrev CountsFrom : ℕ → List Event → Type 0
CountsFrom base es = (k : ℕ) (e : Event) → get_elem? es k ≡ some e → index e ≡ base + k

appended-CountsFrom :
    (base : ℕ) (es : List Event) (e : Event)
    → CountsFrom base es
    → index e ≡ base + length es
    → CountsFrom base (es ++ e ∷ [])
appended-CountsFrom base es e c h k x g = elim (appended_cases es e x k g) [
  | inl (low, old) ↦ c k x old
  | inr (last, new) ↦ ap index (sym new) ∙ h ∙ omega (arith, last)
]

dropped-CountsFrom :
    (base : ℕ) (es : List Event) → CountsFrom base es → CountsFrom (base + 1) (drop 1 es)
dropped-CountsFrom base es c k x g =
    c (k + 1) x (sym (get_elem?-drop 1 es k (k + 1) (omega arith)) ∙ g) ∙ omega arith

kept-CountsFrom :
    (c base : ℕ) (es : List Event) (e : Event)
    → CountsFrom base (es ++ e ∷ [])
    → CountsFrom (if length es == c then base + 1 else base) (keep_last c es e)
kept-CountsFrom c base es e h = elim (Bool-cases (length es == c)) [
  | inl full ↦ rw full (dropped-CountsFrom base (es ++ e ∷ []) h)
  | inr room ↦ rw room h
]

length-keep_last :
    (c : ℕ) (es : List Event) (e : Event)
    → length (keep_last c es e) ≡ (if length es == c then length es else length es + 1)
length-keep_last c es e = ground (arith, length-append es (e ∷ []), length-drop 1 (es ++ e ∷ []))

pub event_at-eq :
    (q : EventQueue) (i : ℕ) (e : Event)
    → get_elem? q.events i ≡ some (some e)
    → event_at q i ≡ ok e
event_at-eq q i e h = ground (arith, h)

-- The oldest event of a queue that is not empty.
oldest :
    (q : EventQueue) (es : List Event)
    → Represents q es
    → 1 ≤ length es
    → (e : Event) × (get_elem? es 0 ≡ some e) × (event_at q q.front ≡ ok e)
oldest q es r h =
    let (e, g) = get_elem?-lt es 0 (omega arith) in
    let here : (q.front + 0) % q.capacity ≡ q.front =
      ap (λ i. i % q.capacity) (omega arith) ∙ mod-eq_of_lt r.front in
    let slot : get_elem? q.events q.front ≡ some (some e) =
      ap (get_elem? q.events) (sym here) ∙ r.held 0 e g in
    (e, g, event_at-eq q q.front e slot)

-- Where the list with the new event counts from.
base_of :
    (h : EventHistory) (es : List Event) (e : Event)
    → Records h es
    → (length es ≡ 0) ⊎ (index e ≡ h.last_index + 1)
    → (b : ℕ) × CountsFrom b (es ++ e ∷ []) × (index e ≡ b + length es)
base_of h es e r next = elim r.last [
  | inl z ↦ first z
  | inr l ↦ elim next [
    | inl z ↦ first z
    | inr s ↦
        let eq : index e ≡ h.start_index + length es = omega arith in
        (h.start_index, appended-CountsFrom h.start_index es e r.counted eq, eq)
  ]
]
  where
    first : length es ≡ 0 → (b : ℕ) × CountsFrom b (es ++ e ∷ []) × (index e ≡ b + length es)
    first z =
        let eq : index e ≡ index e + length es = omega arith in
        (
          index e,
          appended-CountsFrom (index e) es e
              (λ k x g. let out = get_elem?-ge es k (omega arith) in cc (out, g)) eq,
          eq,
        )

grown-Records :
    (h h' : EventHistory) (es : List Event) (e first : Event) (b : ℕ)
    → CountsFrom b (es ++ e ∷ [])
    → index e ≡ b + length es
    → Represents h'.queue (keep_last h.queue.capacity es e)
    → get_elem? (keep_last h.queue.capacity es e) 0 ≡ some first
    → h'.start_index ≡ index first
    → h'.last_index ≡ index e
    → Records h' (keep_last h.queue.capacity es e)
grown-Records h h' es e first b counts eq ring at_0 start last =
    let c = h.queue.capacity in
    let base : h'.start_index ≡ (if length es == c then b + 1 else b) =
      start ∙ kept-CountsFrom c b es e counts 0 first at_0 ∙ omega arith in
    record {
      ring = ring;
      counted = λ k x g. kept-CountsFrom c b es e counts k x g ∙ ap (λ n. n + k) (sym base);
      last = inr (ground (arith, base, last, eq, length-keep_last c es e));
    }

-- Adding the event with the next index, or any first event, never panics, and the history then has
-- the last events up to its capacity, with the indexes of the first and the last of them.
pub add_event_exact :
    (h : EventHistory) (es : List Event) (e : Event)
    → Records h es
    → (length es ≡ 0) ⊎ (index e ≡ h.last_index + 1)
    → (h' : EventHistory) × (add_event h e ≡ ok h') × Records h' (keep_last h.queue.capacity es e)
add_event_exact h es e r next =
    let c = h.queue.capacity in
    let (q, inserts, ring) = insert_exact h.queue es e r.ring in
    let some_event : 1 ≤ length (keep_last c es e) =
      ground (arith, length-keep_last c es e, r.ring.positive) in
    let (first, at_0, reads) = oldest q (keep_last c es e) ring some_event in
    let (b, counts, eq) = base_of h es e r next in
    let h' : EventHistory = record { queue = q; start_index = index first; last_index = index e } in
    (
      h',
      unfold add_event in simp (inserts, reads) refl,
      grown-Records h h' es e first b counts eq ring at_0 refl refl,
    )

length-nil_events : (n : ℕ) → length (nil_events n) ≡ n
length-nil_events zero = refl
length-nil_events (suc n) = omega (arith, length-nil_events n)

-- A new history of positive capacity is empty.
pub new_event_history-Records : (c : ℕ) → 1 ≤ c → Records (new_event_history c) []
unfolding new_event_history
new_event_history-Records c h = record {
  ring = record {
    positive = h;
    room = length-nil_events c;
    size = refl;
    bounded = omega arith;
    front = h;
    back = sym (zero-mod c);
    held = λ k e g. cc;
  };
  counted = λ k e g. cc;
  last = inl refl;
}
