-- ===== src/Store/History/Search.antt =====
-- store/event_history.go: `scan` against a search of the list of events.
use etcd.Prelude.{
  ltb→lt, ltb→ge, ℕ, zero, suc, ◌+◌, ◌-◌, ◌%◌, ◌≤◌, ◌<◌, ◌≡◌, refl, ◌∙◌, ap, inl, inr, ◌⊎◌, Bool,
  false, Option, none, some, List, [], ◌∷◌, arith, ltb, ◌==◌, if◌then◌else◌, length, get_elem?,
  get_elem?-lt, drop, ok, Bool-cases,
}
use etcd.Prelude.Paths.{Text}
use etcd.Store.Event.{Event}
use etcd.Store.History.{
  EventQueue, EventHistory, event_at, is_wanted, scan_loop, scan, cleared, nothing, scanned,
}
use etcd.Store.History.Ring.{Represents, slot_wrap, slot_next}
use etcd.Store.History.Growth.{Records, event_at-eq}

-- The first event of a list whose key is wanted.
abbrev pub first_match : (Text → Bool) → List Event → Option Event
first_match wanted [] = none
first_match wanted (e ∷ es) = if wanted e.node.key then some e else first_match wanted es

drop_step :
    (es : List Event) (k : ℕ) (e : Event)
    → get_elem? es k ≡ some e
    → drop k es ≡ e ∷ drop (suc k) es
drop_step [] k e h = cc
drop_step (x ∷ es) zero e h = ground (arith, h)
drop_step (x ∷ es) (suc k) e h = drop_step es k e h

-- The slot after the k-th event is the back of the queue just when that event is the last one.
back_after :
    (q : EventQueue) (es : List Event) (k : ℕ)
    → Represents q es
    → k < length es
    → (((q.front + k) % q.capacity + 1) % q.capacity == q.back) ≡ (k + 1 == length es)
back_after q es k r h =
    rw
      (
        r.back,
        slot_next q.front k q.capacity,
        slot_wrap q.front (k + 1) q.capacity r.front (omega (arith, r.bounded)),
        slot_wrap q.front (length es) q.capacity r.front r.bounded,
      )
      (ground (arith, r.front, r.bounded))

scan_step :
    (n : ℕ) (q : EventQueue) (wanted : Text → Bool) (i : ℕ) (e : Event)
    → event_at q i ≡ ok e
    → scan_loop (suc n) q wanted i ≡ (
        if wanted e.node.key
        then some (ok (some e))
        else if (i + 1) % q.capacity == q.back
        then some (ok none)
        else scan_loop n q wanted ((i + 1) % q.capacity))
unfolding scan_loop
scan_step n q wanted i e h = ground (arith, h)

drop_end : (es : List Event) (k : ℕ) → length es ≤ k → drop k es ≡ []
drop_end [] zero h = refl
drop_end [] (suc k) h = refl
drop_end (x ∷ es) zero h = absurd (omega arith)
drop_end (x ∷ es) (suc k) h = drop_end es k (omega arith)

-- With as much fuel as there are events left, the loop ends, and finds the first that is wanted.
scan_loop-eq :
    (n k : ℕ) (q : EventQueue) (es : List Event) (wanted : Text → Bool)
    → Represents q es
    → k < length es
    → length es ≤ k + n
    → scan_loop n q wanted ((q.front + k) % q.capacity) ≡ some (ok (first_match wanted (drop k es)))
scan_loop-eq zero k q es wanted r h g = absurd (omega arith)
scan_loop-eq (suc n) k q es wanted r h g =
    let (e, at_k) = get_elem?-lt es k h in
    let slot = (q.front + k) % q.capacity in
    let step = scan_step n q wanted slot e (event_at-eq q slot e (r.held k e at_k)) in
    step
    ∙ rw (drop_step es k e at_k) (elim (Bool-cases (wanted e.node.key)) [
      | inl hit ↦ rw hit refl
      | inr miss ↦ elim (Bool-cases (k + 1 == length es)) [
        | inl last ↦
            rw (miss, back_after q es k r h, last, drop_end es (suc k) (ground (arith, last))) refl
        | inr more ↦
            let next : (slot + 1) % q.capacity ≡ (q.front + suc k) % q.capacity =
              slot_next q.front k q.capacity ∙ ap (λ j. (q.front + j) % q.capacity) (omega arith) in
            rw (miss, back_after q es k r h, more)
              (ap (scan_loop n q wanted) next
                ∙ scan_loop-eq n (suc k) q es wanted r (ground (arith, more, h)) (omega arith))
      ]
    ])

-- A scan of a history that is not empty. Below the first index it fails, the history being cleared;
-- above the last index it finds nothing yet. Between them its loop ends, and it finds the first of
-- the events from that index on whose key is wanted, or nothing when there is none.
pub scan_exact :
    (h : EventHistory) (es : List Event) (key : Text) (recursive : Bool) (i : ℕ)
    → Records h es
    → 1 ≤ length es
    → (i < h.start_index) × (scan h key recursive i ≡ some (ok (cleared h.start_index i)))
      ⊎ ((h.last_index < i) × (scan h key recursive i ≡ some (ok nothing))
          ⊎ (h.start_index ≤ i)
            × (i ≤ h.last_index)
            × (scan h key recursive i
                ≡ some (
                    ok (
                      scanned
                        (first_match (is_wanted key recursive) (drop (i - h.start_index) es))))))
scan_exact h es key recursive i r some_events = elim (Bool-cases (ltb i h.start_index)) [
  | inl low ↦ inl (ltb→lt i h.start_index low, unfold scan in rw low refl)
  | inr not_low ↦ elim (Bool-cases (ltb h.last_index i)) [
    | inl high ↦ inr (inl (ltb→lt h.last_index i high, unfold scan in rw (not_low, high) refl))
    | inr within ↦
        let above = ltb→ge i h.start_index not_low in
        let below = ltb→ge h.last_index i within in
        let q = h.queue in
        let k = i - h.start_index in
        let inside : k < length es = elim r.last [
          | inl z ↦ absurd (omega arith)
          | inr l ↦ omega arith
        ] in
        let loop =
          scan_loop-eq q.capacity k q es (is_wanted key recursive) r.ring inside
            (omega (arith, r.ring.bounded)) in
        let has_room : (q.capacity == 0) ≡ false = ground (arith, r.ring.positive) in
        inr (inr (above, below, unfold scan in rw (not_low, within, has_room, loop) refl))
  ]
]
