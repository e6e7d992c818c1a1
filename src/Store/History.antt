-- ===== src/Store/History.antt =====
-- store/event_queue.go and store/event_history.go: the last events, in a ring. A uint64 index is a
-- natural number. The lock is not modelled: each operation is one step.
pub mod Ring
pub mod Growth
pub mod Search
use etcd.Prelude.{
  ℕ, zero, suc, ◌+◌, ◌-◌, ◌%◌, Bool, true, false, ◌&&◌, ◌||◌, Option, none, some, List, [], ◌∷◌,
  ◌++◌, ltb, ◌==◌, if◌then◌else◌, length, get_elem?, Result, ok, panic, Panic, ◌>>=◌,
}
use etcd.Prelude.Arrays.{set}
use etcd.Prelude.Paths.{Text, same_text, has_prefix, clean, ends_in_slash}
use etcd.Store.Event.{Event, index}

pub record EventQueue : Type 0 where
  pub events : List (Option Event)
  pub size : ℕ
  pub front : ℕ
  pub back : ℕ
  pub capacity : ℕ

unfoldable pub insert : EventQueue → Event → Result EventQueue
insert q e =
    let full = q.size == q.capacity in
    if ltb q.back (length q.events)
    then (if q.capacity == 0
        then panic Panic.divide_by_zero
        else ok (record q {
          events = set q.events q.back (some e);
          back = (q.back + 1) % q.capacity;
          front = if full then (q.front + 1) % q.capacity else q.front;
          size = if full then q.size else q.size + 1;
        }))
    else panic Panic.index_out_of_range

pub record EventHistory : Type 0 where
  pub queue : EventQueue
  pub start_index : ℕ
  pub last_index : ℕ

abbrev pub nil_events : ℕ → List (Option Event)
nil_events zero = []
nil_events (suc n) = none ∷ nil_events n

unfoldable pub new_event_history : ℕ → EventHistory
new_event_history capacity = record {
  queue = record {
    events = nil_events capacity;
    size = 0;
    front = 0;
    back = 0;
    capacity = capacity;
  };
  start_index = 0;
  last_index = 0;
}

-- The event that a slot of the ring holds.
abbrev pub event_at : EventQueue → ℕ → Result Event
event_at q i = elim (get_elem? q.events i) [
  | none ↦ panic Panic.index_out_of_range
  | some none ↦ panic Panic.nil_pointer
  | some (some e) ↦ ok e
]

unfoldable pub add_event : EventHistory → Event → Result EventHistory
unfolding insert
add_event h e = do
  q ← insert h.queue e
  first ← event_at q q.front
  ok (record { queue = q; start_index = index first; last_index = index e })

-- The test of `scan` on the key of an event.
unfoldable pub is_wanted : Text → Bool → Text → Bool
unfolding clean
is_wanted key recursive found =
    let folder = clean key in
    same_text found key
    || (recursive
        && has_prefix found (if ends_in_slash folder then folder else folder ++ b'/' ∷ []))

-- The loop of `scan` from slot `i`, on fuel; `none` is a loop that goes on.
unfoldable pub scan_loop : ℕ → EventQueue → (Text → Bool) → ℕ → Option (Result (Option Event))
scan_loop zero q wanted i = none
scan_loop (suc n) q wanted i =
    let next = (i + 1) % q.capacity in
    let rest = scan_loop n q wanted next in
    elim (event_at q i) [
      | panic p ↦ some (panic p)
      | ok e ↦
          if wanted e.node.key
          then some (ok (some e))
          else if next == q.back
          then some (ok none)
          else rest
    ]

-- What `scan` returns: the error EcodeEventIndexCleared, with the two indexes that its cause names,
-- no event, or an event.
pub data Scan : Type 0 where
  cleared : ℕ → ℕ → Scan
  nothing : Scan
  found : Event → Scan

abbrev pub scanned : Option Event → Scan
scanned none = nothing
scanned (some e) = found e

unfoldable pub scan : EventHistory → Text → Bool → ℕ → Option (Result Scan)
unfolding is_wanted scan_loop
scan h key recursive i =
    let q = h.queue in
    if ltb i h.start_index
    then some (ok (cleared h.start_index i))
    else if ltb h.last_index i
    then some (ok nothing)
    else if q.capacity == 0
    then some (panic Panic.divide_by_zero)
    else elim (scan_loop q.capacity q (is_wanted key recursive)
        ((q.front + (i - h.start_index)) % q.capacity)) [
          | none ↦ none
          | some (panic p) ↦ some (panic p)
          | some (ok e) ↦ some (ok (scanned e))
        ]

-- `clone`: values share nothing.
unfoldable pub clone : EventHistory → EventHistory
clone h = record {
  queue = record {
    capacity = h.queue.capacity;
    events = h.queue.events;
    size = h.queue.size;
    front = h.queue.front;
    back = h.queue.back;
  };
  start_index = h.start_index;
  last_index = h.last_index;
}
