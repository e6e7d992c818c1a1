-- ===== src/Store/Tests.antt =====
-- store/*.go: runs of a small history, and its theorems at these runs.
use etcd.Prelude.{
  zero, suc, get_elem?, ap, ◌%◌, ◌++◌, ℕ, ◌+◌, ◌-◌, ◌≤◌, ◌<◌, ◌≡◌, refl, ◌⊎◌, inr, true, false,
  none, some, List, [], ◌∷◌, drop, ok, arith,
}
use etcd.Prelude.Paths.{Text, clean}
use etcd.Store.Event.{Event, new_event, create_action, index}
use etcd.Store.History.{
  EventQueue, EventHistory, insert, add_event, new_event_history, scan, cleared, nothing, found,
  scanned, is_wanted,
}
use etcd.Store.History.Ring.{Represents, keep_last, insert_exact}
use etcd.Store.History.Growth.{Records, add_event_exact, new_event_history-Records}
use etcd.Store.History.Search.{first_match, scan_exact}

-- The path /a, the paths /a/b and /c below and beside it, and /x/.././a//b.
abbrev path_a : Text
path_a = b'/' ∷ b'a' ∷ []

abbrev path_ab : Text
path_ab = b'/' ∷ b'a' ∷ b'/' ∷ b'b' ∷ []

abbrev path_c : Text
path_c = b'/' ∷ b'c' ∷ []

abbrev unclean : Text
unclean = b'/' ∷ b'x' ∷ b'/' ∷ b'.' ∷ b'.' ∷ b'/' ∷ b'.' ∷ path_a ++ b'/' ∷ b'/' ∷ b'b' ∷ b'/' ∷ []

cleans : clean unclean ≡ path_ab
unfolding clean
cleans = refl

abbrev event : Text → ℕ → Event
event key i = record (new_event create_action key i i) { etcd_index = 0 }

-- A history of capacity 2 after three events.
abbrev full : EventHistory
full = record {
  queue = record {
    events = some (event path_c 3) ∷ some (event path_ab 2) ∷ [];
    size = 2;
    front = 1;
    back = 1;
    capacity = 2;
  };
  start_index = 2;
  last_index = 3;
}

abbrev two_events : List Event
two_events = event path_ab 2 ∷ event path_c 3 ∷ []

abbrev one_event : EventHistory
one_event = record {
  queue = record {
    events = some (event path_a 1) ∷ none ∷ [];
    size = 1;
    front = 0;
    back = 1;
    capacity = 2;
  };
  start_index = 1;
  last_index = 1;
}

adds_first : add_event (new_event_history 2) (event path_a 1) ≡ ok one_event
unfolding add_event new_event_history new_event
adds_first = refl

abbrev second : EventHistory
second = record {
  queue = record {
    events = some (event path_a 1) ∷ some (event path_ab 2) ∷ [];
    size = 2;
    front = 0;
    back = 0;
    capacity = 2;
  };
  start_index = 1;
  last_index = 2;
}

adds_second : add_event one_event (event path_ab 2) ≡ ok second
unfolding add_event new_event
adds_second = refl

-- The third event takes the slot of the first.
wraps : add_event second (event path_c 3) ≡ ok full
unfolding add_event new_event
wraps = refl

finds_below : scan full path_a true 2 ≡ some (ok (found (event path_ab 2)))
unfolding scan new_event
finds_below = refl

not_recursive : scan full path_a false 2 ≡ some (ok nothing)
unfolding scan new_event
not_recursive = refl

is_cleared : scan full path_a true 1 ≡ some (ok (cleared 2 1))
unfolding scan
is_cleared = refl

full-held :
    (k : ℕ) (e : Event)
    → get_elem? two_events k ≡ some e
    → get_elem? full.queue.events ((1 + k) % 2) ≡ some (some e)
full-held zero e h = ap some h
full-held (suc zero) e h = ap some h
full-held (suc (suc k)) e h = cc

full-counted : (k : ℕ) (e : Event) → get_elem? two_events k ≡ some e → index e ≡ 2 + k
unfolding new_event
full-counted zero e h = ground (arith, h)
full-counted (suc zero) e h = ground (arith, h)
full-counted (suc (suc k)) e h = cc

full-Records : Records full two_events
full-Records = record {
  ring = record {
    positive = omega arith;
    room = refl;
    size = refl;
    bounded = omega arith;
    front = omega arith;
    back = refl;
    held = full-held;
  };
  counted = full-counted;
  last = inr refl;
}

new_event_history-Records_example : Records (new_event_history 2) []
new_event_history-Records_example = new_event_history-Records 2 (omega arith)

insert_exact_example :
    (q : EventQueue) × (insert full.queue (event path_a 4) ≡ ok q)
    × Represents q (keep_last 2 two_events (event path_a 4))
insert_exact_example = insert_exact full.queue two_events (event path_a 4) full-Records.ring

add_event_exact_example :
    (h : EventHistory) × (add_event full (event path_a 4) ≡ ok h)
    × Records h (keep_last 2 two_events (event path_a 4))
unfolding new_event
add_event_exact_example = add_event_exact full two_events (event path_a 4) full-Records (inr refl)

scan_exact_example :
    (2 < 2) × (scan full path_a true 2 ≡ some (ok (cleared 2 2)))
    ⊎ ((3 < 2) × (scan full path_a true 2 ≡ some (ok nothing))
        ⊎ (2 ≤ 2)
          × (2 ≤ 3)
          × (scan full path_a true 2
              ≡ some
                  (ok (scanned (first_match (is_wanted path_a true) (drop (2 - 2) two_events))))))
scan_exact_example = scan_exact full two_events path_a true 2 full-Records (omega arith)
