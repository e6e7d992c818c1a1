-- ===== src/Store/Watchers.antt =====
-- store/watcher.go and store/watcher_hub.go: the watchers and the hub that notifies them. A list of
-- watchers is an object that the map of the hub and the watchers' `remove` share, so lists stand in
-- a table by number, and so do the watchers. The mutex makes each operation one step. The events
-- are values: that `watch` writes the index of the store into the event that it found in the
-- history is not seen by others who hold this event.
pub mod Twice
use etcd.Prelude.{
  ℕ, ◌==◌, leb, ltb, Bool, true, false, not, ◌&&◌, ◌||◌, Option, none, some, List, [], ◌∷◌,
  if◌then◌else◌, length, get_elem?, drop, Result, ok, panic, Panic, ◌>>=◌,
}
use etcd.Prelude.Arrays.{set}
use etcd.Prelude.Int.{ℤ, pos, decrement}
use etcd.Prelude.Paths.{Text, same_text, split, clean}
use etcd.Prelude.Names.{join, contains, lookup, delete}
use etcd.Store.Event.{Event, index}
use etcd.Store.History.{
  EventHistory, add_event, scan, Scan, cleared, nothing, found, new_event_history,
}
use etcd.Store.History

-- `event_chan` is what the channel of one event buffers; `entry` is what the function `remove` of a
-- watcher has captured, the key and the list, and none where it is nil.
pub record Watcher : Type 0 where
  pub event_chan : Option Event
  pub closed : Bool
  pub stream : Bool
  pub recursive : Bool
  pub since_index : ℕ
  pub removed : Bool
  pub entry : Option (Text × ℕ)

-- `watchers` leads from a key to the number of its list in `lists`; `table` has every watcher.
pub record WatcherHub : Type 0 where
  pub watchers : List (Text × ℕ)
  pub lists : List (List ℕ)
  pub table : List Watcher
  pub count : ℤ
  pub event_history : EventHistory

unfoldable pub new_watch_hub : ℕ → WatcherHub
unfolding new_event_history
new_watch_hub capacity = record {
  watchers = [];
  lists = [];
  table = [];
  count = pos 0;
  event_history = new_event_history capacity;
}

abbrev pub at_number {ℓ} : {A : Type ℓ} → List A → ℕ → Result A
at_number xs i = elim (get_elem? xs i) [ none ↦ panic Panic.nil_pointer | some x ↦ ok x ]

abbrev pub without : ℕ → List ℕ → List ℕ
without i [] = []
without i (j ∷ js) = let others = without i js in if j == i then others else j ∷ others

-- `l.Remove(elem)` does nothing where the element is not in the list.
unfoldable pub remove_element : ℕ → ℕ → WatcherHub → Result WatcherHub
remove_element l i wh = do
  ids ← at_number wh.lists l
  ok (record wh { lists = set wh.lists l (without i ids) })

-- The key leaves the map, whichever list it now has, if the list `l` is empty.
unfoldable pub forget_empty : Text → ℕ → WatcherHub → Result WatcherHub
unfolding delete
forget_empty key l wh = do
  ids ← at_number wh.lists l
  ok (if length ids == 0 then record wh { watchers = delete same_text key wh.watchers } else wh)

-- The function `remove` of a watcher: nothing the second time.
unfoldable pub run_remove : ℕ → WatcherHub → Result WatcherHub
run_remove i wh = do
  w ← at_number wh.table i
  elim w.entry [
    | none ↦ panic Panic.nil_pointer
    | some (key, l) ↦ if w.removed then ok wh else (do
      kept ← remove_element l i (record wh { table = set wh.table i (record w { removed = true }) })
      forget_empty key l (record kept { count = decrement kept.count }))
  ]

-- `watcher.Remove`, called by the client. To close a channel twice panics.
unfoldable pub remove_watcher : ℕ → WatcherHub → Result WatcherHub
unfolding run_remove
remove_watcher i wh = do
  w ← at_number wh.table i
  if w.closed then panic Panic.closed_channel else (do
    let shut = record wh { table = set wh.table i (record w { closed = true }) }
    elim w.entry [ none ↦ ok shut | some at ↦ run_remove i shut ])

-- `watcher.notify`: whether the event is of interest; it is sent, or the watcher is removed where
-- its channel is full.
unfoldable pub notify_watcher : Event → ℕ → Bool → Bool → WatcherHub → Result (Bool × WatcherHub)
unfolding run_remove
notify_watcher e i original_path deleted wh = do
  w ← at_number wh.table i
  if (w.recursive || original_path || deleted) && leb w.since_index (index e)
      then (if w.closed then panic Panic.closed_channel else elim w.event_chan [
        | none ↦ ok (true, record wh { table = set wh.table i (record w { event_chan = some e }) })
        | some full ↦ (do gone ← run_remove i wh; ok (true, gone))
      ])
      else ok (false, wh)

-- Whether the path below the watched one has a hidden name; `Clean` is of a slash and the rest.
unfoldable pub is_hidden_below : Text → Text → Bool
unfolding clean
is_hidden_below watch_path key_path =
    if ltb (length key_path) (length watch_path)
    then false
    else contains (clean (b'/' ∷ drop (length watch_path) key_path)) (b'/' ∷ b'_' ∷ [])

-- The loop of `notifyWatchers` over the list as it was: only the current element can leave it.
unfoldable pub notify_loop : Event → Text → Bool → ℕ → List ℕ → WatcherHub → Result WatcherHub
unfolding notify_watcher is_hidden_below remove_element
notify_loop e node_path deleted l [] wh = ok wh
notify_loop e node_path deleted l (i ∷ ids) wh = do
  w ← at_number wh.table i
  let original_path = same_text e.node.key node_path
  (sent, told) ←
      if original_path || not (is_hidden_below node_path e.node.key)
      then notify_watcher e i original_path deleted wh
      else ok (false, wh)
  next ←
      if sent && not w.stream
      then (do out ← remove_element l i told; ok (record out { count = decrement out.count }))
      else ok told
  notify_loop e node_path deleted l ids next

unfoldable pub notify_watchers : Event → Text → Bool → WatcherHub → Result WatcherHub
unfolding lookup notify_loop forget_empty
notify_watchers e node_path deleted wh = elim (lookup same_text node_path wh.watchers) [
  | none ↦ ok wh
  | some l ↦ (do
    ids ← at_number wh.lists l
    told ← notify_loop e node_path deleted l ids wh
    forget_empty node_path l told)
]

unfoldable pub notify_paths : Event → Text → List Text → WatcherHub → Result WatcherHub
unfolding join notify_watchers
notify_paths e curr_path [] wh = ok wh
notify_paths e curr_path (segment ∷ segments) wh = do
  let here = join curr_path segment
  told ← notify_watchers e here false wh
  notify_paths e here segments told

unfoldable pub notify : Event → WatcherHub → Result WatcherHub
unfolding add_event notify_paths
notify e wh = do
  h ← add_event wh.event_history e
  notify_paths e (b'/' ∷ []) (split e.node.key) (record wh { event_history = h })

unfoldable pub clone : WatcherHub → WatcherHub
unfolding History.clone
clone wh = record {
  watchers = [];
  lists = [];
  table = [];
  count = pos 0;
  event_history = History.clone wh.event_history;
}
