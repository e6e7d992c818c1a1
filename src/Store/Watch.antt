-- ===== src/Store/Watch.antt =====
-- store/watcher_hub.go and store/store.go: a new watcher, which takes an event of the history at once
-- or waits in the list of its key.
use etcd.Prelude.{
  ℕ, ◌+◌, ◌==◌, Bool, false, Option, none, some, [], ◌∷◌, ◌++◌, length, if◌then◌else◌, Result, ok,
  panic, ◌>>=◌,
}
use etcd.Prelude.Arrays.{set}
use etcd.Prelude.Int.{increment}
use etcd.Prelude.Paths.{Text, same_text}
use etcd.Prelude.Names.{decimal, lookup, insert}
use etcd.EtcdError.{Outcome, failed, returned, new_error, ecode_event_index_cleared}
use etcd.Store.History.{scan, cleared, nothing, found}
use etcd.Store.Watchers.{Watcher, WatcherHub, at_number}
use etcd.Store.State.{Store, full_path}

-- "the requested history has been cleared [a/b]"
abbrev cleared_cause : ℕ → ℕ → Text
cleared_cause start i =
    b't'
      ∷ b'h'
      ∷ b'e'
      ∷ b' '
      ∷ b'r'
      ∷ b'e'
      ∷ b'q'
      ∷ b'u'
      ∷ b'e'
      ∷ b's'
      ∷ b't'
      ∷ b'e'
      ∷ b'd'
      ∷ b' '
      ∷ b'h'
      ∷ b'i'
      ∷ b's'
      ∷ b't'
      ∷ b'o'
      ∷ b'r'
      ∷ b'y'
      ∷ b' '
      ∷ b'h'
      ∷ b'a'
      ∷ b's'
      ∷ b' '
      ∷ b'b'
      ∷ b'e'
      ∷ b'e'
      ∷ b'n'
      ∷ b' '
      ∷ b'c'
      ∷ b'l'
      ∷ b'e'
      ∷ b'a'
      ∷ b'r'
      ∷ b'e'
      ∷ b'd'
      ∷ b' '
      ∷ b'['
      ∷ decimal start
    ++ b'/' ∷ decimal i
    ++ b']' ∷ []

abbrev new_watcher : Bool → Bool → ℕ → Watcher
new_watcher recursive stream i = record {
  event_chan = none;
  closed = false;
  stream = stream;
  recursive = recursive;
  since_index = i;
  removed = false;
  entry = none;
}

-- The watcher enters the list of its key, or a new list.
unfoldable pub enlist : Text → Watcher → WatcherHub → Result WatcherHub
unfolding lookup insert
enlist key w wh =
    let i = length wh.table in
    elim (lookup same_text key wh.watchers) [
      | some l ↦ (do
        ids ← at_number wh.lists l
        ok (record wh {
          lists = set wh.lists l (ids ++ i ∷ []);
          table = wh.table ++ record w { entry = some (key, l) } ∷ [];
          count = increment wh.count;
        }))
      | none ↦
          let l = length wh.lists in
          ok (record wh {
            lists = wh.lists ++ (i ∷ []) ∷ [];
            watchers = insert same_text key l wh.watchers;
            table = wh.table ++ record w { entry = some (key, l) } ∷ [];
            count = increment wh.count;
          })
    ]

-- The number of the watcher comes back. `none` is a scan that goes on.
unfoldable pub watch :
    Text → Bool → Bool → ℕ → ℕ → WatcherHub → Option (Result (WatcherHub × Outcome ℕ))
unfolding scan decimal new_error enlist
watch key recursive stream i store_index wh =
    let w = new_watcher recursive stream i in
    let number = length wh.table in
    elim (scan wh.event_history key recursive i) [
      | none ↦ none
      | some (panic p) ↦ some (panic p)
      | some (ok (cleared start wanted)) ↦ some (
          ok (
            wh,
            failed (new_error ecode_event_index_cleared (cleared_cause start wanted) store_index),
          ))
      | some (ok (found e)) ↦
          let sent = record w { event_chan = some (record e { etcd_index = store_index }) } in
          some (ok (record wh { table = wh.table ++ sent ∷ [] }, returned number))
      | some (ok nothing) ↦ some (do entered ← enlist key w wh; ok (entered, returned number))
    ]

-- The method of the store.
unfoldable pub watch_store : Text → Bool → Bool → ℕ → Store → Option (Result (Store × Outcome ℕ))
unfolding watch
watch_store given recursive stream since_index s =
    let i = if since_index == 0 then s.current_index + 1 else since_index in
    elim (watch (full_path given) recursive stream i s.current_index s.watcher_hub) [
      | none ↦ none
      | some (panic p) ↦ some (panic p)
      | some (ok (wh, w)) ↦ some (ok (record s { watcher_hub = wh }, w))
    ]
