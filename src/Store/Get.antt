-- ===== src/Store/Get.antt =====
-- store/store.go: the operations that read, Get and the two counters that the server shows.

pub mod Reads
use etcd.Prelude.{ℕ, suc, ◌-◌, ◌^◌, ◌%◌, Bool, Result, ok, ◌>>=◌}
use etcd.Prelude.Int.{ℤ, pos, negsuc}
use etcd.Prelude.Paths.{Text}
use etcd.EtcdError.{Outcome, failed, returned}
use etcd.Store.Event.{Event, new_event, get_action}
use etcd.Store.Node.{fields}
use etcd.Store.Node.Show.{load_internal_node}
use etcd.Store.Stats.{Stats, get_success, get_fail, total_transactions}
use etcd.Store.State.{Store, Place, count, full_path, internal_get}

-- `newEvent(Get, ...)` with the node loaded.
abbrev pub get_event : ℕ → Text → Place → Bool → Bool → Result Event
get_event now node_path place recursive sorted =
    let f = fields place.node in
    let e = new_event get_action node_path f.modified_index f.created_index in
    (do
      shown ← load_internal_node now e.node place.node recursive sorted
      ok (record e { node = shown }))

unfoldable pub get : ℕ → Text → Bool → Bool → Store → Result (Store × Outcome Event)
unfolding new_event load_internal_node internal_get count
get now node_path recursive sorted s = do
  let clean_path = full_path node_path
  reached ← internal_get s clean_path
  elim reached [
    | failed err ↦ ok (count get_fail s, failed err)
    | returned place ↦ (do
      e ← get_event now clean_path place recursive sorted
      ok (count get_success s, returned (record e { etcd_index = s.current_index })))
  ]

-- `uint64(n)` of an int64.
abbrev as_uint64 : ℤ → ℕ
as_uint64 (pos n) = n % 2 ^ 64
as_uint64 (negsuc n) = 2 ^ 64 - suc (n % 2 ^ 64)

-- `JsonStats`, whose result is written as JSON.
unfoldable pub json_stats : Store → Store × Stats
json_stats s =
    let stats = record s.stats { watchers = as_uint64 s.watcher_hub.count } in
    (record s { stats = stats }, stats)

abbrev pub store_transactions : Store → ℕ
store_transactions s = total_transactions s.stats
