-- ===== src/Store/Delete.antt =====
-- store/store.go: the operations that take nodes out of the tree, Delete, CompareAndDelete and
-- DeleteExpiredKeys.
pub mod Laws
pub mod Exact
use etcd.Prelude.{
  ℕ, zero, suc, ◌+◌, not, ◌||◌, Bool, true, false, ltb, Option, none, some, if◌then◌else◌, Result,
  ok, panic, Panic, ◌>>=◌,
}
use etcd.Prelude.Paths.{Text}
use etcd.EtcdError.{Outcome, failed, new_error, ecode_not_file, ecode_test_failed}
use etcd.Store.Event.{
  NodeExtern, Event, new_event, delete_action, compare_and_delete_action, expire_action,
}
use etcd.Store.Node.{Node, fields, is_dir, compare}
use etcd.Store.Node.Show.{repr}
use etcd.Store.Stats.{
  Field, delete_success, delete_fail, compare_and_delete_success, compare_and_delete_fail,
  compare_and_swap_fail, expire_count,
}
use etcd.Store.TtlHeap
use etcd.Store.TtlHeap.{Item, len}
use etcd.Store.Watchers.{notify_watchers}
use etcd.Store.State.{announce, below_root, Place, with_place, Store, count, node_at, full_path}
use etcd.Store.State.Remove.{remove, Callback}
use etcd.Store.Swap.{get_compare_fail_cause}

-- The function that `Remove` calls with each path that it removes.
abbrev pub tell_deleted : Event → Callback
tell_deleted e = some λ path. notify_watchers e path true

-- `Delete` of a node that is there.
unfoldable pub delete_place :
    ℕ → Text → Bool → Bool → Store → Place → Result (Store × Outcome Event)
unfolding count new_event repr remove announce notify_watchers
delete_place now node_path may_be_dir recursive s place =
    let n = place.node in
    let next = s.current_index + 1 in
    let e = new_event delete_action node_path next (fields n).created_index in
    (do
      prev ← repr now false false n
      let event : Event = record e {
        etcd_index = next;
        prev_node = some prev;
        node = record e.node { shown = record e.node.shown { dir = is_dir n } };
      }
      (removed, error) ← remove place may_be_dir recursive (tell_deleted event) s
      elim error [
        | some err ↦ ok (count delete_fail removed, failed err)
        | none ↦ announce delete_success event (record removed { current_index = next })
      ])

unfoldable pub delete : ℕ → Text → Bool → Bool → Store → Result (Store × Outcome Event)
unfolding below_root with_place delete_place
delete now given given_dir recursive s =
    let node_path = full_path given in
    below_root node_path s (
      with_place delete_fail node_path s
        (delete_place now node_path (recursive || given_dir) recursive s))

-- `CompareAndDelete` once the two tests have succeeded.
unfoldable pub delete_value : ℕ → Text → Store → Place → Result (Store × Outcome Event)
unfolding count new_event repr remove announce notify_watchers
delete_value now node_path s place =
    let n = place.node in
    let next = s.current_index + 1 in
    let e = new_event compare_and_delete_action node_path next (fields n).created_index in
    (do
      prev ← repr now false false n
      let event : Event = record e { etcd_index = next; prev_node = some prev }
      (removed, ignored) ←
          remove place false false (tell_deleted event) (record s { current_index = next })
      announce compare_and_delete_success event removed)

-- The tests of `CompareAndDelete` on a node that is there. The failure on a directory is counted as
-- one of CompareAndSwap.
unfoldable pub delete_tests : ℕ → Text → Text → ℕ → Store → Place → Result (Store × Outcome Event)
unfolding new_error compare get_compare_fail_cause count delete_value
delete_tests now node_path prev_value prev_index s place =
    let n = place.node in
    let (matches, which) = compare prev_value prev_index n in
    let cause = get_compare_fail_cause n which prev_value prev_index in
    let fail : Field → ℕ → Text → Result (Store × Outcome Event) =
      λ field code why. ok (count field s, failed (new_error code why s.current_index)) in
    if is_dir n
    then fail compare_and_swap_fail ecode_not_file node_path
    else if not matches
    then fail compare_and_delete_fail ecode_test_failed cause
    else delete_value now node_path s place

-- There is no guard of the root: it is a directory.
unfoldable pub compare_and_delete : ℕ → Text → Text → ℕ → Store → Result (Store × Outcome Event)
unfolding with_place delete_tests
compare_and_delete now given prev_value prev_index s =
    let node_path = full_path given in
    with_place compare_and_delete_fail node_path s
      (delete_tests now node_path prev_value prev_index s)

abbrev pub expire_event : ℕ → Node → NodeExtern → Event
expire_event next n prev =
    let f = fields n in
    record (new_event expire_action f.path next f.created_index) {
      etcd_index = next;
      prev_node = some prev;
    }

-- The node at the top of the heap leaves the heap and the tree.
unfoldable pub expire_node : Item → Node → Event → Store → Result Store
unfolding TtlHeap.pop remove announce notify_watchers
expire_node item n e s = do
  (popped, taken) ← TtlHeap.pop s.ttl_key_heap
  (removed, ignored) ←
      remove (record { at = item.at; node = n }) true true (tell_deleted e)
        (record s { current_index = s.current_index + 1; ttl_key_heap = popped })
  (told, event) ← announce expire_count e removed
  ok told

unfoldable pub fetch : Item → Store → Result Node
unfolding node_at
fetch item s = elim (node_at item.at s.root) [ none ↦ panic Panic.nil_pointer | some n ↦ ok n ]

-- One round of the loop of `DeleteExpiredKeys`, for the node at the top of the heap.
unfoldable pub expire : ℕ → Item → Store → Result Store
unfolding fetch new_event repr expire_node
expire now item s = do
  n ← fetch item s
  prev ← repr now false false n
  expire_node item n (expire_event (s.current_index + 1) n prev) s

-- The loop, on fuel; `none` is a loop that goes on.
unfoldable pub expire_loop : ℕ → ℕ → ℕ → Store → Option (Result Store)
unfolding TtlHeap.top expire
expire_loop zero now cutoff s = none
expire_loop (suc fuel) now cutoff s = elim (TtlHeap.top s.ttl_key_heap) [
  | none ↦ some (ok s)
  | some item ↦
      let rest : Option (Result Store) = elim (expire now item s) [
        | panic p ↦ some (panic p)
        | ok next ↦ expire_loop fuel now cutoff next
      ] in
      if ltb cutoff item.expire_time then some (ok s) else rest
]

-- Each round takes a node from the heap.
unfoldable pub delete_expired_keys : ℕ → ℕ → Store → Option (Result Store)
unfolding expire_loop
delete_expired_keys now cutoff s = expire_loop (suc (len s.ttl_key_heap)) now cutoff s
