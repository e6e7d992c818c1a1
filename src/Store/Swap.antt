-- ===== src/Store/Swap.antt =====
-- store/store.go: the operations that write a node that is there, Update and CompareAndSwap.

pub mod Write
pub mod Laws
pub mod Updates
use etcd.Prelude.{
  Bool, ℕ, ◌+◌, ◌==◌, not, ◌&&◌, false, none, some, [], ◌∷◌, ◌++◌, length, if◌then◌else◌, Result,
  ok, ◌>>=◌,
}
use etcd.Prelude.Paths.{Text}
use etcd.Prelude.Names.{decimal}
use etcd.EtcdError.{Outcome, failed, returned, new_error, ecode_not_file, ecode_test_failed}
use etcd.Store.Event.{NodeExtern, Event, new_event, update_action, compare_and_swap_action}
use etcd.Store.Node.{
  Node, fields, is_dir, write, compare, expiration_and_ttl, compare_index_not_match,
  compare_value_not_match,
}
use etcd.Store.Node.Show.{repr}
use etcd.Store.Stats.{update_success, update_fail, compare_and_swap_success, compare_and_swap_fail}
use etcd.Store.State.{announce, with_place, below_root, Store, Place, count, put_at, full_path}
use etcd.Store.State.Remove.{update_ttl}

-- "[a != b]".
abbrev differ : Text → Text → Text
differ a b = b'[' ∷ a ++ b' ' ∷ b'!' ∷ b'=' ∷ b' ' ∷ b ++ b']' ∷ []

unfoldable pub get_compare_fail_cause : Node → ℕ → Text → ℕ → Text
unfolding decimal
get_compare_fail_cause n which prev_value prev_index =
    let f = fields n in
    let index_differs = differ (decimal prev_index) (decimal f.modified_index) in
    let value_differs = differ prev_value f.value in
    if which == compare_index_not_match
    then index_differs
    else if which == compare_value_not_match
    then value_differs
    else value_differs ++ b' ' ∷ index_differs

-- `Write` and `UpdateTTL` on a node of the tree, the error of the first one ignored: the node
-- after them, and the store.
unfoldable pub rewrite : Place → Text → ℕ → ℕ → Store → Result (Store × Node)
unfolding write update_ttl put_at
rewrite place value index expire_time s =
    let written : Node = elim (write s.current_index value index place.node) [
      | failed ignored ↦ place.node
      | returned n ↦ n
    ] in
    (do
      (timed, h) ← update_ttl expire_time (record place { node = written }) s.ttl_key_heap
      ok (record s { root = put_at place.at timed s.root; ttl_key_heap = h }, timed))

-- The event of an operation that has written a node.
abbrev write_event : ℕ → Event → ℕ → NodeExtern → Node → Bool → Text → Event
write_event now e next prev new is_folder value =
    let times = expiration_and_ttl now new in
    record e {
      etcd_index = next;
      prev_node = some prev;
      node = record e.node {
        shown = record e.node.shown {
          dir = is_folder;
          value = if is_folder then none else some value;
          expiration = times.0;
          ttl = times.1;
        };
      };
    }

-- `CompareAndSwap` once the two tests have succeeded.
unfoldable pub swap_value : ℕ → Text → Text → ℕ → Store → Place → Result (Store × Outcome Event)
unfolding count new_event repr rewrite expiration_and_ttl announce
swap_value now node_path value expire_time s place =
    let n = place.node in
    let next = s.current_index + 1 in
    let e = new_event compare_and_swap_action node_path next (fields n).created_index in
    (do
      prev ← repr now false false n
      (swapped, new) ← rewrite place value next expire_time (record s { current_index = next })
      announce compare_and_swap_success (write_event now e next prev new false value) swapped)

-- The tests of `CompareAndSwap` on a node that is there.
unfoldable pub swap_tests :
    ℕ → Text → Text → ℕ → Text → ℕ → Store → Place → Result (Store × Outcome Event)
unfolding new_error compare get_compare_fail_cause count swap_value
swap_tests now node_path prev_value prev_index value expire_time s place =
    let n = place.node in
    let (matches, which) = compare prev_value prev_index n in
    let cause = get_compare_fail_cause n which prev_value prev_index in
    let fail : ℕ → Text → Result (Store × Outcome Event) =
      λ code why. ok (count compare_and_swap_fail s, failed (new_error code why s.current_index)) in
    if is_dir n
    then fail ecode_not_file node_path
    else if not matches
    then fail ecode_test_failed cause
    else swap_value now node_path value expire_time s place

unfoldable pub compare_and_swap :
    ℕ → Text → Text → ℕ → Text → ℕ → Store → Result (Store × Outcome Event)
unfolding below_root with_place swap_tests
compare_and_swap now given prev_value prev_index value expire_time s =
    let node_path = full_path given in
    below_root node_path s (
      with_place compare_and_swap_fail node_path s
        (swap_tests now node_path prev_value prev_index value expire_time s))

-- `Update` of a node that is there.
unfoldable pub update_place : ℕ → Text → Text → ℕ → Store → Place → Result (Store × Outcome Event)
unfolding new_error count new_event repr rewrite expiration_and_ttl announce
update_place now node_path new_value expire_time s place =
    let n = place.node in
    let next = s.current_index + 1 in
    let e = new_event update_action node_path next (fields n).created_index in
    let written : NodeExtern → Result (Store × Outcome Event) = λ prev. (do
      (changed, new) ← rewrite place new_value next expire_time s
      (told, event) ←
          announce update_success (write_event now e next prev new (is_dir n) new_value) changed
      ok (record told { current_index = next }, event)) in
    (do
      prev ← repr now false false n
      if is_dir n && not (length new_value == 0)
          then ok (count update_fail s, failed (new_error ecode_not_file node_path s.current_index))
          else written prev)

unfoldable pub update : ℕ → Text → Text → ℕ → Store → Result (Store × Outcome Event)
unfolding below_root with_place update_place
update now given new_value expire_time s =
    let node_path = full_path given in
    below_root node_path s
      (with_place update_fail node_path s (update_place now node_path new_value expire_time s))
