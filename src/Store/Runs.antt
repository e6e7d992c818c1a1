-- ===== src/Store/Runs.antt =====
-- store/*.go: runs of the operations on a small store, and their theorems at these runs.
mod Examples
mod Saved
use etcd.Prelude.{
  Bool, Option, some, none, ◌+◌, true, ℕ, ◌*◌, ◌≡◌, refl, false, [], ◌∷◌, Result, ok, panic,
}
use etcd.Prelude.Paths.{Text}
use etcd.EtcdError.{Outcome, failed, returned}
use etcd.Store.Event.{Event, new_event, set_action}
use etcd.Store.Node.{Node, new_dir, permanent, childless, fields}
use etcd.Store.Stats.{new_stats}
use etcd.Store.TtlHeap.{new_ttl_key_heap}
use etcd.Store.Watchers.{new_watch_hub}
use etcd.Prelude.Int.{pos}
use etcd.Store.State.Remove.{is_linked}
use etcd.Prelude.Names.{Names}
use etcd.Prelude.Clean.{segments}
use etcd.Store.State.{node_at, new_store, Store}
use etcd.Store.State.Places.{value_at}
use etcd.Store.Create.{set, create}
use etcd.Store.Swap.{compare_and_swap, update}
use etcd.Store.Delete.{delete_expired_keys, delete, compare_and_delete}

-- A new store whose history has room for two events.
abbrev pub small : Store
unfolding new_dir new_stats new_watch_hub
small = record {
  root = new_dir (b'/' ∷ []) 0 [] permanent;
  watcher_hub = new_watch_hub 2;
  current_index = 0;
  stats = new_stats;
  current_version = 2;
  ttl_key_heap = new_ttl_key_heap;
}

abbrev pub path_ab : Text
path_ab = b'/' ∷ b'a' ∷ b'/' ∷ b'b' ∷ []

abbrev pub path_a : Text
path_a = b'/' ∷ b'a' ∷ []

abbrev pub x : Text
x = b'x' ∷ []

abbrev pub y : Text
y = b'y' ∷ []

-- The year 2029.
abbrev pub now : ℕ
now = 64_000_000_000 * 1_000_000_000

-- The store and the answer of a run; `small` and no event where it panics.
abbrev pub store_of : Result (Store × Outcome Event) → Store
store_of (panic p) = small
store_of (ok (s, out)) = s

abbrev pub no_event : Event
unfolding new_event
no_event = new_event set_action [] 0 0

abbrev pub event_of : Result (Store × Outcome Event) → Event
event_of (ok (s, returned e)) = e
event_of _ = no_event

abbrev code_of : Result (Store × Outcome Event) → ℕ
code_of (ok (s, failed err)) = err.error_code
code_of _ = 0

abbrev pub made : Result (Store × Outcome Event)
unfolding create small
made = create now path_ab false x false 0 small

abbrev pub with_file : Store
unfolding made
with_file = store_of made

pub makes : made ≡ ok (with_file, returned (event_of made))
unfolding with_file etcd.Store.State.full_path
makes = refl

not_a_panic : with_file.current_index ≡ 1
unfolding with_file etcd.Store.State.full_path
not_a_panic = refl

-- The intermediate directory is there, and Create does not replace.
makes_the_folder : value_at ((b'a' ∷ []) ∷ (b'b' ∷ []) ∷ []) with_file.root ≡ some x
unfolding with_file value_at etcd.Store.State.full_path
makes_the_folder = refl

refuses_twice : code_of (create now path_ab false y false 0 with_file) ≡ 105
unfolding create with_file etcd.Store.State.full_path
refuses_twice = refl

needs_a_folder :
    code_of (create now (b'/' ∷ b'a' ∷ b'/' ∷ b'b' ∷ b'/' ∷ b'c' ∷ []) false y false 0 with_file)
    ≡ 104
unfolding create with_file etcd.Store.State.full_path
needs_a_folder = refl

numbers_unique :
    (event_of (create now path_a false y true 0 with_file)).node.key
    ≡ b'/' ∷ b'a' ∷ b'/' ∷ b'2' ∷ []
unfolding create with_file etcd.Store.State.full_path
numbers_unique = refl

sets : (event_of (set now path_ab false y (now + 3_000_000_001) with_file)).node.ttl ≡ pos 4
unfolding set with_file etcd.Store.State.full_path etcd.Store.Node.Show.load_internal_node
sets = refl

keeps_the_root : code_of (delete now (b'/' ∷ []) true true with_file) ≡ 107
unfolding delete with_file etcd.Store.State.full_path
keeps_the_root = refl

deletes_no_full_folder : code_of (delete now path_a true false with_file) ≡ 108
unfolding delete with_file etcd.Store.State.full_path
deletes_no_full_folder = refl

deletes_all :
    value_at
      ((b'a' ∷ []) ∷ (b'b' ∷ []) ∷ [])
      (store_of (delete now path_a true true with_file)).root
    ≡ none
unfolding delete with_file value_at etcd.Store.State.full_path
deletes_all = refl

-- A directory counts as a failure of CompareAndSwap.
miscounts : (store_of (compare_and_delete now path_a [] 0 with_file)).stats.swaps_failed ≡ 1
unfolding compare_and_delete with_file etcd.Store.State.full_path
miscounts = refl

-- The failure of the walk counts as one of Set.
counts_as_set :
    (store_of (
      create now
        (b'/' ∷ b'a' ∷ b'/' ∷ b'b' ∷ b'/' ∷ b'c' ∷ [])
        false
        y
        false
        0
        with_file)).stats.sets_failed
    ≡ 1
unfolding create with_file etcd.Store.State.full_path
counts_as_set = refl

updates : (event_of (update now path_ab y 0 with_file)).node.modified_index ≡ 2
unfolding update with_file etcd.Store.State.full_path
updates = refl

abbrev pub swaps : Result (Store × Outcome Event)
unfolding compare_and_swap with_file
swaps = compare_and_swap now path_ab x 1 y (now * 2) with_file

abbrev pub swapped : Store
unfolding swaps
swapped = store_of swaps

pub swaps_once : swaps ≡ ok (swapped, returned (event_of swaps))
unfolding swapped etcd.Store.State.full_path
swaps_once = refl

differs : code_of (compare_and_swap now path_ab y 1 y 0 with_file) ≡ 101
unfolding compare_and_swap with_file etcd.Store.State.full_path
differs = refl

abbrev pub drops : Result (Store × Outcome Event)
unfolding compare_and_delete with_file
drops = compare_and_delete now path_ab x 1 with_file

abbrev pub dropped : Store
unfolding drops
dropped = store_of drops

pub drops_once : drops ≡ ok (dropped, returned (event_of drops))
unfolding dropped etcd.Store.State.full_path
drops_once = refl

-- Whether the parent of a node has it under its own name.
abbrev pub linked_there : Names → Option Node → Bool
linked_there at none = true
linked_there at (some n) = is_linked at n

pub file_linked : linked_there (segments path_ab) (node_at (segments path_ab) with_file.root) ≡ true
unfolding with_file node_at etcd.Store.State.full_path
file_linked = refl

abbrev pub rewrites : Result (Store × Outcome Event)
unfolding update with_file
rewrites = update now path_ab y (now * 2) with_file

abbrev pub rewritten : Store
unfolding rewrites
rewritten = store_of rewrites

pub rewrites_once : rewrites ≡ ok (rewritten, returned (event_of rewrites))
unfolding rewritten etcd.Store.State.full_path
rewrites_once = refl

abbrev left_of : Option (Result Store) → Store
left_of (some (ok s)) = s
left_of _ = small

-- The file that was written with a time is deleted once this time is past.
deletes_expired :
    ((left_of (delete_expired_keys now (now * 3) swapped)).current_index ≡ 3)
    × (value_at
          ((b'a' ∷ []) ∷ (b'b' ∷ []) ∷ [])
          (left_of (delete_expired_keys now (now * 3) swapped)).root
        ≡ none)
unfolding delete_expired_keys swapped value_at etcd.Store.State.full_path
deletes_expired = (refl, refl)
