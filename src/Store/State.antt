-- ===== src/Store/State.antt =====
-- store/store.go: the store, and how a path is walked. A pointer to a node is its place: the names
-- that lead to it from the root, and the node as it is then. The lock makes each operation one step.
pub mod Remove
pub mod Places
pub mod Walk
pub mod Found
pub mod Files
pub mod Path
pub mod Unlink
use etcd.Prelude.{
  ℕ, ◌+◌, ◌==◌, Option, none, some, List, [], ◌∷◌, ◌++◌, if◌then◌else◌, length, drop, Result, ok,
  panic, Panic, ◌>>=◌,
}
use etcd.Prelude.Paths.{same_text, Text, split, clean}
use etcd.Prelude.Names.{Names, join}
use etcd.EtcdError.{
  ecode_root_read_only, Error, Outcome, failed, returned, new_error, ecode_not_dir,
  ecode_key_not_found,
}
use etcd.Store.Event.{Event}
use etcd.Store.Node.{
  Node, kv, dir, Children, child_at, put_child, drop_child, new_dir, permanent, fields, is_dir,
}
use etcd.Store.Stats
use etcd.Store.Stats.{Stats, Field, new_stats}
use etcd.Store.TtlHeap.{TtlKeyHeap, new_ttl_key_heap}
use etcd.Store.Watchers.{WatcherHub, new_watch_hub, notify}

pub record Store : Type 0 where
  pub root : Node
  pub watcher_hub : WatcherHub
  pub current_index : ℕ
  pub stats : Stats
  pub current_version : ℕ
  pub ttl_key_heap : TtlKeyHeap

abbrev default_version : ℕ
default_version = 2

unfoldable pub new_store : Store
unfolding new_dir new_stats new_watch_hub
new_store = record {
  current_version = default_version;
  current_index = 0;
  root = new_dir (b'/' ∷ []) 0 [] permanent;
  stats = new_stats;
  watcher_hub = new_watch_hub 1000;
  ttl_key_heap = new_ttl_key_heap;
}

abbrev pub version : Store → ℕ
version s = s.current_version

abbrev pub store_index : Store → ℕ
store_index s = s.current_index

unfoldable pub count : Field → Store → Store
unfolding Stats.inc
count field s = record s { stats = Stats.inc field s.stats }

pub record Place : Type 0 where
  pub at : Names
  pub node : Node

-- The node that names lead to.
unfoldable pub node_at : Names → Node → Option Node
node_at [] n = some n
node_at (c ∷ cs) (kv f) = none
node_at (c ∷ cs) (dir f children) = elim (child_at c children) [
  | none ↦ none
  | some n ↦ node_at cs n
]

-- The tree with another node where the names lead.
unfoldable pub put_at : Names → Node → Node → Node
put_at [] new n = new
put_at (c ∷ cs) new (kv f) = kv f
put_at (c ∷ cs) new (dir f children) = elim (child_at c children) [
  | none ↦ dir f children
  | some n ↦ dir f (put_child c (put_at cs new n) children)
]

-- The tree without the node that the names lead to.
unfoldable pub unlink : Names → Node → Node
unlink [] n = n
unlink (c ∷ cs) (kv f) = kv f
unlink (c ∷ []) (dir f children) = dir f (drop_child c children)
unlink (c ∷ d ∷ cs) (dir f children) = elim (child_at c children) [
  | none ↦ dir f children
  | some n ↦ dir f (put_child c (unlink (d ∷ cs) n) children)
]

module _ {S : Type 0} (walk_func : S → Place → Text → Result (S × Outcome Place)) where
  -- The loop of `walk` over the components after the first; it stops at an empty one.
  unfoldable pub walk_loop : List Text → S → Place → Result (S × Outcome Place)
  walk_loop [] s curr = ok (s, returned curr)
  walk_loop (component ∷ components) s curr =
      if length component == 0 then ok (s, returned curr) else (do
        (next, reached) ← walk_func s curr component
        elim reached [
          | failed err ↦ ok (next, failed err)
          | returned place ↦ walk_loop components next place
        ])

  unfoldable pub walk : Text → S → Node → Result (S × Outcome Place)
  unfolding walk_loop
  walk node_path s root = walk_loop (drop 1 (split node_path)) s (record { at = []; node = root })

-- The walk function of `internalGet`.
unfoldable pub get_component : Store → Place → Text → Result (Store × Outcome Place)
unfolding new_error join
get_component s parent name = elim parent.node [
  | kv f ↦ ok (s, failed (new_error ecode_not_dir f.path s.current_index))
  | dir f children ↦ elim (child_at name children) [
    | some n ↦ ok (s, returned (record { at = parent.at ++ name ∷ []; node = n }))
    | none ↦ ok (s, failed (new_error ecode_key_not_found (join f.path name) s.current_index))
  ]
]

-- `path.Clean(path.Join("/", nodePath))`.
unfoldable pub full_path : Text → Text
unfolding clean join
full_path node_path = clean (join (b'/' ∷ []) node_path)

unfoldable pub internal_get : Store → Text → Result (Outcome Place)
unfolding walk get_component
internal_get s node_path = do
  (same, reached) ← walk get_component (full_path node_path) s s.root
  ok reached

-- The guard of the operations that may not change the root.
unfoldable pub below_root :
    Text → Store → Result (Store × Outcome Event) → Result (Store × Outcome Event)
unfolding new_error
below_root node_path s rest =
    if same_text node_path (b'/' ∷ [])
    then ok (s, failed (new_error ecode_root_read_only (b'/' ∷ []) s.current_index))
    else rest

-- The node of a path, for the rest of an operation; if there is none, the error is counted.
unfoldable pub with_place :
    Field → Text → Store → (Place → Result (Store × Outcome Event)) → Result (Store × Outcome Event)
unfolding internal_get count
with_place field node_path s rest = do
  got ← internal_get s node_path
  elim got [ failed err ↦ ok (count field s, failed err) | returned place ↦ rest place ]

-- The end of an operation that succeeds: its event goes to the watchers and is counted.
unfoldable pub announce : Field → Event → Store → Result (Store × Outcome Event)
unfolding notify count
announce field e s = do
  wh ← notify e s.watcher_hub
  ok (count field (record s { watcher_hub = wh }), returned e)

-- An entry written into a nil map panics.
unfoldable pub check_dir : Store → Place → Text → Result (Store × Outcome Place)
unfolding new_error new_dir join put_at
check_dir s parent dir_name = elim parent.node [
  | kv f ↦ panic Panic.nil_pointer
  | dir f children ↦ elim (child_at dir_name children) [
    | some n ↦ ok (
      s,
      if is_dir n
          then returned (record { at = parent.at ++ dir_name ∷ []; node = n })
          else failed (new_error ecode_not_dir (fields n).path s.current_index),
    )
    | none ↦
        let n = new_dir (join f.path dir_name) (s.current_index + 1) f.acl permanent in
        ok (
          record s { root = put_at parent.at (dir f (put_child dir_name n children)) s.root },
          returned (record { at = parent.at ++ dir_name ∷ []; node = n }),
        )
  ]
]
