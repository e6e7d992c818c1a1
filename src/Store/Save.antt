-- ===== src/Store/Save.antt =====
-- store/store.go and store/node.go: Save and Recovery. The bytes that encoding/json makes of a
-- store and reads back into one are a parameter.
pub mod Cloned
pub mod Exported
pub mod Laws
use etcd.Prelude.{◌==◌, not, Option, none, some, [], ◌∷◌, ◌++◌, if◌then◌else◌, Result, ok, ◌>>=◌}
use etcd.Prelude.Paths.{Text}
use etcd.Prelude.Names.{Names}
use etcd.Store.Node
use etcd.Store.Node.{Node, kv, dir, Children, childless, child, Fields, permanent}
use etcd.Store.Stats
use etcd.Store.TtlHeap.{TtlKeyHeap, new_ttl_key_heap, push}
use etcd.Store.Watchers
use etcd.Store.State.{Store, new_store}

-- A node with a time enters the heap after the nodes below it.
abbrev pub enter_heap : Names → Fields → TtlKeyHeap → Result TtlKeyHeap
enter_heap at f h =
    if not (f.expire_time == permanent)
    then push (record { at = at; expire_time = f.expire_time }) h
    else ok h

unfoldable mutual
  unfolding push

  pub recover_and_clean : Names → Node → TtlKeyHeap → Result TtlKeyHeap
  recover_and_clean at (kv f) h = enter_heap at f h
  recover_and_clean at (dir f cs) h = do below ← recover_children at cs h; enter_heap at f below

  pub recover_children : Names → Children → TtlKeyHeap → Result TtlKeyHeap
  recover_children at childless h = ok h
  recover_children at (child key n cs) h = do
    next ← recover_and_clean (at ++ key ∷ []) n h
    recover_children at cs next

-- The store that `Save` writes.
unfoldable pub cloned_store : Store → Store
unfolding new_store Node.clone Watchers.clone Stats.clone
cloned_store s = record new_store {
  current_index = s.current_index;
  root = Node.clone s.root;
  watcher_hub = Watchers.clone s.watcher_hub;
  stats = Stats.clone s.stats;
  current_version = s.current_version;
}

module _ {T : Type 0} (marshal : Store → Option T) (unmarshal : T → Store → Option Store) where
  unfoldable pub save : Store → Option T
  unfolding cloned_store
  save s = marshal (cloned_store s)

  -- `none` is the error of json.Unmarshal.
  unfoldable pub recovery : T → Store → Option (Result Store)
  unfolding recover_and_clean
  recovery state s = elim (unmarshal state s) [
    | none ↦ none
    | some read ↦ some (do
      h ← recover_and_clean [] read.root new_ttl_key_heap
      ok (record read { ttl_key_heap = h }))
  ]
