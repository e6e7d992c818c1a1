-- ===== src/Store/State/Remove.antt =====
-- store/node.go: the operations of a node that reach the store: Remove and UpdateTTL.
use etcd.Prelude.{
  ℕ, ◌==◌, Bool, true, false, not, ◌&&◌, Option, none, some, [], ◌∷◌, ◌++◌, if◌then◌else◌, Result,
  ok, ◌>>=◌,
}
use etcd.Prelude.Paths.{Text, same_text}
use etcd.Prelude.Names.{Names}
use etcd.EtcdError.{Error, new_error, ecode_not_file, ecode_dir_not_empty}
use etcd.Store.Node.{
  Node, kv, dir, Children, childless, child, fields, with_fields, is_dir, is_permanent, own_name,
  permanent, Fields,
}
use etcd.Store.TtlHeap
use etcd.Store.TtlHeap.{TtlKeyHeap}
use etcd.Store.Watchers.{WatcherHub}
use etcd.Store.State.{Store, Place, put_at, unlink}

-- What `Remove` calls with the path of a node that it has removed, if it is not nil.
abbrev pub Callback : Type 0
Callback = Option (Text → WatcherHub → Result WatcherHub)

unfoldable pub call : Callback → Text → Store → Result Store
call none path s = ok s
call (some callback) path s = do
  wh ← callback path s.watcher_hub
  ok (record s { watcher_hub = wh })

unfoldable pub leave_heap : Names → Fields → Store → Result Store
unfolding TtlHeap.remove
leave_heap at f s =
    if not (f.expire_time == permanent)
    then (do h ← TtlHeap.remove at s.ttl_key_heap; ok (record s { ttl_key_heap = h }))
    else ok s

-- What the removal of a node and of all below it does to the hub and to the heap. `linked` is
-- whether the parent has the node under the name that its path gives.
unfoldable mutual
  unfolding call leave_heap

  pub release : Callback → Names → Bool → Node → Store → Result Store
  release callback at linked (kv f) s = do called ← call callback f.path s; leave_heap at f called
  release callback at linked (dir f cs) s = do
    emptied ← release_children callback at cs s
    if linked
        then (do called ← call callback f.path emptied; leave_heap at f called)
        else ok emptied

  pub release_children : Callback → Names → Children → Store → Result Store
  release_children callback at childless s = ok s
  release_children callback at (child key n cs) s = do
    next ← release callback (at ++ key ∷ []) (same_text (own_name n) key) n s
    release_children callback at cs next

-- What stays of a node that its parent does not have under its name.
unfoldable mutual
  pub emptied : Node → Node
  emptied (kv f) = kv f
  emptied (dir f cs) = dir f (emptied_children cs)

  pub emptied_children : Children → Children
  emptied_children childless = childless
  emptied_children (child key n cs) =
      let others = emptied_children cs in
      if same_text (own_name n) key then others else child key (emptied n) others

-- The root has no parent.
abbrev pub is_linked : Names → Node → Bool
is_linked [] n = false
is_linked (c ∷ []) n = same_text (own_name n) c
is_linked (c ∷ d ∷ cs) n = is_linked (d ∷ cs) n

abbrev pub has_children : Node → Bool
has_children (kv f) = false
has_children (dir f childless) = false
has_children (dir f (child key n cs)) = true

unfoldable pub remove : Place → Bool → Bool → Callback → Store → Result (Store × Option Error)
unfolding new_error release emptied put_at unlink
remove place may_be_dir recursive callback s =
    let n = place.node in
    let linked = is_linked place.at n in
    if is_dir n && not may_be_dir
    then ok (s, some (new_error ecode_not_file (fields n).path s.current_index))
    else if is_dir n && has_children n && not recursive
    then ok (s, some (new_error ecode_dir_not_empty (fields n).path s.current_index))
    else (do
      released ← release callback place.at linked n s
      ok (
        record released {
          root = if linked then unlink place.at s.root else put_at place.at (emptied n) s.root;
        },
        none,
      ))

-- `UpdateTTL`: the node with its new time, and the heap.
unfoldable pub update_ttl : ℕ → Place → TtlKeyHeap → Result (Node × TtlKeyHeap)
unfolding TtlHeap.remove TtlHeap.update TtlHeap.push
update_ttl expire_time place h =
    let n = place.node in
    let timed = with_fields n (record (fields n) { expire_time = expire_time }) in
    if not (is_permanent n)
    then (if expire_time == permanent
        then (do out ← TtlHeap.remove place.at h; ok (timed, out))
        else (do
          moved ← TtlHeap.update (record { at = place.at; expire_time = expire_time }) h
          ok (timed, moved)))
    else if not (expire_time == permanent)
    then (do
      pushed ← TtlHeap.push (record { at = place.at; expire_time = expire_time }) h
      ok (timed, pushed))
    else ok (n, h)
