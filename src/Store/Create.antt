-- ===== src/Store/Create.antt =====
-- store/store.go: the operations that put a node into the tree, Create and Set.
pub mod Dirs
pub mod File
pub mod Placed
pub mod Laws
pub mod Exact
use etcd.Prelude.{
  ℕ, ◌+◌, ◌*◌, ◌==◌, not, Bool, true, false, ltb, Option, none, some, [], ◌∷◌, ◌++◌, if◌then◌else◌,
  Result, ok, panic, Panic, ◌>>=◌,
}
use etcd.Prelude.Paths.{Text, same_text}
use etcd.Prelude.Names.{Names, split_path, decimal}
use etcd.EtcdError.{
  Outcome, failed, returned, new_error, ecode_root_read_only, ecode_not_file, ecode_node_exist,
  ecode_key_not_found,
}
use etcd.Store.Event.{Event, Action, new_event, create_action, set_action}
use etcd.Store.Node.{
  fields, Node, is_dir, is_permanent, new_kv, new_dir, get_child, add, permanent,
  expiration_and_ttl,
}
use etcd.Store.Node.Show.{repr}
use etcd.Store.Stats.{set_success, set_fail, create_success, create_fail}
use etcd.Store.TtlHeap
use etcd.Store.State.{
  below_root, announce, Store, Place, count, node_at, put_at, full_path, walk, internal_get,
  check_dir,
}
use etcd.Store.State.Remove.{remove}
use etcd.Store.Get.{get_event}

-- The year 2000, 730119 days after the year 1.
abbrev pub min_expire_time : ℕ
min_expire_time = 730_119 * 86_400 * 1_000_000_000

-- The part of `internalCreate` about a node that is there already: it is removed if it is to be
-- replaced, and the event then has what it was.
unfoldable pub clear_place :
    ℕ → Bool → Text → Option Place → Event → Store → Result (Store × Outcome Event)
unfolding new_error repr remove
clear_place now replace node_path none e s = ok (s, returned e)
clear_place now replace node_path (some old) e s =
    if not replace
    then ok (s, failed (new_error ecode_node_exist node_path s.current_index))
    else if is_dir old.node
    then ok (s, failed (new_error ecode_not_file node_path s.current_index))
    else (do
      prev ← repr now false false old.node
      (cleared, error) ← remove old false false none s
      ok (cleared, returned (record e { prev_node = some prev })))

-- `d.Add(n)`, whose error is ignored.
unfoldable pub attach : Place → Node → Store → Result Store
unfolding node_at add put_at
attach d n s = do
  parent ← elim (node_at d.at s.root) [ none ↦ panic Panic.nil_pointer | some found ↦ ok found ]
  ok (elim (add s.current_index n parent) [
    | failed ignored ↦ s
    | returned filled ↦ record s { root = put_at d.at filled s.root }
  ])

-- A new node with a time enters the heap.
unfoldable pub enter : Names → Node → Store → Result Store
unfolding TtlHeap.push
enter at n s =
    let item : TtlHeap.Item = record { at = at; expire_time = (fields n).expire_time } in
    if not (is_permanent n)
    then (do h ← TtlHeap.push item s.ttl_key_heap; ok (record s { ttl_key_heap = h }))
    else ok s

abbrev create_event : ℕ → Node → Bool → Text → Event → Event
create_event now n dir value e =
    let times = expiration_and_ttl now n in
    let shown = record e.node.shown { value = if not dir then some value else none; dir = dir } in
    record e {
      node = record e.node {
        shown =
            if not (is_permanent n)
            then record shown { expiration = times.0; ttl = times.1 }
            else shown;
      };
    }

-- The part of `internalCreate` that makes the new node under the directory at `d`.
unfoldable pub place_node :
    ℕ → Place → Text → Text → Bool → Text → ℕ → Event → Store → Result (Store × Outcome Event)
unfolding new_kv new_dir attach enter expiration_and_ttl
place_node now d node_name node_path dir value expire_time e s =
    let next_index = s.current_index + 1 in
    let n =
      if not dir
      then new_kv node_path value next_index [] expire_time
      else new_dir node_path next_index [] expire_time in
    (do
      attached ← attach d n s
      entered ← enter (d.at ++ node_name ∷ []) n attached
      ok (record entered { current_index = next_index }, returned (create_event now n dir value e)))

-- `internalCreate` in the directory that its walk has reached.
unfoldable pub create_in :
    ℕ
    → Place
    → Text
    → Text
    → Bool
    → Text
    → Bool
    → ℕ
    → Action
    → Store
    → Result (Store × Outcome Event)
unfolding new_event get_child clear_place place_node
create_in now d node_name node_path dir value replace expire_time action s =
    let next_index = s.current_index + 1 in
    let e = new_event action node_path next_index next_index in
    let old : Option Place = elim (get_child s.current_index node_name d.node) [
      | failed ignored ↦ none
      | returned none ↦ none
      | returned (some n) ↦ some (record { at = d.at ++ node_name ∷ []; node = n })
    ] in
    (do
      (cleared, event) ← clear_place now replace node_path old e s
      elim event [
        | failed err ↦ ok (cleared, failed err)
        | returned e' ↦ place_node now d node_name node_path dir value expire_time e' cleared
      ])

-- `internalCreate` with the two parts of the path: the walk makes the directories that are missing.
unfoldable pub create_from :
    ℕ
    → Text
    → Text
    → Text
    → Bool
    → Text
    → Bool
    → ℕ
    → Action
    → Store
    → Result (Store × Outcome Event)
unfolding walk check_dir count create_in
create_from now dir_name node_name node_path dir value replace expire_time action s = do
  (walked, reached) ← walk check_dir dir_name s s.root
  elim reached [
    | failed err ↦ ok (count set_fail walked, failed (record err { index = s.current_index }))
    | returned d ↦ create_in now d node_name node_path dir value replace expire_time action walked
  ]

-- `internalCreate` below the root.
unfoldable pub create_below :
    ℕ → Text → Bool → Text → Bool → ℕ → Action → Store → Result (Store × Outcome Event)
unfolding create_from
create_below now node_path dir value replace expire_time action s =
    let (dir_name, node_name) = split_path node_path in
    create_from now dir_name node_name node_path dir value replace expire_time action s

-- The path with the next index as its last name, if it is to be unique.
abbrev pub unique_path : Text → Bool → ℕ → Text
unique_path given unique next_index = if unique then given ++ b'/' ∷ decimal next_index else given

unfoldable pub internal_create :
    ℕ → Text → Bool → Text → Bool → Bool → ℕ → Action → Store → Result (Store × Outcome Event)
unfolding decimal below_root create_below
internal_create now given dir value unique replace given_time action s =
    let node_path = full_path (unique_path given unique (s.current_index + 1)) in
    let expire_time = if ltb given_time min_expire_time then permanent else given_time in
    below_root node_path s (create_below now node_path dir value replace expire_time action s)

-- `Create` after its call of `internalCreate`.
unfoldable pub answer_create : Store × Outcome Event → Result (Store × Outcome Event)
unfolding announce count
answer_create (created, failed err) = ok (count create_fail created, failed err)
answer_create (created, returned e) =
    announce create_success (record e { etcd_index = created.current_index }) created

unfoldable pub create : ℕ → Text → Bool → Text → Bool → ℕ → Store → Result (Store × Outcome Event)
unfolding internal_create answer_create
create now node_path dir value unique expire_time s = do
  result ← internal_create now node_path dir value unique false expire_time create_action s
  answer_create result

-- What `Set` shows of the node before, if it has found one.
unfoldable pub shown_before : ℕ → Text → Option Place → Event → Result Event
shown_before now node_path none e = ok e
shown_before now node_path (some n) e = do
  before ← get_event now node_path n false false
  ok (record e { prev_node = some before.node })

-- `Set` after its look at the node before.
unfoldable pub set_over :
    ℕ → Text → Bool → Text → ℕ → Option Place → Store → Result (Store × Outcome Event)
unfolding internal_create announce count shown_before
set_over now node_path dir value expire_time before s = do
  (created, event) ← internal_create now node_path dir value false true expire_time set_action s
  elim event [
    | failed err ↦ ok (count set_fail created, failed err)
    | returned e ↦ (do
      shown ← shown_before now node_path before (record e { etcd_index = created.current_index })
      announce set_success shown created)
  ]

-- The node before is read from the value that it had: it has left the tree, and nothing wrote it.
unfoldable pub set : ℕ → Text → Bool → Text → ℕ → Store → Result (Store × Outcome Event)
unfolding internal_get set_over count
set now node_path dir value expire_time s = do
  got ← internal_get s node_path
  elim got [
    | returned n ↦ set_over now node_path dir value expire_time (some n) s
    | failed err ↦
        if not (err.error_code == ecode_key_not_found)
        then ok (count set_fail s, failed err)
        else set_over now node_path dir value expire_time none s
  ]
