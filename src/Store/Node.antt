-- ===== src/Store/Node.antt =====
-- store/node.go: a node of the tree, with what it holds as values. There is no parent pointer: a
-- node is reached from the root. The order of a node's children is the order of `range`. A time is
-- a number of nanoseconds since the zero time, and `now` is what the clock shows.
pub mod Show
pub mod Compare
use etcd.Prelude.{
  ℕ, ◌-◌, ◌^◌, ◌/◌, ◌%◌, Bool, true, false, ◌&&◌, ◌||◌, not, Option, none, some, List, [], ◌∷◌, ltb,
  leb, ◌==◌, if◌then◌else◌, Result, ok, panic, Panic,
}
use Prim.Native.Nat.{suc, min}
use etcd.Prelude.Int.{ℤ, pos, negate, increment, negsuc}
use etcd.Prelude.Paths.{Text, same_text}
use etcd.Prelude.Names.{split_path}
use etcd.EtcdError.{
  Error, new_error, Outcome, failed, returned, ecode_not_file, ecode_not_dir, ecode_node_exist,
}

abbrev pub compare_match : ℕ
compare_match = 0

abbrev pub compare_index_not_match : ℕ
compare_index_not_match = 1

abbrev pub compare_value_not_match : ℕ
compare_value_not_match = 2

abbrev pub compare_not_match : ℕ
compare_not_match = 3

abbrev pub permanent : ℕ
permanent = 0

pub record Fields : Type 0 where
  pub path : Text
  pub created_index : ℕ
  pub modified_index : ℕ
  pub expire_time : ℕ
  pub acl : Text
  pub value : Text

-- A node whose `Children` is nil, and one whose `Children` is a map.
mutual
  pub data Node : Type 0 where
    kv : Fields → Node
    dir : Fields → Children → Node

  pub data Children : Type 0 where
    childless : Children
    child : Text → Node → Children → Children

abbrev pub fields : Node → Fields
fields (kv f) = f
fields (dir f cs) = f

abbrev pub with_fields : Node → Fields → Node
with_fields (kv f) g = kv g
with_fields (dir f cs) g = dir g cs

unfoldable pub new_kv : Text → Text → ℕ → Text → ℕ → Node
new_kv node_path value created_index acl expire_time = kv (record {
  path = node_path;
  created_index = created_index;
  modified_index = created_index;
  acl = acl;
  expire_time = expire_time;
  value = value;
})

unfoldable pub new_dir : Text → ℕ → Text → ℕ → Node
new_dir node_path created_index acl expire_time =
    dir
      (record {
        path = node_path;
        created_index = created_index;
        modified_index = created_index;
        acl = acl;
        expire_time = expire_time;
        value = [];
      })
      childless

-- The entry of a map of children, and the map with an entry set or deleted.
abbrev pub child_at : Text → Children → Option Node
child_at name childless = none
child_at name (child key n cs) = if same_text key name then some n else child_at name cs

abbrev pub put_child : Text → Node → Children → Children
put_child name new childless = child name new childless
put_child name new (child key n cs) =
    if same_text key name then child name new cs else child key n (put_child name new cs)

abbrev pub drop_child : Text → Children → Children
drop_child name childless = childless
drop_child name (child key n cs) =
    let others = drop_child name cs in if same_text key name then others else child key n others

abbrev pub nodes_of : Children → List Node
nodes_of childless = []
nodes_of (child key n cs) = n ∷ nodes_of cs

-- The name that a node takes from its path.
abbrev pub own_name : Node → Text
own_name n = (split_path (fields n).path).1

unfoldable pub is_hidden : Node → Result Bool
is_hidden n = elim (own_name n) [ [] ↦ panic Panic.index_out_of_range | c ∷ name ↦ ok (c == b'_') ]

abbrev pub is_permanent : Node → Bool
is_permanent n = (fields n).expire_time == permanent

abbrev pub is_dir : Node → Bool
is_dir (kv f) = false
is_dir (dir f cs) = true

-- Each operation that may fail takes the store's `CurrentIndex` first, for its error.
unfoldable pub read : ℕ → Node → Outcome Text
unfolding new_error
read current n =
    if is_dir n then failed (new_error ecode_not_file [] current) else returned (fields n).value

unfoldable pub write : ℕ → Text → ℕ → Node → Outcome Node
unfolding new_error
write current value index n =
    if is_dir n
    then failed (new_error ecode_not_file [] current)
    else returned (with_fields n (record (fields n) { value = value; modified_index = index }))

abbrev pub second : ℕ
second = 1_000_000_000

-- `t.Sub(u)`: a duration is an int64, and one out of range is the nearest that there is.
abbrev time_sub : ℕ → ℕ → ℤ
time_sub t u = if leb u t then pos (min (t - u) (2 ^ 63 - 1)) else negate (min (u - t) (2 ^ 63))

-- Division of a duration by the second is towards 0, so that of a negative one leaves no positive
-- rest.
abbrev pub seconds_left : ℤ → ℤ
seconds_left (pos d) = if ltb 0 (d % second) then increment (pos (d / second)) else pos (d / second)
seconds_left (negsuc d) = negate (suc d / second)

unfoldable pub expiration_and_ttl : ℕ → Node → Option ℕ × ℤ
expiration_and_ttl now n =
    if not (is_permanent n)
    then (some (fields n).expire_time, seconds_left (time_sub (fields n).expire_time now))
    else (none, pos 0)

unfoldable pub list : ℕ → Node → Outcome (List Node)
unfolding new_error
list current (kv f) = failed (new_error ecode_not_dir [] current)
list current (dir f cs) = returned (nodes_of cs)

unfoldable pub get_child : ℕ → Text → Node → Outcome (Option Node)
unfolding new_error
get_child current name (kv f) = failed (new_error ecode_not_dir f.path current)
get_child current name (dir f cs) = returned (child_at name cs)

unfoldable pub add : ℕ → Node → Node → Outcome Node
unfolding new_error
add current new (kv f) = failed (new_error ecode_not_dir [] current)
add current new (dir f cs) = elim (child_at (own_name new) cs) [
  | some other ↦ failed (new_error ecode_node_exist [] current)
  | none ↦ returned (dir f (put_child (own_name new) new cs))
]

unfoldable pub compare : Text → ℕ → Node → Bool × ℕ
compare prev_value prev_index n =
    let index_match = prev_index == 0 || (fields n).modified_index == prev_index in
    let value_match = same_text prev_value [] || same_text (fields n).value prev_value in
    let which =
      if value_match && index_match
      then compare_match
      else if index_match && not value_match
      then compare_value_not_match
      else if value_match && not index_match
      then compare_index_not_match
      else compare_not_match in
    (value_match && index_match, which)

unfoldable mutual
  unfolding new_kv new_dir

  pub clone : Node → Node
  clone (kv f) = new_kv f.path f.value f.created_index f.acl f.expire_time
  clone (dir f cs) =
      dir (fields (new_dir f.path f.created_index f.acl f.expire_time)) (clone_children cs)

  pub clone_children : Children → Children
  clone_children childless = childless
  clone_children (child key n cs) = child key (clone n) (clone_children cs)
