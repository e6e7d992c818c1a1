-- ===== src/Store/TtlHeap.antt =====
-- store/ttl_key_heap.go, over container/heap of Go's library: the nodes that expire, the soonest at
-- the top. A pointer to a node is the names that lead to it from the root.

pub mod Length
pub mod Total
pub mod Order
pub mod Sift
pub mod Kept
pub mod Top
use etcd.Prelude.{
  ℕ, zero, suc, ◌+◌, ◌-◌, ◌*◌, ◌/◌, Bool, not, Option, none, some, List, [], ◌∷◌, ◌++◌, ltb, leb,
  ◌==◌, if◌then◌else◌, length, get_elem?, take, Result, ok, panic, Panic, ◌>>=◌,
}
use etcd.Prelude.Arrays.{set}
use etcd.Prelude.Names.{Names, same_names, lookup, insert, delete}

-- A node of the heap, with its `ExpireTime`.
pub record Item : Type 0 where
  pub at : Names
  pub expire_time : ℕ

pub record TtlKeyHeap : Type 0 where
  pub array : List Item
  pub key_map : List (Names × ℕ)

abbrev pub new_ttl_key_heap : TtlKeyHeap
new_ttl_key_heap = record { array = []; key_map = [] }

abbrev pub item : TtlKeyHeap → ℕ → Result Item
item h i = elim (get_elem? h.array i) [ none ↦ panic Panic.index_out_of_range | some x ↦ ok x ]

-- The five methods of heap.Interface.
abbrev pub len : TtlKeyHeap → ℕ
len h = length h.array

unfoldable pub less : TtlKeyHeap → ℕ → ℕ → Result Bool
less h i j = do x ← item h i; y ← item h j; ok (ltb x.expire_time y.expire_time)

unfoldable pub swap : TtlKeyHeap → ℕ → ℕ → Result TtlKeyHeap
unfolding insert
swap h i j = do
  y ← item h j
  x ← item h i
  ok (record {
    array = set (set h.array i y) j x;
    key_map = insert same_names x.at j (insert same_names y.at i h.key_map);
  })

unfoldable pub push_last : Item → TtlKeyHeap → TtlKeyHeap
unfolding insert
push_last x h = record {
  key_map = insert same_names x.at (len h) h.key_map;
  array = h.array ++ x ∷ [];
}

unfoldable pub pop_last : TtlKeyHeap → Result (TtlKeyHeap × Item)
unfolding delete
pop_last h = do
  x ← if len h == 0 then panic Panic.index_out_of_range else item h (len h - 1)
  ok (record { array = take (len h - 1) h.array; key_map = delete same_names x.at h.key_map }, x)

-- The loops of container/heap: the index falls below the fuel of `up`, and rises with that of `down`.
unfoldable pub up_loop : ℕ → TtlKeyHeap → ℕ → Result TtlKeyHeap
unfolding less swap
up_loop zero h j = ok h
up_loop (suc fuel) h j =
    let i = (j - 1) / 2 in
    let rise = (do s ← swap h i j; up_loop fuel s i) in
    let step = (do below ← less h j i; if not below then ok h else rise) in
    if i == j then ok h else step

unfoldable pub up : TtlKeyHeap → ℕ → Result TtlKeyHeap
unfolding up_loop
up h j = up_loop (suc j) h j

-- The child of `i` that is to rise, of the one at `j1` and the one after it.
unfoldable pub smaller : TtlKeyHeap → ℕ → ℕ → Result ℕ
unfolding less
smaller h j1 n =
    if ltb (j1 + 1) n
    then (do first ← less h j1 (j1 + 1); ok (if not first then j1 + 1 else j1))
    else ok j1

unfoldable pub down_loop : ℕ → TtlKeyHeap → ℕ → ℕ → Result TtlKeyHeap
unfolding less swap smaller
down_loop zero h i n = ok h
down_loop (suc fuel) h i n =
    let j1 = 2 * i + 1 in
    let step = (do
      j ← smaller h j1 n
      below ← less h j i
      let sink = (do s ← swap h i j; down_loop fuel s j n)
      if not below then ok h else sink) in
    if leb n j1 then ok h else step

unfoldable pub down : TtlKeyHeap → ℕ → ℕ → Result TtlKeyHeap
unfolding down_loop
down h i n = down_loop (suc n) h i n

unfoldable pub push : Item → TtlKeyHeap → Result TtlKeyHeap
unfolding push_last up
push x h = up (push_last x h) (len h)

unfoldable pub top : TtlKeyHeap → Option Item
top h = get_elem? h.array 0

unfoldable pub pop : TtlKeyHeap → Result (TtlKeyHeap × Item)
unfolding swap down pop_last
pop h =
    if len h == 0
    then panic Panic.index_out_of_range
    else (do s ← swap h 0 (len h - 1); d ← down s 0 (len h - 1); pop_last d)

-- `heap.Remove`.
unfoldable pub remove_index : TtlKeyHeap → ℕ → Result TtlKeyHeap
unfolding swap down up pop_last
remove_index h i = if len h == 0 then panic Panic.index_out_of_range else (do
  moved ←
      if not (len h - 1 == i)
      then (do s ← swap h i (len h - 1); d ← down s i (len h - 1); up d i)
      else ok h
  popped ← pop_last moved
  ok popped.0)

unfoldable pub remove : Names → TtlKeyHeap → Result TtlKeyHeap
unfolding remove_index lookup
remove at h = elim (lookup same_names at h.key_map) [
  | none ↦ ok h
  | some index ↦ remove_index h index
]

-- The node has its new time already.
unfoldable pub update : Item → TtlKeyHeap → Result TtlKeyHeap
unfolding remove_index lookup push
update x h = elim (lookup same_names x.at h.key_map) [
  | none ↦ ok h
  | some index ↦ (do r ← remove_index h index; push x r)
]
