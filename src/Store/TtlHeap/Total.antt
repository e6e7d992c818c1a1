-- ===== src/Store/TtlHeap/Total.antt =====
-- store/ttl_key_heap.go: a node is pushed, and the top popped, without a panic.
use etcd.Prelude.{
  ◌+◌, ◌*◌, leb, false, take, ltb→lt, ℕ, zero, suc, ◌-◌, ◌/◌, ◌≤◌, ◌<◌, ◌≡◌, refl, ◌∙◌, inl, inr,
  Bool, not, [], ◌∷◌, arith, ltb, ◌==◌, length-append, get_elem?-lt, Bool-cases, Result, ok,
}
use etcd.Prelude.Arrays.{set, length-set}
use etcd.Prelude.Names.{delete, same_names, insert}
use etcd.Store.TtlHeap.{
  down, down_loop, smaller, pop, pop_last, Item, TtlKeyHeap, len, item, less, swap, push_last,
  up_loop, up, push,
}

-- The code gives a heap.
abbrev pub Gives : Result TtlKeyHeap → Type 0
Gives m = (h : TtlKeyHeap) × (m ≡ ok h)

item_ok : (h : TtlKeyHeap) (i : ℕ) → i < len h → (x : Item) × (item h i ≡ ok x)
item_ok h i inside = let (x, e) = get_elem?-lt h.array i inside in (x, rw (item, e) refl)

less_ok : (h : TtlKeyHeap) (i j : ℕ) → i < len h → j < len h → (b : Bool) × (less h i j ≡ ok b)
unfolding less
less_ok h i j p q =
    let (x, ex) = item_ok h i p in
    let (y, ey) = item_ok h j q in (ltb x.expire_time y.expire_time, rw (ex, ey) refl)

swap_ok :
    (h : TtlKeyHeap) (i j : ℕ)
    → i < len h
    → j < len h
    → (s : TtlKeyHeap) × (swap h i j ≡ ok s) × (len s ≡ len h)
unfolding swap
swap_ok h i j p q =
    let (x, ex) = item_ok h i p in
    let (y, ey) = item_ok h j q in
    (
      record {
        array = set (set h.array i y) j x;
        key_map = insert same_names x.at j (insert same_names y.at i h.key_map);
      },
      rw (ex, ey) refl,
      length-set (set h.array i y) j x ∙ length-set h.array i y,
    )

parent_le : (j : ℕ) → (j - 1) / 2 ≤ j
parent_le j = omega arith

up_loop_ok : (fuel j : ℕ) (h : TtlKeyHeap) → j < len h → Gives (up_loop fuel h j)
up_loop_ok zero j h inside = (h, unfold up_loop in refl)
up_loop_ok (suc fuel) j h inside =
    let i = (j - 1) / 2 in
    let parent = parent_le j in
    let (below, below_is) = less_ok h j i inside (omega (arith, parent)) in
    let (s, swapped, same) = swap_ok h i j (omega (arith, parent)) inside in
    let (r, rest) = up_loop_ok fuel i s (omega (arith, parent, same)) in
    elim (Bool-cases (i == j)) [
      | inl top ↦ (h, unfold up_loop in rw top refl)
      | inr lower ↦ elim (Bool-cases (not below)) [
        | inl stays ↦ (h, unfold up_loop in rw (lower, below_is, stays) refl)
        | inr rises ↦
            let step : up_loop (suc fuel) h j ≡ up_loop fuel s i =
              unfold up_loop in rw (lower, below_is, rises, swapped) refl in
            (r, step ∙ rest)
      ]
    ]

pub push_ok : (x : Item) (h : TtlKeyHeap) → Gives (push x h)
unfolding push up push_last
push_ok x h =
    up_loop_ok (suc (len h)) (len h) (push_last x h) (omega (arith, length-append h.array (x ∷ [])))

smaller_ok :
    (h : TtlKeyHeap) (i n : ℕ)
    → 2 * i + 1 < n
    → n ≤ len h
    → (m : ℕ) × (smaller h (2 * i + 1) n ≡ ok m) × (i < m) × (m < n)
smaller_ok h i n inside most = elim (Bool-cases (ltb (2 * i + 1 + 1) n)) [
  | inr one ↦ (2 * i + 1, unfold smaller in rw one refl, omega arith, inside)
  | inl two ↦
      let room = ltb→lt (2 * i + 1 + 1) n two in
      let (first, first_is) =
        less_ok h (2 * i + 1) (2 * i + 1 + 1) (omega (arith, inside, most))
          (omega (arith, room, most)) in
      elim (Bool-cases first) [
        | inl left ↦
            (2 * i + 1, unfold smaller in rw (two, first_is, left) refl, omega arith, inside)
        | inr right ↦
            (2 * i + 1 + 1, unfold smaller in rw (two, first_is, right) refl, omega arith, room)
      ]
]

down_loop_ok :
    (fuel i n : ℕ) (h : TtlKeyHeap)
    → n ≤ len h
    → (s : TtlKeyHeap) × (down_loop fuel h i n ≡ ok s) × (len s ≡ len h)
down_loop_ok zero i n h most = (h, unfold down_loop in refl, refl)
down_loop_ok (suc fuel) i n h most = elim (Bool-cases (leb n (2 * i + 1))) [
  | inl childless ↦ (h, unfold down_loop in rw childless refl, refl)
  | inr one ↦
      let inside : 2 * i + 1 < n = ground (arith, one) in
      let (m, smaller_is, above, below) = smaller_ok h i n inside most in
      let (lower, lower_is) =
        less_ok h m i (omega (arith, below, most)) (omega (arith, above, below, most)) in
      let (s, swapped, same) =
        swap_ok h i m (omega (arith, above, below, most)) (omega (arith, below, most)) in
      let (r, rest, kept) = down_loop_ok fuel m n s (omega (arith, most, same)) in
      elim (Bool-cases (not lower)) [
        | inl stays ↦ (h, unfold down_loop in rw (one, smaller_is, lower_is, stays) refl, refl)
        | inr sinks ↦
            let step : down_loop (suc fuel) h i n ≡ down_loop fuel s m n =
              unfold down_loop in rw (one, smaller_is, lower_is, sinks, swapped) refl in
            (r, step ∙ rest, kept ∙ same)
      ]
]

-- The last node of a heap that has one leaves it.
pop_last_ok : (h : TtlKeyHeap) → 0 < len h → (r : TtlKeyHeap × Item) × (pop_last h ≡ ok r)
unfolding pop_last
pop_last_ok h some_left =
    let (x, there) = item_ok h (len h - 1) (omega (arith, some_left)) in
    let full : (len h == 0) ≡ false = ground (arith, some_left) in
    (
      (record { array = take (len h - 1) h.array; key_map = delete same_names x.at h.key_map }, x),
      rw (full, there) refl,
    )

pub pop_ok : (h : TtlKeyHeap) → 0 < len h → (r : TtlKeyHeap × Item) × (pop h ≡ ok r)
unfolding pop down
pop_ok h some_left =
    let n = len h - 1 in
    let (s, swapped, same) = swap_ok h 0 n some_left (omega (arith, some_left)) in
    let (d, sunk, kept) = down_loop_ok (suc n) 0 n s (omega (arith, same)) in
    let (r, popped) = pop_last_ok d (omega (arith, kept, same, some_left)) in
    let full : (len h == 0) ≡ false = ground (arith, some_left) in
    (r, rw (full, swapped, sunk, popped) refl)
